-- ===== src/Collection/Registry.antt =====
-- Collection_GetExtensions shares one entry among all collections of the same methods, type and
-- flags.
use barrel_test.Collection.{
  extensions_create, entry_ptr, get_extensions, Word, answer_extensions, CollectionExtensions,
  World, compare, extension_scan,
}
use barrel_test.Base.{
  leb, Bool-cases, length, get_elem?, set, length-set, get_elem?-set_self, get_elem?-set_ne, ℕ,
  zero, suc, ◌+◌, ◌≤◌, ◌<◌, ◌≡◌, refl, sym, ap, ◌∙◌, subst, ◌≢◌, ◌↔◌, inl, inr, true, Option, none,
  some, List, [], ◌∷◌, arith,
}
use native.Mathlib.Decide.{dec_lt}
use barrel_test.TypeInfo.{test_type_bin_count}

compare_sound : (a b : CollectionExtensions) → compare a b ≡ true → a ≡ b
unfolding compare
compare_sound a b h = ground arith

compare_self : (a : CollectionExtensions) → compare a a ≡ true
unfolding compare
compare_self a = ground arith

-- Collection_Compare holds exactly of entries that are equal in all three fields.
pub compare_iff : (a b : CollectionExtensions) → (compare a b ≡ true) ↔ (a ≡ b)
compare_iff a b = (compare_sound a b, λ e. subst (λ c. compare a c ≡ true) e (compare_self a))

scan_some :
    (n : ℕ) (xs : List CollectionExtensions) (i : ℕ) (e : CollectionExtensions) (j : ℕ)
    → extension_scan n xs i e ≡ some j
    → (k : ℕ) × (j ≡ i + k) × (k < n) × (get_elem? xs k ≡ some e)
unfolding extension_scan
scan_some zero xs i e j h = absurd (cc)
scan_some (suc n) [] i e j h = absurd (cc)
scan_some (suc n) (x ∷ xs) i e j h = elim (Bool-cases (compare x e)) [
  | inl same ↦ (0, ground arith, omega arith, ap some (compare_sound x e same))
  | inr other ↦
      let (k, eq, lt, at) = scan_some n xs (i + 1) e j (rw other at h) in
      (suc k, omega arith, omega arith, at)
]

scan_none :
    (n : ℕ) (xs : List CollectionExtensions) (i : ℕ) (e : CollectionExtensions)
    → extension_scan n xs i e ≡ none
    → (k : ℕ) → k < n
    → get_elem? xs k ≢ some e
unfolding extension_scan
scan_none zero xs i e h k lt at = absurd (omega arith)
scan_none (suc n) [] i e h k lt at = absurd (cc)
scan_none (suc n) (x ∷ xs) i e h zero lt at =
    let same : x ≡ e = ground arith in
    absurd (cc (subst (λ c. compare x c ≡ true) same (compare_self x)))
scan_none (suc n) (x ∷ xs) i e h (suc k) lt at =
    scan_none n xs (i + 1) e (ground arith) k (omega arith) at

pub record IsValid (w : World) : Type 0 where
  pub slots : length w.extensions ≡ test_type_bin_count
  pub room : w.extension_count ≤ test_type_bin_count
  pub distinct :
      (i j : ℕ)
      → i < j
      → j < w.extension_count
      → get_elem? w.extensions i ≢ get_elem? w.extensions j

scan_at :
    (n : ℕ) (xs : List CollectionExtensions) (i : ℕ) (e : CollectionExtensions) (k : ℕ)
    → k < n
    → get_elem? xs k ≡ some e
    → ((l : ℕ) → l < k → get_elem? xs l ≢ some e)
    → extension_scan n xs i e ≡ some (i + k)
unfolding extension_scan
scan_at zero xs i e k lt at before = absurd (omega arith)
scan_at (suc n) [] i e k lt at before = absurd (cc)
scan_at (suc n) (x ∷ xs) i e zero lt at before =
    let same : x ≡ e = ground arith in
    rw (subst (λ c. compare x c ≡ true) same (compare_self x)) (ap some (omega arith))
scan_at (suc n) (x ∷ xs) i e (suc k) lt at before = elim (Bool-cases (compare x e)) [
  | inl same ↦ absurd (before 0 (omega arith) (ap some (compare_sound x e same)))
  | inr other ↦ rw other (
      scan_at n xs (i + 1) e k (omega arith) at (λ l h. before (suc l) (omega arith))
      ∙ ap some (omega arith))
]

module _ {w : World} (e : CollectionExtensions) (v : IsValid w) where
  -- The world with the entry added.
  abbrev grown : World
  grown = record w {
    extensions = set w.extensions w.extension_count e;
    extension_count = w.extension_count + 1;
  }

  abbrev scan : Option ℕ
  scan = extension_scan w.extension_count w.extensions 0 e

  abbrev IsNew : Type 0
  IsNew = (k : ℕ) → k < w.extension_count → get_elem? w.extensions k ≢ some e

  grown_self :
      w.extension_count < test_type_bin_count
      → get_elem? grown.extensions w.extension_count ≡ some e
  grown_self left = get_elem?-set_self w.extensions w.extension_count e (omega (arith, v.slots))

  grown-other :
      (k : ℕ) → k < w.extension_count → get_elem? grown.extensions k ≡ get_elem? w.extensions k
  grown-other k lt = get_elem?-set_ne w.extensions w.extension_count k e (omega arith)

  grown-distinct :
      w.extension_count < test_type_bin_count
      → IsNew
      → (i j : ℕ) → i < j
      → j < w.extension_count + 1
      → get_elem? grown.extensions i ≢ get_elem? grown.extensions j
  grown-distinct left new i j lt lt' = elim (dec_lt j w.extension_count) [
    | yes p ↦ rw (grown-other i (omega arith), grown-other j p) (v.distinct i j lt p)
    | no p ↦
        let last : w.extension_count ≡ j = omega arith in
        λ same. new i (omega arith) (
          sym (grown-other i (omega arith))
          ∙ same
          ∙ ap (get_elem? grown.extensions) (sym last)
          ∙ grown_self left)
  ]

  grown-IsValid : w.extension_count < test_type_bin_count → IsNew → IsValid grown
  grown-IsValid left new = record {
    slots = length-set w.extensions w.extension_count e ∙ v.slots;
    room = omega arith;
    distinct = grown-distinct left new;
  }

  answer-IsValid : (o : Option ℕ) → scan ≡ o → IsValid (answer_extensions w e o).1
  unfolding answer_extensions
  answer-IsValid (some i) eq = v
  answer-IsValid none eq = elim (Bool-cases (leb test_type_bin_count w.extension_count)) [
    | inl no_room ↦ rw no_room v
    | inr left ↦
        rw left (grown-IsValid (ground arith) (scan_none w.extension_count w.extensions 0 e eq))
  ]

  -- What a pointer that is not NULL points to, and where the first call for it stood.
  answer-entry :
      (o : Option ℕ) (i : ℕ)
      → scan ≡ o
      → (answer_extensions w e o).0 ≡ suc i
      → (i < (answer_extensions w e o).1.extension_count)
        × (get_elem? (answer_extensions w e o).1.extensions i ≡ some e)
        × ((l : ℕ) → l < i → get_elem? (answer_extensions w e o).1.extensions l ≢ some e)
  unfolding answer_extensions
  answer-entry (some j) i eq h =
      let (k, at_k, lt, at) = scan_some w.extension_count w.extensions 0 e j eq in
      let same : k ≡ i = ground arith in
      let at_i : get_elem? w.extensions i ≡ some e = rw (← same) at in
      (omega arith, at_i, λ l before is. v.distinct l i before (omega arith) (is ∙ sym at_i))
  answer-entry none i eq h = elim (Bool-cases (leb test_type_bin_count w.extension_count)) [
    | inl no_room ↦ absurd (ground arith)
    | inr left ↦
        let last : w.extension_count ≡ i = ground arith in
        let room : w.extension_count < test_type_bin_count = ground arith in
        rw (left, ← last)
          (
            omega arith,
            grown_self room,
            λ l before is.
                scan_none w.extension_count w.extensions 0 e eq l before
                  (sym (grown-other l before) ∙ is),
          )
  ]

  answer-null :
      (o : Option ℕ)
      → scan ≡ o
      → (answer_extensions w e o).0 ≡ 0
      → (w.extension_count ≡ test_type_bin_count) × IsNew × ((answer_extensions w e o).1 ≡ w)
  unfolding answer_extensions
  answer-null (some i) eq h = absurd (ground arith)
  answer-null none eq h = elim (Bool-cases (leb test_type_bin_count w.extension_count)) [
    | inl no_room ↦
        let full : test_type_bin_count ≤ w.extension_count = ground arith in
        rw no_room (omega (arith, v.room), scan_none w.extension_count w.extensions 0 e eq, refl)
    | inr left ↦ absurd (ground arith)
  ]

module _ {w : World} (type methods : Word) (mem_flags : ℕ) (v : IsValid w) where
  abbrev asked : CollectionExtensions
  asked = record { type = type; methods = methods; mem_flags = mem_flags }

  -- Collection_GetExtensions keeps a valid registry valid: 32 slots, no two used ones equal.
  pub get_extensions-IsValid : IsValid (get_extensions w type methods mem_flags).1
  unfolding get_extensions
  get_extensions-IsValid = answer-IsValid asked v _ refl

  -- In a valid registry, if the answer is not NULL it points to an entry with exactly the type,
  -- methods and flags asked for, and the same question asked again gives the same pointer and
  -- changes nothing.
  pub get_extensions_twice :
      (i : ℕ)
      → (get_extensions w type methods mem_flags).0 ≡ entry_ptr (some i)
      → let w' = (get_extensions w type methods mem_flags).1 in
        (get_elem? w'.extensions i ≡ some asked)
        × (get_extensions w' type methods mem_flags ≡ (entry_ptr (some i), w'))
  unfolding get_extensions
  get_extensions_twice i h =
      let (lt, at, before) = answer-entry asked v _ i refl h in
      (
        at,
        rw (scan_at _ _ 0 asked i lt at before, answer_extensions)
            (ap (λ k. (suc k, (get_extensions w type methods mem_flags).1)) (omega arith)),
      )

  -- What is registered is found.
  pub get_extensions_known :
      (i : ℕ)
      → i < w.extension_count
      → get_elem? w.extensions i ≡ some asked
      → get_extensions w type methods mem_flags ≡ (entry_ptr (some i), w)
  unfolding get_extensions extensions_create answer_extensions
  get_extensions_known i lt at =
      rw
        (scan_at w.extension_count w.extensions 0 asked i lt at
          (λ l before is. v.distinct l i before lt (is ∙ sym at)))
        (ap (λ k. (suc k, w)) (omega arith))

  -- The pointer is NULL only if all 32 slots are used and none holds what was asked for; nothing
  -- changes then.
  pub get_extensions_null :
      (get_extensions w type methods mem_flags).0 ≡ 0
      → (w.extension_count ≡ test_type_bin_count)
        × ((i : ℕ) → i < w.extension_count → get_elem? w.extensions i ≢ some asked)
        × ((get_extensions w type methods mem_flags).1 ≡ w)
  unfolding get_extensions
  get_extensions_null h = answer-null asked v _ refl h
