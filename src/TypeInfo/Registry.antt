-- ===== src/TypeInfo/Registry.antt =====
-- TypeInfo_GetNullable: the bin of types holds each name once.
use barrel_test.TypeInfo.{
  add_type, answer_type, Name, TypeInfo, no_type, Bins, Layout, get_nullable_template,
  test_type_bin_count, type_scan, get_nullable,
}
use barrel_test.Base.{
  leb, ◌==◌, if◌then◌else◌, Bool-cases, ==_iff, ==_false, length, get_or, set, All, length-set,
  get_or-set_self, get_or-set_ne, ℕ, zero, suc, ◌+◌, ◌≤◌, ◌<◌, ◌≡◌, refl, sym, ap, ◌∙◌, ◌≢◌, inl,
  inr, Option, none, some, List, [], ◌∷◌, ◌++◌, arith,
}

-- The name pointer of entry `i`.
abbrev pub address_at : List TypeInfo → ℕ → ℕ
address_at types i = (get_or types i no_type).name.address

abbrev pub Absent : ℕ → List TypeInfo → Type 0
Absent a = All (λ (t : TypeInfo). t.name.address ≢ a)

-- The scan over a whole list.
abbrev pub find : List TypeInfo → ℕ → ℕ → Option ℕ
find xs i a = type_scan (length xs) xs i a

pub scan_behind :
    (n : ℕ) (xs ys : List TypeInfo) (i a : ℕ)
    → length xs ≤ n
    → Absent a ys
    → type_scan n (xs ++ ys) i a ≡ find xs i a
unfolding type_scan
scan_behind zero [] ys i a le out = refl
scan_behind (suc n) [] [] i a le out = refl
scan_behind (suc n) [] (y ∷ ys) i a le (ne, out) =
    rw (==_false _ a ne) (scan_behind n [] ys (i + 1) a (omega arith) out)
scan_behind zero (x ∷ xs) ys i a le out = absurd (omega arith)
scan_behind (suc n) (x ∷ xs) ys i a le out =
    ground (arith, scan_behind n xs ys (i + 1) a (omega arith) out)

pub find-some :
    (xs : List TypeInfo) (i a j : ℕ)
    → find xs i a ≡ some j
    → (k : ℕ) × (j ≡ i + k) × (k < length xs) × (address_at xs k ≡ a)
unfolding type_scan
find-some [] i a j h = absurd (cc)
find-some (x ∷ xs) i a j h = elim (Bool-cases (x.name.address == a)) [
  | inl same ↦ (0, ground arith, ground arith, ground arith)
  | inr other ↦
      let (k, e, lt, at) = find-some xs (i + 1) a j (rw other at h) in
      (suc k, omega arith, omega arith, at)
]

pub find-none :
    (xs : List TypeInfo) (i a : ℕ)
    → find xs i a ≡ none
    → (k : ℕ) → k < length xs
    → address_at xs k ≢ a
unfolding type_scan
find-none [] i a h k lt = absurd (omega arith)
find-none (x ∷ xs) i a h zero lt = ground arith
find-none (x ∷ xs) i a h (suc k) lt = find-none xs (i + 1) a (ground arith) k (omega arith)

pub find_at :
    (xs : List TypeInfo) (i a k : ℕ)
    → k < length xs
    → address_at xs k ≡ a
    → ((l : ℕ) → l < k → address_at xs l ≢ a)
    → find xs i a ≡ some (i + k)
unfolding type_scan
find_at [] i a k lt at before = absurd (omega arith)
find_at (x ∷ xs) i a zero lt at before = ground arith
find_at (x ∷ xs) i a (suc k) lt at before = rw (==_false _ a (before 0 (omega arith))) (
    find_at xs (i + 1) a k (omega arith) at (λ l h. before (suc l) (omega arith))
    ∙ ap some (omega arith))

pub record IsValid (bins : Bins) : Type 0 where
  pub slots : length bins.types ≡ test_type_bin_count
  pub room : bins.type_count ≤ test_type_bin_count
  pub used : (i : ℕ) → i < bins.type_count → address_at bins.types i ≢ 0
  pub unused : (i : ℕ) → bins.type_count ≤ i → address_at bins.types i ≡ 0
  pub distinct :
      (i j : ℕ) → i < j → j < bins.type_count → address_at bins.types i ≢ address_at bins.types j

-- The entry that a call adds.
abbrev pub entry : Layout → Bins → Name → ℕ → ℕ → TypeInfo
entry layout bins name size null_loc = record {
  name = name;
  size = size;
  null_loc = (get_nullable_template layout bins size null_loc).0;
}

pub data Outcome (layout : Layout) (bins : Bins) (name : Name) (size null_loc : ℕ)
    : Option ℕ × Bins → Type 0 where
  found :
      (i : ℕ)
      → find bins.types 0 name.address ≡ some i
      → Outcome layout bins name size null_loc (some i, bins)
  full :
      find bins.types 0 name.address ≡ none
      → test_type_bin_count ≤ bins.type_count
      → Outcome layout bins name size null_loc (none, bins)
  added :
      find bins.types 0 name.address ≡ none
      → bins.type_count < test_type_bin_count
      → (b : Bins) → b.types ≡ set bins.types bins.type_count (entry layout bins name size null_loc)
      → b.type_count ≡ bins.type_count + 1
      → Outcome layout bins name size null_loc (some bins.type_count, b)

pub template-types :
    (layout : Layout) (bins : Bins) (size null_loc : ℕ)
    → (get_nullable_template layout bins size null_loc).1.types ≡ bins.types
unfolding get_nullable_template
template-types layout bins size null_loc = ground arith

answer-Outcome :
    (layout : Layout) (bins : Bins) (name : Name) (size null_loc : ℕ) (o : Option ℕ)
    → find bins.types 0 name.address ≡ o
    → Outcome layout bins name size null_loc (answer_type layout bins name size null_loc o)
unfolding answer_type add_type
answer-Outcome layout bins name size null_loc (some i) e = found i e
answer-Outcome layout bins name size null_loc none e =
    elim (Bool-cases (leb test_type_bin_count bins.type_count)) [
      | inl no_room ↦ rw no_room (full e (ground arith))
      | inr left ↦ rw left (
          added e (ground arith) _
            (ap (λ ts. set ts bins.type_count (entry layout bins name size null_loc))
              (template-types layout bins size null_loc))
            refl)
    ]

pub get_nullable-Outcome :
    (layout : Layout) (bins : Bins) (name : Name) (size null_loc : ℕ)
    → length bins.types ≡ test_type_bin_count
    → Absent name.address layout.behind
    → Outcome layout bins name size null_loc (get_nullable layout bins name size null_loc)
unfolding get_nullable
get_nullable-Outcome layout bins name size null_loc slots clean =
    answer-Outcome layout bins name size null_loc _
      (sym (scan_behind 64 bins.types layout.behind 0 name.address (omega arith) clean))

-- The name pointers of a bin in which entry `c` was set.
pub address_at-set :
    (xs : List TypeInfo) (c k : ℕ) (t : TypeInfo)
    → c < length xs
    → address_at (set xs c t) k ≡ (if c == k then t.name.address else address_at xs k)
address_at-set xs c k t lt = elim (Bool-cases (c == k)) [
  | inl same ↦
      let e : c ≡ k = (==_iff c k).0 same in
      rw (same, ← e) (ap (λ (u : TypeInfo). u.name.address) (get_or-set_self xs c t no_type lt))
  | inr other ↦
      rw other
        (ap (λ (u : TypeInfo). u.name.address) (get_or-set_ne xs c k t no_type (ground arith)))
]

pub IsValid-added :
    (bins b : Bins) (t : TypeInfo)
    → IsValid bins
    → t.name.address ≢ 0
    → ((k : ℕ) → k < length bins.types → address_at bins.types k ≢ t.name.address)
    → bins.type_count < test_type_bin_count
    → b.types ≡ set bins.types bins.type_count t
    → b.type_count ≡ bins.type_count + 1
    → IsValid b
IsValid-added bins b t v ne new left e f =
    let len : length b.types ≡ 32 = rw e (length-set bins.types bins.type_count t ∙ v.slots) in
    record {
      slots = len;
      room = omega arith;
      used = λ i lt. rw (at i) (ground (arith, v.used i));
      unused = λ i le. rw (at i) (ground (arith, v.unused i));
      distinct = λ i j lt lt'. rw (at i, at j) (ground (arith, v.distinct i j, new i, new j));
    }
  where
    at :
        (k : ℕ)
        → address_at b.types k
          ≡ (if bins.type_count == k then t.name.address else address_at bins.types k)
    at k =
        ap (λ ts. address_at ts k) e
        ∙ address_at-set bins.types bins.type_count k t (omega (arith, v.slots))
