-- ===== src/TypeInfo/Properties.antt =====
-- Property_Get: the bin of properties holds each text once.
use native.Mathlib.Decide.{dec_lt}
use barrel_test.Base.{
  leb, Bool-cases, length, get_or, set, length-set, get_or-set_self, get_or-set_ne, ℕ, zero, suc,
  ◌+◌, ◌≤◌, ◌<◌, ◌≡◌, refl, ap, ◌∙◌, inl, inr, Bool, true, false, Option, none, some, List, [], ◌∷◌,
  arith,
}
use barrel_test.Helpers.{Chars, default_string_compare}
use barrel_test.Helpers.Text.{default_string_compare_self}
use barrel_test.TypeInfo.{
  Name, Property, no_property, Bins, test_property_bin_count, property_scan, answer_property,
  property_get,
}

abbrev pub text_at : List Property → ℕ → Chars
text_at properties i = (get_or properties i no_property).name.text

-- Entry `i` has the text `a`, for the code.
abbrev pub matches : List Property → ℕ → Chars → Bool
matches properties i a = default_string_compare (text_at properties i) a

scan_none :
    (n : ℕ) (xs : List Property) (i : ℕ) (a : Chars)
    → property_scan n xs i a ≡ none
    → (k : ℕ) → k < n
    → k < length xs
    → matches xs k a ≡ false
unfolding property_scan
scan_none zero xs i a h k lt fits = absurd (omega arith)
scan_none (suc n) [] i a h k lt fits = absurd (omega arith)
scan_none (suc n) (x ∷ xs) i a h zero lt fits = ground arith
scan_none (suc n) (x ∷ xs) i a h (suc k) lt fits =
    scan_none n xs (i + 1) a (ground arith) k (omega arith) (omega arith)

scan_some :
    (n : ℕ) (xs : List Property) (i : ℕ) (a : Chars) (j : ℕ)
    → property_scan n xs i a ≡ some j
    → (k : ℕ) × (j ≡ i + k) × (k < n) × (matches xs k a ≡ true)
unfolding property_scan
scan_some zero xs i a j h = absurd (cc)
scan_some (suc n) [] i a j h = absurd (cc)
scan_some (suc n) (x ∷ xs) i a j h = elim (Bool-cases (default_string_compare x.name.text a)) [
  | inl same ↦ (0, ground arith, omega arith, same)
  | inr other ↦
      let (k, e, lt, at) = scan_some n xs (i + 1) a j (rw other at h) in
      (suc k, omega arith, omega arith, at)
]

scan_at :
    (n : ℕ) (xs : List Property) (i : ℕ) (a : Chars) (k : ℕ)
    → k < n
    → k < length xs
    → matches xs k a ≡ true
    → ((l : ℕ) → l < k → matches xs l a ≡ false)
    → property_scan n xs i a ≡ some (i + k)
unfolding property_scan
scan_at zero xs i a k lt fits at before = absurd (omega arith)
scan_at (suc n) [] i a k lt fits at before = absurd (omega arith)
scan_at (suc n) (x ∷ xs) i a zero lt fits at before = rw at (ap some (omega arith))
scan_at (suc n) (x ∷ xs) i a (suc k) lt fits at before = rw (before 0 (omega arith)) (
    scan_at n xs (i + 1) a k (omega arith) (omega arith) at (λ l h. before (suc l) (omega arith))
    ∙ ap some (omega arith))

pub record IsSized (bins : Bins) : Type 0 where
  pub slots : length bins.properties ≡ test_property_bin_count
  pub room : bins.property_count ≤ test_property_bin_count

module _ {bins : Bins} (name : Name) (info : Option ℕ) (v : IsSized bins) where
  abbrev new_bins : Bins
  new_bins = record bins {
    properties = set bins.properties bins.property_count (record { name = name; type = info });
    property_count = bins.property_count + 1;
  }

  abbrev scan : Option ℕ
  scan = property_scan bins.property_count bins.properties 0 name.text

  abbrev text_matches : Property → Bool
  text_matches p = default_string_compare p.name.text name.text

  -- The second lookup after a first one that met no entry.
  rescan :
      bins.property_count < test_property_bin_count
      → scan ≡ none
      → property_scan (bins.property_count + 1) new_bins.properties 0 name.text
        ≡ some bins.property_count
  rescan left e =
      let c = bins.property_count in
      let p : Property = record { name = name; type = info } in
      let len = length-set bins.properties c p in
      scan_at (c + 1) new_bins.properties 0 name.text c (omega arith) (omega (arith, v.slots, len))
        (ap text_matches (get_or-set_self bins.properties c p no_property (omega (arith, v.slots)))
          ∙ default_string_compare_self name.text)
        (λ l h.
          ap text_matches (get_or-set_ne bins.properties c l p no_property (omega arith))
          ∙ scan_none c bins.properties 0 name.text e l h (omega (arith, v.slots)))
      ∙ ap some (omega arith)

  twice :
      (info' : Option ℕ) (o : Option ℕ) (i : ℕ)
      → scan ≡ o
      → (answer_property bins name info o).0 ≡ some i
      → property_get (answer_property bins name info o).1 name info'
        ≡ (some i, (answer_property bins name info o).1)
  unfolding property_get answer_property
  twice info' (some j) i e h = rw e (ground arith)
  twice info' none i e h = elim (dec_lt bins.property_count test_property_bin_count) [
    | yes left ↦
        let room : leb test_property_bin_count bins.property_count ≡ false = ground arith in
        let at : bins.property_count ≡ i = ground arith in
        rw (room, rescan left e) (ap (λ k. (some k, new_bins)) at)
    | no p ↦ absurd (ground arith)
  ]

-- In a bin of 64 slots, a property that was once registered or found under a text is found again
-- at the same index by every property of that text, whatever type comes with it, and the lookup
-- changes nothing.
pub property_get_twice :
    {bins : Bins} (name : Name) (info info' : Option ℕ) (i : ℕ)
    → IsSized bins
    → (property_get bins name info).0 ≡ some i
    → let b = (property_get bins name info).1 in property_get b name info' ≡ (some i, b)
unfolding property_get
property_get_twice {bins} name info info' i v h = twice name info v info' _ i refl h

answer-IsSized :
    {bins : Bins} (name : Name) (info o : Option ℕ)
    → IsSized bins
    → IsSized (answer_property bins name info o).1
unfolding answer_property
answer-IsSized name info (some i) v = v
answer-IsSized {bins} name info none v =
    ground
      (arith, length-set bins.properties bins.property_count (record { name = name; type = info }))

-- Property_Get keeps the bin at 64 slots and its count within them.
pub property_get-IsSized :
    {bins : Bins} (name : Name) (info : Option ℕ)
    → IsSized bins
    → IsSized (property_get bins name info).1
unfolding property_get
property_get-IsSized name info v = answer-IsSized name info _ v
