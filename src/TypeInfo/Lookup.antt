-- ===== src/TypeInfo/Lookup.antt =====
-- TypeInfo_GetNullable as a lookup by the name's pointer.
use native.Mathlib.Decide.{dec_lt}
use barrel_test.Base.{
  leb, ==_refl, get_or, get_or-set_self, get_or-set_ne, ℕ, ◌+◌, ◌≤◌, ◌<◌, ◌≡◌, refl, sym, ap, ◌∙◌,
  ◌≢◌, false, Option, none, some, ◌++◌, arith,
}
use barrel_test.TypeInfo.{
  Name, no_type, Bins, Layout, test_type_bin_count, get_nullable, answer_type, add_type, type_scan,
}
use barrel_test.TypeInfo.Registry.{
  address_at, Absent, find, find-some, find-none, find_at, scan_behind, IsValid, entry, Outcome,
  found, full, added, get_nullable-Outcome, IsValid-added, template-types, address_at-set,
}

Outcome-IsValid :
    (layout : Layout) {bins : Bins} (name : Name) (size null_loc : ℕ) {r : Option ℕ × Bins}
    → IsValid bins
    → name.address ≢ 0
    → Outcome layout bins name size null_loc r
    → IsValid r.1
Outcome-IsValid layout name size null_loc v ne (found i e) = v
Outcome-IsValid layout name size null_loc v ne (full e no_room) = v
Outcome-IsValid layout {bins} name size null_loc v ne (added e left b f g) =
    IsValid-added bins b (entry layout bins name size null_loc) v ne
      (find-none bins.types 0 name.address e) left f g

module _ (layout : Layout) {bins : Bins} (name : Name) (size null_loc : ℕ) (v : IsValid bins) where
  -- For a name that is not NULL and that none of the words behind the bin equals,
  -- TypeInfo_GetNullable keeps a valid bin valid: 32 slots, the used ones first, each with a name
  -- of its own.
  pub get_nullable-IsValid :
      name.address ≢ 0
      → Absent name.address layout.behind
      → IsValid (get_nullable layout bins name size null_loc).1
  get_nullable-IsValid ne clean =
      Outcome-IsValid layout name size null_loc v ne
        (get_nullable-Outcome layout bins name size null_loc v.slots clean)

  -- A name of the bin is found, at its index and with no change.
  pub get_nullable_known :
      (i : ℕ)
      → i < bins.type_count
      → address_at bins.types i ≡ name.address
      → Absent name.address layout.behind
      → get_nullable layout bins name size null_loc ≡ (some i, bins)
  unfolding get_nullable
  get_nullable_known i lt at clean =
      rw
        (
          scan_behind 64 bins.types layout.behind 0 name.address (omega (arith, v.slots)) clean,
          find_at bins.types 0 name.address i (omega (arith, v.slots, v.room)) at
              (λ l h. rw (← at) (v.distinct l i h lt)),
          answer_type,
        )
        (ap (λ k. (some k, bins)) (omega arith))

  -- No entry has the name.
  abbrev IsNew : Type 0
  IsNew = (i : ℕ) → i < bins.type_count → address_at bins.types i ≢ name.address

  new_find :
      name.address ≢ 0 → IsNew → (o : Option ℕ) → find bins.types 0 name.address ≡ o → o ≡ none
  new_find ne new none e = refl
  new_find ne new (some j) e =
      let (k, _, lt, at) = find-some bins.types 0 name.address j e in
      elim (dec_lt k bins.type_count) [
        | yes p ↦ absurd (new k p at)
        | no p ↦ absurd (ne (sym at ∙ v.unused k (omega arith)))
      ]

  new_scan :
      name.address ≢ 0
      → Absent name.address layout.behind
      → IsNew
      → type_scan 64 (bins.types ++ layout.behind) 0 name.address ≡ none
  new_scan ne clean new =
      scan_behind 64 bins.types layout.behind 0 name.address (omega (arith, v.slots)) clean
      ∙ new_find ne new _ refl

  -- A new name finds no room in a full bin, which does not change.
  pub get_nullable_full :
      name.address ≢ 0
      → Absent name.address layout.behind
      → IsNew
      → test_type_bin_count ≤ bins.type_count
      → get_nullable layout bins name size null_loc ≡ (none, bins)
  unfolding get_nullable answer_type
  get_nullable_full ne clean new no_room = rw (new_scan ne clean new) (ground arith)

  -- A new name gets the slot behind the last entry, with the size asked for; all other entries stay.
  pub get_nullable_new :
      name.address ≢ 0
      → Absent name.address layout.behind
      → IsNew
      → bins.type_count < test_type_bin_count
      → let (r, b) = get_nullable layout bins name size null_loc in
        (r ≡ some bins.type_count)
        × (b.type_count ≡ bins.type_count + 1)
        × (get_or b.types bins.type_count no_type ≡ entry layout bins name size null_loc)
        × ((i : ℕ) → i ≢ bins.type_count → get_or b.types i no_type ≡ get_or bins.types i no_type)
  unfolding get_nullable answer_type add_type
  get_nullable_new ne clean new left =
      rw (new_scan ne clean new, room)
        (
          refl,
          refl,
          rw (template-types layout bins size null_loc) (
              get_or-set_self bins.types bins.type_count (entry layout bins name size null_loc)
                no_type (omega (arith, v.slots))),
          λ i other. rw (template-types layout bins size null_loc) (
              get_or-set_ne bins.types bins.type_count i (entry layout bins name size null_loc)
                no_type (ground arith)),
        )
    where
      room : leb test_type_bin_count bins.type_count ≡ false
      room = ground arith

Outcome-known :
    (layout : Layout) {bins : Bins} (name : Name) (size null_loc : ℕ) {r : Option ℕ × Bins} (i : ℕ)
    → IsValid bins
    → name.address ≢ 0
    → Outcome layout bins name size null_loc r
    → r.0 ≡ some i
    → (i < r.1.type_count) × (address_at r.1.types i ≡ name.address)
Outcome-known layout {bins} name size null_loc i v ne (found j e) h =
    let (k, e', lt, at) = find-some bins.types 0 name.address j e in
    let e'' : i ≡ k = ground arith in
    rw e'' (elim (dec_lt k bins.type_count) [
      | yes p ↦ (p, at)
      | no p ↦ absurd (ne (sym at ∙ v.unused k (omega arith)))
    ])
Outcome-known layout name size null_loc i v ne (full e no_room) h = absurd (cc)
Outcome-known layout {bins} name size null_loc i v ne (added e left b f g) h =
    let c : i ≡ bins.type_count = ground arith in
    (
      omega arith,
      rw (f, c)
          (address_at-set bins.types bins.type_count bins.type_count _ (omega (arith, v.slots))
            ∙ rw (==_refl bins.type_count)),
    )

-- In a valid bin, a name that is not NULL, that none of the words behind the bin equals, and that
-- was once looked up with success is then found at the same index, whatever size and template come
-- with it, and the lookup changes nothing.
pub get_nullable_twice :
    (layout : Layout) {bins : Bins} (name : Name) (size null_loc size' null_loc' i : ℕ)
    → IsValid bins
    → name.address ≢ 0
    → Absent name.address layout.behind
    → (get_nullable layout bins name size null_loc).0 ≡ some i
    → let b = (get_nullable layout bins name size null_loc).1 in
      get_nullable layout b name size' null_loc' ≡ (some i, b)
get_nullable_twice layout {bins} name size null_loc size' null_loc' i v ne clean h =
    let out = get_nullable-Outcome layout bins name size null_loc v.slots clean in
    let (lt, at) = Outcome-known layout name size null_loc i v ne out h in
    get_nullable_known layout name size' null_loc'
      (Outcome-IsValid layout name size null_loc v ne out) i lt at clean
