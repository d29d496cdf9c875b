-- ===== src/Helpers/Text.antt =====
-- What the text comparisons and findSubString of tHelpers.c decide.
use mathlib.Core.Path.{ap₂}
use mathlib.Core.List.{cons-ne-nil}
use barrel_test.Base.{
  Bool-cases, ℕ, ◌+◌, ◌≡◌, refl, sym, ◌≢◌, ◌↔◌, ◌⊎◌, inl, inr, true, false, [], ◌∷◌, ◌++◌, arith,
}
use barrel_test.Base.Int.{pos, negsuc}
use barrel_test.Helpers.{
  Chars, NulFree, default_sub_string_compare, default_string_compare, find_sub_string_loop,
  find_sub_string,
}

abbrev pub IsPrefix : Chars → Chars → Type 0
IsPrefix sub str = (rest : Chars) × (str ≡ sub ++ rest)

sub_compare_sound :
    (sub str : Chars) → NulFree sub → default_sub_string_compare sub str ≡ true → IsPrefix sub str
unfolding default_sub_string_compare
sub_compare_sound [] str free h = (str, refl)
sub_compare_sound (c ∷ sub) [] (ne, free) h = absurd (ground arith)
sub_compare_sound (c ∷ sub) (d ∷ str) (ne, free) h =
    let same : c ≡ d = ground arith in
    let (rest, e) = sub_compare_sound sub str free (ground arith) in (rest, ap₂ ◌∷◌ (sym same) e)

sub_compare_complete : (sub rest : Chars) → default_sub_string_compare sub (sub ++ rest) ≡ true
unfolding default_sub_string_compare
sub_compare_complete [] rest = refl
sub_compare_complete (c ∷ sub) rest = ground (arith, sub_compare_complete sub rest)

-- defaultSubStringCompare holds exactly when `sub` is a prefix of `str`.
pub default_sub_string_compare-IsPrefix :
    (sub str : Chars) → NulFree sub → (default_sub_string_compare sub str ≡ true) ↔ IsPrefix sub str
default_sub_string_compare-IsPrefix sub str free =
    (sub_compare_sound sub str free, λ (rest, e). rw e (sub_compare_complete sub rest))

string_compare_sound :
    (sub str : Chars)
    → NulFree sub
    → NulFree str
    → default_string_compare sub str ≡ true
    → sub ≡ str
unfolding default_string_compare
string_compare_sound [] [] free free' h = refl
string_compare_sound [] (d ∷ str) free (ne, free') h = absurd (ground arith)
string_compare_sound (c ∷ sub) [] (ne, free) free' h = absurd (ground arith)
string_compare_sound (c ∷ sub) (d ∷ str) (ne, free) (ne', free') h =
    ap₂ ◌∷◌ (ground arith) (string_compare_sound sub str free free' (ground arith))

pub default_string_compare_self : (s : Chars) → default_string_compare s s ≡ true
unfolding default_string_compare
default_string_compare_self [] = refl
default_string_compare_self (c ∷ s) = ground (arith, default_string_compare_self s)

-- On two C strings defaultStringCompare holds exactly when they are equal.
pub default_string_compare_iff :
    (sub str : Chars)
    → NulFree sub
    → NulFree str
    → (default_string_compare sub str ≡ true) ↔ (sub ≡ str)
default_string_compare_iff sub str free free' =
    (string_compare_sound sub str free free', λ e. rw e (default_string_compare_self str))

-- A round that fails leaves all later rounds to fail: they compare the same two texts.
find_loop-miss :
    (sub src rest : Chars) (seek : ℕ)
    → default_sub_string_compare sub src ≡ false
    → find_sub_string_loop sub src rest seek ≡ negsuc 0
unfolding find_sub_string_loop
find_loop-miss sub src [] seek miss = refl
find_loop-miss sub src (c ∷ rest) seek miss = rw miss (find_loop-miss sub src rest (seek + 1) miss)

find_miss :
    (sub src : Chars)
    → default_sub_string_compare sub src ≡ false
    → find_sub_string sub src ≡ negsuc 0
unfolding find_sub_string
find_miss sub src miss = find_loop-miss sub src src 0 miss

find_hit :
    (sub : Chars) (c : ℕ) (src : Chars)
    → default_sub_string_compare sub (c ∷ src) ≡ true
    → find_sub_string sub (c ∷ src) ≡ pos 0
unfolding find_sub_string
find_hit sub c src hit = rw hit

find_sound :
    (sub src : Chars)
    → NulFree sub
    → find_sub_string sub src ≡ pos 0
    → (src ≢ []) × IsPrefix sub src
unfolding find_sub_string
find_sound sub [] free e = absurd (cc)
find_sound sub (c ∷ src) free e = elim (Bool-cases (default_sub_string_compare sub (c ∷ src))) [
  | inl hit ↦ (cons-ne-nil c src, (default_sub_string_compare-IsPrefix sub (c ∷ src) free).0 hit)
  | inr miss ↦ absurd (cc (find_miss sub (c ∷ src) miss))
]

find_complete :
    (sub src : Chars) → NulFree sub → src ≢ [] → IsPrefix sub src → find_sub_string sub src ≡ pos 0
find_complete sub [] free ne p = absurd (ne refl)
find_complete sub (c ∷ src) free ne p =
    find_hit sub c src ((default_sub_string_compare-IsPrefix sub (c ∷ src) free).1 p)

find_values :
    (sub src : Chars) → (find_sub_string sub src ≡ pos 0) ⊎ (find_sub_string sub src ≡ negsuc 0)
unfolding find_sub_string
find_values sub [] = inr refl
find_values sub (c ∷ src) = elim (Bool-cases (default_sub_string_compare sub (c ∷ src))) [
  | inl hit ↦ inl (rw hit)
  | inr miss ↦ inr (find_miss sub (c ∷ src) miss)
]

-- findSubString answers 0 or -1 and nothing else, and 0 exactly when the searched text is not
-- empty and begins with the sought one.
pub find_sub_string_lem :
    (sub src : Chars)
    → NulFree sub
    → ((find_sub_string sub src ≡ pos 0) ⊎ (find_sub_string sub src ≡ negsuc 0))
      × ((find_sub_string sub src ≡ pos 0) ↔ ((src ≢ []) × IsPrefix sub src))
find_sub_string_lem sub src free =
    (find_values sub src, (find_sound sub src free, λ (ne, p). find_complete sub src free ne p))

-- An occurrence behind a first character that differs is not found.
pub find_sub_string-inner :
    (c d : ℕ) (sub pre post : Chars)
    → c ≢ d
    → find_sub_string (c ∷ sub) (d ∷ pre ++ (c ∷ sub ++ post)) ≡ negsuc 0
unfolding default_sub_string_compare
find_sub_string-inner c d sub pre post ne =
    find_miss (c ∷ sub) (d ∷ pre ++ (c ∷ sub ++ post)) (ground arith)
