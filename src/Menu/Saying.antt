-- ===== src/Menu/Saying.antt =====
-- What Preent leaves in its buffer, against what a message leaves in the menu's.
use native.Mathlib.Nat.{add_assoc, add-zero}
use barrel_test.Base.{
  ◌==◌, Bool-cases, ==_false, length, drop, set, ℕ, zero, suc, ◌+◌, ◌<◌, ◌≡◌, refl, sym, ap, ◌∙◌,
  subst, inl, inr, List, [], ◌∷◌, arith,
}
use barrel_test.Base.Run.{done, After, After->>=, After-each}
use barrel_test.Helpers.{Chars, Word, Parameter}
use barrel_test.Memory.{Mem}
use barrel_test.Numbers.Formats.{Doubles}
use barrel_test.Printing.{Console, overlay, text_of, print_param, poot_str, preent_loop, preent}
use barrel_test.Printing.Pieces.{StandsAt}
use barrel_test.Menu.{Menu, say, marked}

-- The characters stored one by one from index `i` on.
abbrev store_at : ℕ → Chars → List ℕ → List ℕ
store_at i [] buffer = buffer
store_at i (c ∷ text) buffer = store_at (i + 1) text (set buffer i c)

set-set : (xs : List ℕ) (i u v : ℕ) → set (set xs i u) i v ≡ set xs i v
set-set [] i u v = refl
set-set (x ∷ xs) zero u v = refl
set-set (x ∷ xs) (suc i) u v = ap (λ t. x ∷ t) (set-set xs i u v)

store_at-suc :
    (text : Chars) (i x : ℕ) (xs : List ℕ) → store_at (suc i) text (x ∷ xs) ≡ x ∷ store_at i text xs
store_at-suc [] i x xs = refl
store_at-suc (c ∷ text) i x xs =
    let e : suc i + 1 ≡ suc (i + 1) = omega arith in
    ap (λ t. store_at t text (x ∷ set xs i c)) e ∙ store_at-suc text (i + 1) x (set xs i c)

store_at-nil : (text : Chars) (i : ℕ) → store_at i text [] ≡ []
store_at-nil [] i = refl
store_at-nil (c ∷ text) i = store_at-nil text (i + 1)

store_at-overlay : (text : Chars) (xs : List ℕ) → store_at 0 text xs ≡ overlay text xs
store_at-overlay [] xs = refl
store_at-overlay (c ∷ text) [] = store_at-nil text 1
store_at-overlay (c ∷ text) (x ∷ xs) =
    store_at-suc text 0 c xs ∙ ap (λ t. c ∷ t) (store_at-overlay text xs)

module _ {D : Type 0} (ops : Doubles D) (fuel : ℕ) (m : Mem) where
  preent_loop-marked :
      (text : Chars) (n i string working : ℕ) (head : List Parameter) (buffer : List ℕ)
      (out : Chars)
      → StandsAt m (string + i) text
      → length text < n
      → After
          (λ r. r.0 ≡ store_at i (marked text) buffer)
          (preent_loop ops fuel m n i string working head buffer out)
  unfolding preent_loop
  preent_loop-marked text zero i string working head buffer out at lt = absurd (omega arith)
  preent_loop-marked [] (suc n) i string working head buffer out at lt = rw at refl
  preent_loop-marked (c ∷ text) (suc n) i string working head buffer out (at, ne, ats) lt =
      let there : StandsAt m (string + (i + 1)) text =
        subst (λ p. StandsAt m p text) (add_assoc string i 1) ats in
      elim (Bool-cases (c == b'%')) [
        | inl percent ↦
            let cut = set (set buffer i c) i 0 in
            let same : cut ≡ set buffer i 0 = set-set buffer i c 0 in
            rw (at, ==_false c 0 ne, percent)
              (After-each (λ r. r.0 ≡ store_at (i + 1) (marked text) (set buffer i 0))
                (print_param ops fuel m head (poot_str (text_of (drop working cut)) out))
                (λ r. preent_loop ops fuel m n (i + 1) string (i + 1) r.0 cut r.1)
                (λ r.
                  subst
                    (λ b.
                      After (λ r'. r'.0 ≡ store_at (i + 1) (marked text) b)
                        (preent_loop ops fuel m n (i + 1) string (i + 1) r.0 cut r.1))
                    same
                    (preent_loop-marked text n (i + 1) string (i + 1) r.0 cut r.1 there
                      (omega arith))))
        | inr plain ↦
            rw (at, ==_false c 0 ne, plain)
              (preent_loop-marked text n (i + 1) string working head (set buffer i c) out there
                (omega arith))
      ]

  -- Where Preent of a text of less than 64 characters returns, its buffer holds what `say` leaves in
  -- it.
  pub preent-say :
      (string : Word) (text : Chars) (head : List Parameter) (c : Console) (menu : Menu)
      → StandsAt m string text
      → length text < 64
      → c.buffer ≡ menu.buffer
      → After (λ c'. c'.buffer ≡ (say text menu).buffer) (preent ops fuel m string head c)
  unfolding preent say
  preent-say string text head c menu at lt same =
      After->>= (λ r. r.0 ≡ store_at 0 (marked text) c.buffer)
        (λ c'. c'.buffer ≡ overlay (marked text) menu.buffer)
        (preent_loop ops fuel m 64 0 string 0 head c.buffer c.written)
        (λ r. done (record c { buffer = r.0; written = r.1 }))
        (preent_loop-marked text 64 0 string 0 head c.buffer c.written
          (subst (λ p. StandsAt m p text) (sym (add-zero string)) at) lt)
        (λ r is. is ∙ store_at-overlay (marked text) c.buffer ∙ ap (overlay (marked text)) same)
