-- ===== src/Helpers/Params.antt =====
-- The counting of parameters (paramCount, paramCount0) and integer powers (pow).
use native.Mathlib.Nat.{mod-eq_of_lt, pow-zero, pow-suc}
use native.Mathlib.Numerals.{towards_suc}
use barrel_test.Base.{
  ◌==◌, if◌then◌else◌, ==_false, ==_refl, length, ℕ, zero, suc, ◌+◌, ◌*◌, ◌%◌, ◌^◌, ◌<◌, ◌≡◌, refl,
  sym, ap, ◌∙◌, ◌≢◌, Bool, true, false, some, [], ◌∷◌, ◌++◌, append-nil, append_assoc, arith,
}
use barrel_test.Base.Arith.{mod-mul-mod}
use barrel_test.Base.Int.{pos, ◌+ℤ◌, eqb_ℤ, u32_mod}
use barrel_test.Helpers.{
  Chars, head_char, pow_loop, pow, param_count_loop, param_count, opens, closes, param_count0_loop,
  param_count0,
}

param_count_loop_lem :
    (xs : Chars) (a b count : ℕ) (raw check : Chars)
    → a ≢ b
    → count + length xs < u32_mod
    → param_count_loop (xs ++ (a ∷ raw)) (xs ++ (b ∷ check)) count ≡ some (count + length xs)
unfolding param_count_loop
param_count_loop_lem [] a b count raw check ne lt = ground arith
param_count_loop_lem (x ∷ xs) a b count raw check ne lt =
    rw (==_refl x, mod-eq_of_lt {n = count + 1} {m = u32_mod} (omega arith))
      (param_count_loop_lem xs a b (count + 1) raw check ne (omega arith) ∙ ap some (omega arith))

-- The PARAM_COUNT macro passes the arguments twice, once with a 0 behind them and once with a 1:
-- paramCount answers how many arguments there are, whatever they are.
pub param_count_lem :
    (xs : Chars)
    → length xs < u32_mod
    → param_count (xs ++ (0 ∷ [])) (xs ++ (1 ∷ [])) ≡ some (length xs)
unfolding param_count
param_count_lem xs lt =
    param_count_loop_lem xs 0 1 0 [] [] (omega arith) (omega arith) ∙ ap some (omega arith)

-- A text whose brackets are balanced. The code does not tell the four kinds of bracket apart.
pub data Balanced : Chars → Type 0 where
  done : Balanced []
  plain : {s : Chars} (c : ℕ) → opens c ≡ false → closes c ≡ false → Balanced s → Balanced (c ∷ s)
  nest :
      {s t : Chars} (o c : ℕ)
      → opens o ≡ true
      → opens c ≡ false
      → closes c ≡ true
      → Balanced s
      → Balanced t
      → Balanced (o ∷ s ++ (c ∷ t))

-- The commas of a balanced text that stand in no bracket.
unfoldable pub top_commas : {s : Chars} → Balanced s → ℕ
top_commas done = 0
top_commas (plain c e f b) = if c == b',' then suc (top_commas b) else top_commas b
top_commas (nest o c is_open e is_close b b') = top_commas b'

-- What a balanced text at bracket depth `k` adds to the count.
abbrev counted : ℕ → ℕ → ℕ
counted zero n = n
counted (suc k) n = 0

counted-suc : (k n : ℕ) → counted (k + 1) n ≡ 0
counted-suc k n = simp towards_suc

-- An opening bracket, whose depth is then not 0, and its closing one.
module _ (c : ℕ) (rest : Chars) (count : ℕ) where
  loop-open :
      (k : ℕ)
      → opens c ≡ true
      → param_count0_loop (c ∷ rest) (pos k) count ≡ param_count0_loop rest (pos (k + 1)) count
  unfolding param_count0_loop ◌+ℤ◌
  loop-open k e = rw e (ap (λ z. param_count0_loop rest z count) (ground arith))

  loop-close :
      (k : ℕ)
      → opens c ≡ false
      → closes c ≡ true
      → param_count0_loop (c ∷ rest) (pos (k + 1)) count ≡ param_count0_loop rest (pos k) count
  unfolding param_count0_loop ◌+ℤ◌
  loop-close k e f = rw (e, f) (ap (λ z. param_count0_loop rest z count) (ground arith))

  loop-plain :
      (k : ℕ)
      → opens c ≡ false
      → closes c ≡ false
      → param_count0_loop (c ∷ rest) (pos k) count
        ≡ param_count0_loop rest (pos k) (count + (if c == b',' then counted k 1 else 0))
  unfolding param_count0_loop
  loop-plain k e f = rw (e, f) (ap (param_count0_loop rest (pos k)) (added k))
    where
      added :
          (k : ℕ)
          → (if c == b',' then (if eqb_ℤ (pos k) (pos 0) then count + 1 else count) else count)
            ≡ count + (if c == b',' then counted k 1 else 0)
      added zero = ground arith
      added (suc k) = ground arith

counted-add : (k n : ℕ) → counted k 1 + counted k n ≡ counted k (suc n)
counted-add zero n = omega arith
counted-add (suc k) n = omega arith

param_count0_loop-Balanced :
    (k count : ℕ) {s : Chars} (rest : Chars) (b : Balanced s)
    → param_count0_loop (s ++ rest) (pos k) count
      ≡ param_count0_loop rest (pos k) (count + counted k (top_commas b))
unfolding top_commas
param_count0_loop-Balanced k count rest done = ap (param_count0_loop rest (pos k)) (counted-zero k)
  where
    counted-zero : (k : ℕ) → count ≡ count + counted k 0
    counted-zero zero = omega arith
    counted-zero (suc k) = omega arith
param_count0_loop-Balanced k count rest (plain {s} c e f b) =
    loop-plain c (s ++ rest) count k e f
    ∙ param_count0_loop-Balanced k (count + (if c == b',' then counted k 1 else 0)) rest b
    ∙ ap (param_count0_loop rest (pos k)) (comma (c == b','))
  where
    comma :
        (t : Bool)
        → count + (if t then counted k 1 else 0) + counted k (top_commas b)
          ≡ count + counted k (if t then suc (top_commas b) else top_commas b)
    comma true = omega (arith, counted-add k (top_commas b))
    comma false = omega arith
param_count0_loop-Balanced k count rest (nest {s} {t} o c is_open e is_close b b') =
    ap (λ z. param_count0_loop (o ∷ z) (pos k) count) (append_assoc s (c ∷ t) rest)
    ∙ loop-open o (s ++ (c ∷ t ++ rest)) count k is_open
    ∙ param_count0_loop-Balanced (k + 1) count (c ∷ t ++ rest) b
    ∙ ap (param_count0_loop (c ∷ t ++ rest) (pos (k + 1)))
        (omega (arith, counted-suc k (top_commas b)))
    ∙ loop-close c (t ++ rest) count k e is_close
    ∙ param_count0_loop-Balanced k count rest b'

-- Of a text that is not empty and whose brackets are balanced, paramCount0 answers one more than
-- the number of commas that stand in no bracket.
pub param_count0_lem :
    {s : Chars} (b : Balanced s) → head_char s ≢ 0 → param_count0 s ≡ 1 + top_commas b
unfolding param_count0 param_count0_loop
param_count0_lem {s} b ne = rw (==_false (head_char s) 0 ne) (
    ap (λ z. param_count0_loop z (pos 0) 1) (sym (append-nil s))
    ∙ param_count0_loop-Balanced 0 1 [] b
    ∙ end (1 + top_commas b))
  where
    end : (n : ℕ) → param_count0_loop [] (pos 0) n ≡ n
    end n = refl

pow_loop_lem : (base n out : ℕ) → pow_loop base n (out % u32_mod) ≡ (out * base ^ n) % u32_mod
unfolding pow_loop
pow_loop_lem base zero out =
    ap (λ t. t % u32_mod) (omega (arith, ap (λ (t : ℕ). out * t) (pow-zero base)))
pow_loop_lem base (suc n) out =
    ap (pow_loop base n) (mod-mul-mod out base u32_mod)
    ∙ pow_loop_lem base n (out * base)
    ∙ ap (λ t. t % u32_mod) (omega (arith, ap (λ (t : ℕ). out * t) (pow-suc base n)))

-- pow is the power modulo 2 ^ 32.
pub pow_lem : (base n : ℕ) → pow base n ≡ base ^ n % u32_mod
unfolding pow
pow_lem base n = pow_loop_lem base n 1 ∙ ap (λ t. t % u32_mod) (omega arith)
