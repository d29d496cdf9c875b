-- ===== src/Numbers/Formats/Room.antt =====
-- How many digits a number takes, and whether the buffer of numConvert has room for them.
use native.Mathlib.Nat.{pow-suc, pow-zero, div-lt_iff_lt-mul, le-div_iff_mul-le}
use native.Mathlib.Decide.{dec_lt}
use barrel_test.Base.{
  ==_false, length, ℕ, zero, suc, ◌+◌, ◌*◌, ◌/◌, ◌%◌, ◌^◌, ◌≤◌, ◌<◌, ◌≡◌, refl, sym, ap, ◌∙◌, subst,
  ◌≢◌, ◌⊎◌, inl, inr, Option, none, some, [], ◌∷◌, arith,
}
use barrel_test.Base.Run.{Run, done, faults, ◌>>=◌, of_option}
use barrel_test.Enums.{fmt_b}
use barrel_test.Helpers.{Chars, Word}
use barrel_test.Memory.{Mem}
use barrel_test.Memory.Words.{load64}
use barrel_test.Numbers.{digit_char, convert_loop}
use barrel_test.Numbers.Formats.{Doubles, room, put, put_digits, num_convert}

abbrev pub size_of : Option Chars → ℕ
size_of none = 0
size_of (some text) = length text

convert_loop-stop :
    (rounds num base : ℕ) (text : Chars)
    → num / base ≡ 0
    → convert_loop (suc rounds) num base text ≡ some (digit_char (num % base) ∷ text)
unfolding convert_loop
convert_loop-stop rounds num base text e = rw e refl

convert_loop-more :
    (rounds num base : ℕ) (text : Chars)
    → num / base ≢ 0
    → convert_loop (suc rounds) num base text
      ≡ convert_loop rounds (num / base) base (digit_char (num % base) ∷ text)
unfolding convert_loop
convert_loop-more rounds num base text ne = rw (==_false (num / base) 0 ne) refl

quotient-below : (k num base : ℕ) → 0 < base → num < base ^ suc k → num / base < base ^ k
quotient-below k num base positive lt =
    (div-lt_iff_lt-mul positive).1 (subst (λ t. num < t) (pow-suc base k) lt)

quotient-above : (k num base : ℕ) → 0 < base → base ^ suc k ≤ num → base ^ k ≤ num / base
quotient-above k num base positive le =
    (le-div_iff_mul-le positive).1 (subst (λ t. t ≤ num) (pow-suc base k) le)

-- A number of at most `k` digits fits in `k` bytes.
pub convert_loop-fits :
    (k rounds num base : ℕ) (text : Chars)
    → 0 < base
    → num < base ^ suc k
    → k < rounds
    → (r : Chars) × (convert_loop rounds num base text ≡ some r) × (length r ≤ length text + suc k)
convert_loop-fits k zero num base text positive small lt = absurd (omega arith)
convert_loop-fits zero (suc rounds) num base text positive small lt =
    let e : num / base ≡ 0 =
      omega (arith, quotient-below 0 num base positive small, pow-zero base) in
    (digit_char (num % base) ∷ text, convert_loop-stop rounds num base text e, omega arith)
convert_loop-fits (suc k) (suc rounds) num base text positive small lt =
    elim (dec_lt 0 (num / base)) [
      | yes h ↦
          let (r, e, le) =
            convert_loop-fits k rounds (num / base) base (digit_char (num % base) ∷ text) positive
              (quotient-below (suc k) num base positive small) (omega arith) in
          (r, convert_loop-more rounds num base text (omega (arith, h)) ∙ e, omega (arith, le))
      | no h ↦ (
        digit_char (num % base) ∷ text,
        convert_loop-stop rounds num base text (omega arith),
        omega arith,
      )
    ]

power_positive : (base k : ℕ) → 0 < base → 0 < base ^ k
power_positive base zero positive = omega (arith, pow-zero base)
power_positive base (suc k) positive =
    let step : base ^ suc k ≡ base ^ k * base = pow-suc base k in
    let ih : 0 < base ^ k = power_positive base k positive in rw step (grind arith)

-- A number of more than `k` digits takes more than `k` bytes.
pub convert_loop-long :
    (k rounds num base : ℕ) (text r : Chars)
    → 0 < base
    → base ^ k ≤ num
    → convert_loop rounds num base text ≡ some r
    → length text + k < length r
unfolding convert_loop
convert_loop-long k zero num base text r positive big e = absurd (cc)
convert_loop-long zero (suc rounds) num base text r positive big e = elim (dec_lt 0 (num / base)) [
  | yes h ↦ omega (
    arith,
    convert_loop-long zero rounds (num / base) base (digit_char (num % base) ∷ text) r positive
        (omega (arith, h, pow-zero base))
        (sym (convert_loop-more rounds num base text (omega (arith, h))) ∙ e),
  )
  | no h ↦
      let none_left : num / base ≡ 0 = omega arith in
      let same : some (digit_char (num % base) ∷ text) ≡ some r =
        sym (convert_loop-stop rounds num base text none_left) ∙ e in
      omega (arith, ap size_of same)
]
convert_loop-long (suc k) (suc rounds) num base text r positive big e =
    let q = quotient-above k num base positive big in
    let ne : num / base ≢ 0 = omega (arith, q, power_positive base k positive) in
    omega (
      arith,
      convert_loop-long k rounds (num / base) base (digit_char (num % base) ∷ text) r positive q
          (sym (convert_loop-more rounds num base text ne) ∙ e),
    )

-- What numConvert does with its digits: at most 47 of them leave room for the letter and the '0'.
pub put_two :
    (text : Chars) (c d : ℕ) → length text ≤ 47 → (put c text >>= put d) ≡ done (d ∷ c ∷ text)
unfolding put
put_two text c d le = ground arith

put_two_full : (text : Chars) (c d : ℕ) → 47 < length text → (put c text >>= put d) ≡ faults
unfolding put
put_two_full text c d lt = ground arith

pub put_digits-done :
    (num base rounds : ℕ) (text r : Chars)
    → room text ≡ rounds
    → convert_loop rounds num base text ≡ some r
    → put_digits num base text ≡ done r
unfolding put_digits
put_digits-done num base rounds text r e h = rw (e, h) refl

-- The number of digits decides whether the text fits.
letters : (o : Option Chars) → Run Chars
letters o = of_option o >>= λ text. put b'b' text >>= put b'0'

num_convert-letters :
    {D : Type 0} (ops : Doubles D) (fuel : ℕ) (m : Mem) (p : Word) (rounds : ℕ)
    → rounds ≡ 49
    → num_convert ops fuel m fmt_b p ≡ letters (convert_loop rounds (load64 m p) 2 [])
unfolding num_convert letters put_digits
num_convert-letters ops fuel m p rounds e = rw e refl

letters_fit :
    (o : Option Chars) (r : Chars) → o ≡ some r → length r ≤ 47 → letters o ≡ done (b'0' ∷ b'b' ∷ r)
unfolding letters
letters_fit o r e le = rw e (put_two r b'b' b'0' le)

letters_full : (o : Option Chars) → ((r : Chars) → o ≡ some r → 47 < length r) → letters o ≡ faults
unfolding letters
letters_full none full = refl
letters_full (some r) full = put_two_full r b'b' b'0' (full r refl)

-- With the format `b` a number below 2 ^ 47 is printed, and any other makes numConvert store in
-- front of its buffer.
pub num_convert_binary :
    {D : Type 0} (ops : Doubles D) (fuel : ℕ) (m : Mem) (p : Word)
    → ((load64 m p < 2 ^ 47)
        × ((text : Chars) × (num_convert ops fuel m fmt_b p ≡ done (b'0' ∷ b'b' ∷ text))))
      ⊎ ((2 ^ 47 ≤ load64 m p) × (num_convert ops fuel m fmt_b p ≡ faults))
num_convert_binary ops fuel m p =
    let v = load64 m p in
    let opened = num_convert-letters ops fuel m p 49 refl in
    elim (dec_lt v (2 ^ 47)) [
      | yes h ↦
          let (r, e, le) = convert_loop-fits 46 49 v 2 [] (omega arith) h (omega arith) in
          inl (h, (r, opened ∙ letters_fit (convert_loop 49 v 2 []) r e (omega (arith, le))))
      | no h ↦
          let big : 2 ^ 47 ≤ v = omega arith in
          inr (
            big,
            opened
                ∙ letters_full (convert_loop 49 v 2 [])
                    (λ r e. omega (arith, convert_loop-long 47 49 v 2 [] r (omega arith) big e)),
          )
    ]
