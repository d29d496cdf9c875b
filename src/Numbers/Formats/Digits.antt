-- ===== src/Numbers/Formats/Digits.antt =====
-- A printed `int` is read back by strToInt, sign included.
use barrel_test.Numbers.Formats.{Whole, Doubles, put, put_digits, put_whole, num_convert, of_signed}
use barrel_test.Numbers.Formats.Room.{size_of, convert_loop-fits, put_digits-done, put_two}
use barrel_test.Base.{
  length, ℕ, suc, ◌+◌, ◌^◌, ◌≤◌, ◌<◌, ◌≡◌, refl, sym, ap, ◌∙◌, true, false, some, [], ◌∷◌, arith,
}
use barrel_test.Base.Int.{ℤ, pos, negsuc, pos_part, neg_part, to_int}
use barrel_test.Base.Run.{done}
use barrel_test.Enums.{fmt_big_i}
use barrel_test.Helpers.{Chars, Word}
use barrel_test.Memory.{Mem}
use barrel_test.Memory.Words.{load32}
use barrel_test.Numbers.{signed, str_to_int}
use barrel_test.Numbers.Decimal.{
  value, value_self, Digits, convert_loop_lem, signed-pos, str_to_int_loop_lem,
}

-- The decimal digits of a number below 10 ^ 10, at the end of the buffer.
decimal :
    (n : ℕ)
    → n < 10 ^ 10
    → (text : Chars) × (put_digits n 10 [] ≡ done text)
      × Digits text
      × (value text 0 ≡ n)
      × (length text ≤ 10)
decimal n small =
    let (text, e, ds, v) = convert_loop_lem 49 n [] (omega arith) (omega arith) tt in
    let (r, e', le) = convert_loop-fits 9 49 n 10 [] (omega arith) small (omega arith) in
    let same : some text ≡ some r = sym e ∙ e' in
    (
      text,
      put_digits-done n 10 49 [] text refl e,
      ds,
      v ∙ value_self n,
      omega (arith, le, ap size_of same),
    )

read_positive :
    (text : Chars) (n : ℕ) → Digits text → value text 0 ≡ n → n < 2 ^ 31 → str_to_int text ≡ pos n
unfolding str_to_int
read_positive text n ds e small =
    str_to_int_loop_lem text false false 0 ds (omega (arith, e)) ∙ rw e (signed-pos n small)

signed-negsuc : (n : ℕ) → n < 2 ^ 31 → signed true (suc n) ≡ negsuc n
signed-negsuc n small = ground arith

read_negative :
    (text : Chars) (n : ℕ)
    → Digits text
    → value text 0 ≡ suc n
    → n < 2 ^ 31
    → str_to_int (b'-' ∷ text) ≡ negsuc n
unfolding str_to_int
read_negative text n ds e small =
    str_to_int_loop_lem text false true 0 ds (omega (arith, e)) ∙ rw e (signed-negsuc n small)

put_whole-done :
    (w : Whole) (text : Chars)
    → w.is_positive ≡ true
    → put_digits w.val w.base [] ≡ done text
    → put_whole w [] ≡ done text
unfolding put_whole
put_whole-done w text sign e = rw (e, sign) refl

put_whole-negative :
    (w : Whole) (text : Chars)
    → w.is_positive ≡ false
    → put_digits w.val w.base [] ≡ done text
    → length text ≤ 10
    → put_whole w [] ≡ done (b'-' ∷ text)
unfolding put_whole put
put_whole-negative w text sign e le = rw (e, sign) (ground arith)

-- The text of an int.
put_int :
    (i : ℤ)
    → pos_part i < 2 ^ 31
    → neg_part i ≤ 2 ^ 31
    → (text : Chars) × (put_whole (of_signed i) [] ≡ done text)
      × (str_to_int text ≡ i)
      × (length text ≤ 11)
put_int (pos n) up down =
    let val : n + 0 ≡ n = omega arith in
    let (text, e, ds, v, le) = decimal n (omega arith) in
    (
      text,
      put_whole-done (of_signed (pos n)) text (ground arith) (rw val e),
      read_positive text n ds v up,
      omega (arith, le),
    )
put_int (negsuc n) up down =
    let val : 0 + suc n ≡ suc n = omega arith in
    let (text, e, ds, v, le) = decimal (suc n) (omega arith) in
    (
      b'-' ∷ text,
      put_whole-negative (of_signed (negsuc n)) text (ground arith) (rw val e) le,
      read_negative text n ds v (omega arith),
      omega (arith, le),
    )

-- With the format `I` numConvert prints '0', 'I' and a text that strToInt reads as the int printed,
-- whatever its sign.
pub str_to_int-num_convert :
    {D : Type 0} (ops : Doubles D) (fuel : ℕ) (m : Mem) (p : Word)
    → (text : Chars) × (num_convert ops fuel m fmt_big_i p ≡ done (b'0' ∷ b'I' ∷ text))
      × (str_to_int text ≡ to_int (load32 m p))
unfolding num_convert
str_to_int-num_convert ops fuel m p =
    let i = to_int (load32 m p) in
    let (text, e, read, le) = put_int i (ground arith) (ground arith) in
    (text, rw e (put_two text b'I' b'0' (omega (arith, le))), read)
