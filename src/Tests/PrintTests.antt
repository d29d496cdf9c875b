-- ===== src/Tests/PrintTests.antt =====
-- Numbers and texts that Preent writes.
use barrel_test.Base.{
  ◌==◌, if◌then◌else◌, codes, replicate, ◌*◌, ◌^◌, ◌≤◌, ◌<◌, ◌≡◌, refl, ◌⊎◌, not, [], ◌∷◌, ◌++◌,
  arith,
}
use barrel_test.Base.Int.{ℤ, pos, pos_part, neg_part, sub_ℕ, ◌+ℤ◌, neg, ltb_ℤ, to_int}
use barrel_test.Base.Run.{done, faults, ◌>>=◌}
use barrel_test.Enums.{fmt_b, fmt_big_i}
use barrel_test.Helpers.{Chars, Parameter}
use barrel_test.Memory.{Mem}
use barrel_test.Memory.Words.{load32, load64}
use barrel_test.Numbers.{str_to_int}
use barrel_test.Numbers.Formats.{Doubles, num_convert}
use barrel_test.Numbers.Formats.Room.{num_convert_binary}
use barrel_test.Numbers.Formats.Digits.{str_to_int-num_convert}
use barrel_test.Printing.{Console, preent}
use barrel_test.Printing.Pieces.{StandsAt, printed, preent-printed}

-- Doubles that are whole numbers.
abbrev whole_doubles : Doubles ℤ
whole_doubles = record {
  of_float = λ w. to_int w;
  of_double = λ w. to_int w;
  is_nonneg = λ d. not (ltb_ℤ d (pos 0));
  negate = λ d. neg d;
  times_ten = λ d. sub_ℕ (pos_part d * 10) (neg_part d * 10);
  truncate = λ d. pos_part d;
  sub_whole = λ d n. d +ℤ neg (pos n);
  is_positive = λ d. ltb_ℤ (pos 0) d;
}

-- The text "n=%;" at 100, and the number 7 at 200.
abbrev format_mem : Mem
format_mem b =
    if b == 100
    then b'n'
    else if b == 101
    then b'='
    else if b == 102
    then b'%'
    else if b == 103
    then b';'
    else if b == 200
    then 7
    else 0

abbrev seven : Parameter
seven = record { type = pos 9; ptr = 200 }

abbrev console : Console
console = record { buffer = replicate 64 0; lines = []; written = [] }

stands : StandsAt format_mem 100 (codes "n=%;")
stands = (refl, omega arith, (refl, omega arith, (refl, omega arith, (refl, omega arith, refl))))

preent-printed_example :
    (preent whole_doubles 5 format_mem 100 (seven ∷ []) console >>= λ c'. done c'.written)
    ≡ printed whole_doubles 5 format_mem (codes "n=%;") [] (seven ∷ []) []
preent-printed_example =
    preent-printed whole_doubles 5 format_mem 100 (codes "n=%;") (seven ∷ []) console stands
      (omega arith) refl

preent_test :
    (preent whole_doubles 5 format_mem 100 (seven ∷ []) console >>= λ c'. done c'.written)
    ≡ done (codes "n=\0" ++ codes "0i7\0" ++ codes ";\0")
unfolding preent load32 barrel_test.Printing.preent_loop barrel_test.Numbers.convert_loop
    barrel_test.Numbers.str_len_safe
preent_test = refl

num_convert_binary_example :
    ((load64 format_mem 200 < 2 ^ 47)
      × ((text : Chars) × (num_convert whole_doubles 5 format_mem fmt_b 200
            ≡ done (b'0' ∷ b'b' ∷ text))))
    ⊎ ((2 ^ 47 ≤ load64 format_mem 200)
        × (num_convert whole_doubles 5 format_mem fmt_b 200 ≡ faults))
num_convert_binary_example = num_convert_binary whole_doubles 5 format_mem 200

str_to_int-num_convert_example :
    (text : Chars) × (num_convert whole_doubles 5 format_mem fmt_big_i 200
      ≡ done (b'0' ∷ b'I' ∷ text))
    × (str_to_int text ≡ to_int (load32 format_mem 200))
str_to_int-num_convert_example = str_to_int-num_convert whole_doubles 5 format_mem 200
