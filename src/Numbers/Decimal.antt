-- ===== src/Numbers/Decimal.antt =====
-- Decimal numbers: integerConvert and strToInt undo each other.
use barrel_test.Numbers.{
  signed, max_console_buffer, str_len_loop, str_len_safe, digit_char, convert_loop, integer_convert,
  is_digit, str_to_int_loop, str_to_int,
}
use Prim.Native.String.{count}
use native.Mathlib.Decide.{dec_lt}
use native.Mathlib.Nat.{pow-suc}
use barrel_test.Base.{
  leb, ◌==◌, if◌then◌else◌, ==_false, ltb-false, length, All, ℕ, zero, suc, ◌+◌, ◌-◌, ◌*◌, ◌/◌, ◌%◌,
  ◌^◌, ◌≤◌, ◌<◌, ◌≡◌, refl, ap, ◌∙◌, Bool, true, false, not, ◌&&◌, some, [], ◌∷◌, arith,
}
use barrel_test.Base.Int.{pos, u32_mod}
use barrel_test.Helpers.{Chars}

str_len_step :
    (c : ℕ) (str : Chars) (count : ℕ)
    → ¬ (max_console_buffer < count)
    → str_len_loop (c ∷ str) count ≡ str_len_loop str (count + 1)
unfolding str_len_loop
str_len_step c str count h = rw (ltb-false max_console_buffer count (omega arith)) refl

str_len_loop_lem :
    (str : Chars) (count : ℕ)
    → 0 < count
    → count ≤ max_console_buffer + 1
    → str_len_loop str count
      ≡ (if leb (count + length str) (max_console_buffer + 1) then count + length str else 0)
unfolding str_len_loop
str_len_loop_lem [] count positive le = ground arith
str_len_loop_lem (c ∷ str) count positive le = elim (dec_lt max_console_buffer count) [
  | yes h ↦ ground arith
  | no h ↦
      let shift : count + 1 + length str ≡ count + suc (length str) = omega arith in
      str_len_step c str count h
      ∙ str_len_loop_lem str (count + 1) (omega arith) (omega arith)
      ∙ ap (λ t. if leb t (max_console_buffer + 1) then t else 0) shift
]

-- strLenSafe answers the length of the text with its NUL, or 0 for a text longer than the buffer of
-- the console.
pub str_len_safe_lem :
    (str : Chars)
    → str_len_safe str ≡ (if leb (length str) max_console_buffer then length str + 1 else 0)
unfolding str_len_safe
str_len_safe_lem str = str_len_loop_lem str 1 (omega arith) (omega arith) ∙ ground arith

digit_char_lem : (d : ℕ) → d < 10 → digit_char d ≡ 48 + d
digit_char_lem zero lt = refl
digit_char_lem (suc zero) lt = refl
digit_char_lem (suc (suc zero)) lt = refl
digit_char_lem (suc (suc (suc zero))) lt = refl
digit_char_lem (suc (suc (suc (suc zero)))) lt = refl
digit_char_lem (suc (suc (suc (suc (suc zero))))) lt = refl
digit_char_lem (suc (suc (suc (suc (suc (suc zero)))))) lt = refl
digit_char_lem (suc (suc (suc (suc (suc (suc (suc zero))))))) lt = refl
digit_char_lem (suc (suc (suc (suc (suc (suc (suc (suc zero)))))))) lt = refl
digit_char_lem (suc (suc (suc (suc (suc (suc (suc (suc (suc zero))))))))) lt = refl
digit_char_lem (suc (suc (suc (suc (suc (suc (suc (suc (suc (suc d)))))))))) lt =
    absurd (omega arith)

-- The number that decimal digits denote behind the number `v`.
unfoldable pub value : Chars → ℕ → ℕ
value [] v = v
value (c ∷ text) v = value text (v * 10 + (c - 48))

abbrev pub Digits : Chars → Type 0
Digits = All (λ c. is_digit c ≡ true)

room_left : (room n : ℕ) → n < 10 ^ room → 0 < n → 0 < room
room_left zero n below positive = absurd (omega arith)
room_left (suc room) n below positive = omega arith

pub convert_loop_lem :
    (room num : ℕ) (text : Chars)
    → num < 10 ^ room
    → 0 < room
    → Digits text
    → (r : Chars) × (convert_loop room num 10 text ≡ some r)
      × Digits r
      × (value r 0 ≡ value text num)
unfolding convert_loop value
convert_loop_lem zero num text small positive ds = absurd (omega arith)
convert_loop_lem (suc room) num text small positive ds =
    let d = digit_char (num % 10) in
    let is : d ≡ 48 + num % 10 = digit_char_lem (num % 10) (omega arith) in
    let digit : is_digit d ≡ true = rw is (ground arith) in
    let same : num / 10 * 10 + (d - 48) ≡ num = omega (arith, is) in
    elim (dec_lt 0 (num / 10)) [
      | yes h ↦
          let power : 10 ^ suc room ≡ 10 ^ room * 10 = pow-suc 10 room in
          let below : num / 10 < 10 ^ room = omega (arith, power, small) in
          let (r, e, rs, v) =
            convert_loop_lem room (num / 10) (d ∷ text) below (room_left room (num / 10) below h)
              (digit, ds) in
          (r, rw (==_false (num / 10) 0 (omega (arith, h))) e, rs, v ∙ ap (value text) same)
      | no h ↦
          let none_left : num / 10 ≡ 0 = omega arith in
          (
            d ∷ text,
            rw none_left refl,
            (digit, ds),
            ap (value text) (omega (arith, none_left, same)),
          )
    ]

le-value : (text : Chars) (v : ℕ) → v ≤ value text v
unfolding value
le-value [] v = omega arith
le-value (c ∷ text) v = omega (arith, le-value text (v * 10 + (c - 48)))

no_sign :
    (start is_negative : Bool) → (if not start && false then true else is_negative) ≡ is_negative
no_sign true is_negative = refl
no_sign false is_negative = refl

pub str_to_int_loop_lem :
    (text : Chars) (start is_negative : Bool) (v : ℕ)
    → Digits text
    → value text v < u32_mod
    → str_to_int_loop text start is_negative v ≡ signed is_negative (value text v)
unfolding str_to_int_loop value
str_to_int_loop_lem [] start is_negative v ds small = refl
str_to_int_loop_lem (c ∷ text) start is_negative v (d, ds) small =
    let v' = v * 10 + (c - 48) in
    let kept : v' % u32_mod ≡ v' = omega (arith, le-value text v', small) in
    let digit : (c == b'-') ≡ false = ground arith in
    rw (d, digit, kept, no_sign start is_negative)
      (str_to_int_loop_lem text true is_negative v' ds small)

pub value_self : (n : ℕ) → value [] n ≡ n
unfolding value
value_self n = refl

pub signed-pos : (n : ℕ) → n < 2 ^ 31 → signed false n ≡ pos n
signed-pos n small = ground arith

-- Of a number below 2 ^ 31 integerConvert makes, within its buffer, a text in base 10 that strToInt
-- reads back as the number.
pub str_to_int-integer_convert :
    (n : ℕ)
    → n < 2 ^ 31
    → (text : Chars) × (integer_convert n 10 ≡ some text) × (str_to_int text ≡ pos n)
unfolding integer_convert str_to_int
str_to_int-integer_convert n small =
    let (text, e, ds, v) = convert_loop_lem 49 n [] (omega arith) (omega arith) tt in
    let same : value text 0 ≡ n = v ∙ value_self n in
    let read = str_to_int_loop_lem text false false 0 ds (omega (arith, same, small)) in
    (text, e, read ∙ rw same (signed-pos n small))

-- Every 32-bit number fits in the buffer in base 10, and all characters are digits.
pub integer_convert_lem :
    (n : ℕ)
    → n < u32_mod
    → (text : Chars) × (integer_convert n 10 ≡ some text) × Digits text × (value text 0 ≡ n)
unfolding integer_convert value
integer_convert_lem n small = convert_loop_lem 49 n [] (omega arith) (omega arith) tt
