-- ===== src/Numbers.antt =====
-- The number formats of tPreent.c: strLenSafe, integerConvert and strToInt. A C string is the list
-- of its characters before the NUL.
pub mod Decimal
pub mod Formats
use barrel_test.Base.{
  ltb, leb, ◌==◌, if◌then◌else◌, Bool-cases, ==_iff, ==_false, ==_refl, ltb→lt, lt→ltb, ltb-false,
  codes, length, get_elem?, get_or, set, replicate, All, length-append, length-set,
  length-replicate, get_or-set_self, get_or-set_ne, get_or-replicate, get_elem?-append_left,
  get_elem?-append_last, get_elem?-set_self, get_elem?-set_ne, get_elem?-set-some, ℕ, zero, suc,
  ◌+◌, ◌-◌, ◌*◌, ◌/◌, ◌%◌, ◌^◌, ◌≤◌, ◌<◌, ◌≡◌, refl, sym, ap, ◌∙◌, subst, ◌≢◌, ◌↔◌, ◌⊎◌, inl, inr,
  Bool, true, false, not, ◌&&◌, ◌||◌, Option, none, some, List, [], ◌∷◌, ◌++◌, map, append-nil,
  append_assoc, arith,
}
use barrel_test.Base.Int.{
  ℤ, pos, negsuc, pos_part, neg_part, sub_ℕ, ◌+ℤ◌, neg, ltb_ℤ, eqb_ℤ, ◌≤ℤ◌, u32_mod, u64_mod,
  wrap_word, to_int, sub32, sub64, add64, mul64,
}
use barrel_test.Helpers.{Chars}

-- MAX_CONSOLE_BUFFER and MAX_NUM_BUFFER.
abbrev pub max_console_buffer : ℕ
max_console_buffer = 64

abbrev pub max_num_buffer : ℕ
max_num_buffer = 50

-- The loop of strLenSafe behind `count - 1` characters.
unfoldable pub str_len_loop : Chars → ℕ → ℕ
str_len_loop [] count = count
str_len_loop (c ∷ str) count =
    if ltb max_console_buffer count then 0 else str_len_loop str (count + 1)

-- strLenSafe of a string that is not NULL: its length with the NUL, or 0 if it is too long.
unfoldable pub str_len_safe : Chars → ℕ
unfolding str_len_loop
str_len_safe str = str_len_loop str 1

-- `Representation[digit]`.
abbrev pub representation : Chars
representation = codes "0123456789ABCDEF"

abbrev pub digit_char : ℕ → ℕ
digit_char digit = get_or representation digit 0

-- The loop of integerConvert in front of the characters `text`, with `room` bytes left in the
-- buffer. `none` is a store in front of the buffer.
unfoldable pub convert_loop : ℕ → ℕ → ℕ → Chars → Option Chars
convert_loop zero num base text = none
convert_loop (suc room) num base text =
    let text' = digit_char (num % base) ∷ text in
    let rest = convert_loop room (num / base) base text' in
    if num / base == 0 then some text' else rest

-- integerConvert, for a base from 2 to 16.
unfoldable pub integer_convert : ℕ → ℕ → Option Chars
unfolding convert_loop
integer_convert num base = convert_loop (max_num_buffer - 1) num base []

abbrev pub is_digit : ℕ → Bool
is_digit c = leb b'0' c && leb c b'9'

-- `isNegative ? -1 : 1` times the output, an int.
abbrev pub signed : Bool → ℕ → ℤ
signed is_negative output = to_int (if is_negative then (u32_mod - output) % u32_mod else output)

-- The loop of strToInt: whether a number has begun, whether a '-' stood in front, and the output, a
-- word of 32 bits.
unfoldable pub str_to_int_loop : Chars → Bool → Bool → ℕ → ℤ
str_to_int_loop [] num_start is_negative output = signed is_negative output
str_to_int_loop (c ∷ input) num_start is_negative output =
    let is_negative' = if not num_start && c == b'-' then true else is_negative in
    let next = str_to_int_loop input true is_negative' ((output * 10 + (c - 48)) % u32_mod) in
    let skip = str_to_int_loop input false is_negative' output in
    if is_digit c then next else if num_start then signed is_negative' output else skip

unfoldable pub str_to_int : Chars → ℤ
unfolding str_to_int_loop
str_to_int input = str_to_int_loop input false false 0
