-- ===== src/Numbers/Formats.antt =====
-- numConvert of tPreent.c: a number of any of the formats as text, written from the end of a buffer
-- to its front. The arithmetic of doubles is a parameter.
pub mod Digits
pub mod Room
use barrel_test.Base.{
  ltb, leb, ◌==◌, if◌then◌else◌, Bool-cases, ==_iff, ==_false, ==_refl, ltb→lt, lt→ltb, ltb-false,
  codes, length, get_elem?, get_or, set, replicate, All, length-append, length-set,
  length-replicate, get_or-set_self, get_or-set_ne, get_or-replicate, get_elem?-append_left,
  get_elem?-append_last, get_elem?-set_self, get_elem?-set_ne, get_elem?-set-some, ℕ, zero, suc,
  ◌+◌, ◌-◌, ◌*◌, ◌/◌, ◌%◌, ◌^◌, ◌≤◌, ◌<◌, ◌≡◌, refl, sym, ap, ◌∙◌, subst, ◌≢◌, ◌↔◌, ◌⊎◌, inl, inr,
  Bool, true, false, not, ◌&&◌, ◌||◌, Option, none, some, List, [], ◌∷◌, ◌++◌, map, append-nil,
  append_assoc, arith,
}
use barrel_test.Base.Int.{
  ℤ, pos, negsuc, pos_part, neg_part, sub_ℕ, ◌+ℤ◌, neg, ltb_ℤ, eqb_ℤ, ◌≤ℤ◌, u32_mod, u64_mod,
  wrap_word, to_int, sub32, sub64, add64, mul64,
}
use barrel_test.Base.Run.{Run, done, spins, faults, starves, ◌>>=◌, of_option}
use barrel_test.Enums.{
  Format, fmt_c, fmt_s, fmt_big_l, fmt_big_i, fmt_x, fmt_l, fmt_big_o, fmt_b, fmt_h, fmt_i, fmt_o,
  fmt_f, fmt_d, format_code,
}
use barrel_test.Helpers.{Chars, Word, Parameter}
use barrel_test.Memory.{Mem}
use barrel_test.Memory.Words.{load32, load64}
use barrel_test.Numbers.{max_num_buffer, representation, convert_loop}

-- What numConvert does with doubles: the reading of their bits, and C's operations on them.
pub record Doubles (D : Type 0) : Type 0 where
  pub of_float : ℕ → D
  pub of_double : ℕ → D
  pub is_nonneg : D → Bool
  pub negate : D → D
  pub times_ten : D → D
  pub truncate : D → ℕ
  pub sub_whole : D → ℕ → D
  pub is_positive : D → Bool

-- `Representation` and `ValueExpression`.
abbrev pub value_expression : Chars
value_expression = codes "csLIxlObhiofd"

-- The bytes left in front of a text that stands at the end of the buffer.
abbrev pub room : Chars → ℕ
room text = max_num_buffer - 1 - length text

-- `ptr -= 1; *ptr = c`. A store in front of the buffer faults.
unfoldable pub put : ℕ → Chars → Run Chars
put c text = if room text == 0 then faults else done (c ∷ text)

-- The digits of `num` in front of a text.
unfoldable pub put_digits : ℕ → ℕ → Chars → Run Chars
put_digits num base text = of_option (convert_loop (room text) num base text)

-- What the switch finds: whether the number is positive, its whole part and its base.
pub record Whole : Type 0 where
  pub is_positive : Bool
  pub val : ℕ
  pub base : ℕ

-- The reading of a signed number: `check >= 0`, and `check` or `-check`, exact at the least int
-- too, where the negation of the code overflows.
abbrev pub of_signed : ℤ → Whole
of_signed i = record {
  is_positive = not (ltb_ℤ i (pos 0));
  val = pos_part i + neg_part i;
  base = 10;
}

abbrev pub of_unsigned : ℕ → ℕ → Whole
of_unsigned val base = record { is_positive = true; val = val; base = base }

-- A word of 64 bits as a `long long`.
abbrev pub to_long : ℕ → ℤ
to_long w = if ltb w (2 ^ 63) then pos w else negsuc (u64_mod - 1 - w)

-- The three ways in which the switch leaves the number.
pub data Reading (D : Type 0) : Type 0 where
  binary : ℕ → Reading D
  whole : Whole → Reading D
  floating : D → Reading D

-- `do { f *= 10; rem = f; } while (f - (double)rem > 0)`, on fuel: the loop ends if the doubles do.
unfoldable pub scale_loop : {D : Type 0} → Doubles D → ℕ → D → Run ℕ
scale_loop ops zero f = starves
scale_loop ops (suc fuel) f =
    let f' = ops.times_ten f in
    let rest = scale_loop ops fuel f' in
    if ops.is_positive (ops.sub_whole f' (ops.truncate f')) then rest else done (ops.truncate f')

-- The decimal section, at the end of the buffer.
unfoldable pub put_fraction : {D : Type 0} → Doubles D → ℕ → D → Run Chars
unfolding scale_loop put_digits put
put_fraction ops fuel f =
    if ops.is_positive f
    then (do rem ← scale_loop ops fuel f; text ← put_digits rem 10 []; put b'.' text)
    else done []

-- The whole section and the sign.
unfoldable pub put_whole : Whole → Chars → Run Chars
unfolding put_digits put
put_whole w text = do
  text' ← put_digits w.val w.base text
  if w.is_positive then done text' else put b'-' text'

module _ {D : Type 0} (ops : Doubles D) where
  -- The switch of numConvert.
  unfoldable pub reading : Mem → Format → Word → Reading D
  reading m f p = elim f [
    | fmt_b ↦ binary (load64 m p)
    | fmt_big_i ↦ whole (of_signed (to_int (load32 m p)))
    | fmt_big_l ↦ whole (of_signed (to_long (load64 m p)))
    | fmt_x ↦ whole (of_unsigned (load64 m p) 16)
    | fmt_l ↦ whole (of_unsigned (load64 m p) 10)
    | fmt_big_o ↦ whole (of_unsigned (load64 m p) 8)
    | fmt_h ↦ whole (of_unsigned (load32 m p) 16)
    | fmt_i ↦ whole (of_unsigned (load32 m p) 10)
    | fmt_o ↦ whole (of_unsigned (load32 m p) 8)
    | fmt_f ↦ floating (ops.of_float (load32 m p))
    | fmt_d ↦ floating (ops.of_double (load64 m p))
    | _ ↦ binary 0
  ]

  -- The sections of numConvert behind the switch.
  unfoldable pub put_reading : ℕ → Reading D → Run Chars
  unfolding put_fraction put_whole put_digits
  put_reading fuel (binary v) = put_digits v 2 []
  put_reading fuel (whole w) = put_whole w []
  put_reading fuel (floating d) =
      let nonneg = ops.is_nonneg d in
      let d' = if nonneg then d else ops.negate d in
      (do
        text ← put_fraction ops fuel (ops.sub_whole d' (ops.truncate d'))
        put_whole (record { is_positive = nonneg; val = ops.truncate d'; base = 10 }) text)

  -- numConvert: the digits behind a '0' and the letter of the format.
  unfoldable pub num_convert : ℕ → Mem → Format → Word → Run Chars
  unfolding reading put_reading put
  num_convert fuel m f p = do
    text ← put_reading fuel (reading m f p)
    text' ← put (get_or value_expression (format_code f) 0) text
    put b'0' text'
