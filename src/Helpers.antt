-- ===== src/Helpers.antt =====
-- The helpers of tHelpers.c that compute with values: text comparison and search, the counting of
-- parameters, requests, and integer powers. (Its copying routines are in Memory.)
pub mod Text
pub mod Params
pub mod Requests
use barrel_test.Base.{
  ltb, leb, ◌==◌, if◌then◌else◌, Bool-cases, ==_iff, ==_false, ==_refl, ltb→lt, lt→ltb, ltb-false,
  length, get_elem?, get_or, set, replicate, All, length-append, length-set, length-replicate,
  get_or-set_self, get_or-set_ne, get_or-replicate, get_elem?-append_left, get_elem?-append_last, ℕ,
  zero, suc, ◌+◌, ◌-◌, ◌*◌, ◌/◌, ◌%◌, ◌^◌, ◌≤◌, ◌<◌, ◌≡◌, refl, sym, ap, ◌∙◌, subst, ◌≢◌, ◌↔◌, ◌⊎◌,
  inl, inr, Bool, true, false, not, ◌&&◌, ◌||◌, Option, none, some, List, [], ◌∷◌, ◌++◌, map,
  append-nil, append_assoc, arith,
}
use barrel_test.Base.Int.{
  ℤ, pos, negsuc, pos_part, neg_part, sub_ℕ, ◌+ℤ◌, neg, ltb_ℤ, eqb_ℤ, ◌≤ℤ◌, u32_mod, u64_mod,
  wrap_word, to_int, sub32, sub64, add64, mul64,
}
use mathlib.Core.Option
use barrel_test.Enums.{max_param_count, RequestType, ParamType, param_type_code}

-- The characters of a C string before its NUL.
abbrev pub Chars : Type 0
Chars = List ℕ

-- A C string's characters are not NUL.
abbrev pub NulFree : Chars → Type 0
NulFree = All (λ c. c ≢ 0)

-- What stands at `str[0]`: behind the last character, the NUL.
abbrev pub head_char : Chars → ℕ
head_char [] = 0
head_char (c ∷ s) = c

-- `seek++`.
abbrev pub advance : Chars → Chars
advance [] = []
advance (c ∷ s) = s

-- `while (sub[seek] != 0) { if (sub[seek] != str[seek]) return false; seek++; } return true;`
unfoldable pub default_sub_string_compare : Chars → Chars → Bool
default_sub_string_compare [] str = true
default_sub_string_compare (c ∷ sub) str =
    if c == head_char str then default_sub_string_compare sub (advance str) else false

-- The same loop, which ends by `return str[seek] == 0`.
unfoldable pub default_string_compare : Chars → Chars → Bool
default_string_compare [] str = head_char str == 0
default_string_compare (c ∷ sub) str =
    if c == head_char str then default_string_compare sub (advance str) else false

-- The loop of findSubString over what is left of `src` from `seek` on. Each round compares with
-- the start of `src`, as the code does.
unfoldable pub find_sub_string_loop : Chars → Chars → Chars → ℕ → ℤ
find_sub_string_loop sub src [] seek = negsuc 0
find_sub_string_loop sub src (c ∷ rest) seek =
    if default_sub_string_compare sub src
    then pos seek
    else find_sub_string_loop sub src rest (seek + 1)

unfoldable pub find_sub_string : Chars → Chars → ℤ
unfolding find_sub_string_loop
find_sub_string sub src = find_sub_string_loop sub src src 0

-- `for (i = 0; i < power; i++) output *= base`, with wrap-around, on patterns of 32 bits.
unfoldable pub pow_loop : ℕ → ℕ → ℕ → ℕ
pow_loop base zero output = output
pow_loop base (suc n) output = pow_loop base n ((output * base) % u32_mod)

unfoldable pub pow : ℕ → ℕ → ℕ
unfolding pow_loop
pow base power = pow_loop base power 1

-- The two arrays differ first at their sentinels. `none` is a read behind the end of an array.
unfoldable pub param_count_loop : Chars → Chars → ℕ → Option ℕ
param_count_loop [] check count = none
param_count_loop (a ∷ raw) [] count = none
param_count_loop (a ∷ raw) (b ∷ check) count =
    if a == b then param_count_loop raw check ((count + 1) % u32_mod) else some count

unfoldable pub param_count : Chars → Chars → Option ℕ
unfolding param_count_loop
param_count raw check = param_count_loop raw check 0

abbrev pub opens : ℕ → Bool
opens c = c == b'{' || (c == b'(' || (c == b'[' || c == b'<'))

abbrev pub closes : ℕ → Bool
closes c = c == b'}' || (c == b')' || (c == b']' || c == b'>'))

-- The switch of paramCount0 on its scope level.
unfoldable pub scope_after : ℕ → ℤ → ℤ
unfolding ◌+ℤ◌
scope_after c scope =
    if opens c then scope +ℤ pos 1 else if closes c then scope +ℤ negsuc 0 else scope

-- The switch of paramCount0 on its count.
unfoldable pub count_after : ℕ → ℤ → ℕ → ℕ
count_after c scope count =
    if opens c
    then count
    else if closes c
    then count
    else if c == b','
    then (if eqb_ℤ scope (pos 0) then count + 1 else count)
    else count

unfoldable pub param_count0_loop : Chars → ℤ → ℕ → ℕ
unfolding scope_after count_after
param_count0_loop [] scope count = count
param_count0_loop (c ∷ params) scope count =
    param_count0_loop params (scope_after c scope) (count_after c scope count)

unfoldable pub param_count0 : Chars → ℕ
unfolding param_count0_loop
param_count0 params = if head_char params == 0 then 0 else param_count0_loop params (pos 0) 1

-- A word of a request: a pointer or a number of 64 bits.
abbrev pub Word : Type 0
Word = ℕ

pub record Parameter : Type 0 where
  pub type : ℤ
  pub ptr : Word

pub record Request : Type 0 where
  pub type : RequestType
  pub params : List Word

-- `(void*)NONE`.
abbrev pub none_word : Word
none_word = 2 ^ 64 - 2

-- `for (i = 0; i < MaxParamCount; i++) buffer[i] = NONE`, with `n` rounds left.
unfoldable pub none_loop : ℕ → ℕ → List Word → List Word
none_loop zero i buffer = buffer
none_loop (suc n) i buffer = none_loop n (i + 1) (set buffer i none_word)

abbrev pub in_slots : ℤ → Bool
in_slots t = ltb_ℤ (negsuc 0) t && ltb_ℤ t (pos max_param_count)

-- The loop over the parameters up to one whose type is no slot. `none` is a read behind the array.
unfoldable pub assign_loop : List Parameter → List Word → Option (List Word)
assign_loop [] buffer = none
assign_loop (p ∷ params) buffer =
    if in_slots p.type then assign_loop params (set buffer (pos_part p.type) p.ptr) else some buffer

unfoldable pub create_request : RequestType → List Parameter → List Word → Option Request
unfolding none_loop assign_loop
create_request type params buffer =
    Option.map (λ (b : List Word). record { type = type; params = b })
      (assign_loop params (none_loop max_param_count 0 buffer))

-- The number of a slot.
abbrev pub slot_code : ParamType → ℕ
slot_code t = pos_part (param_type_code t)

-- `request._params[t]`.
abbrev pub slot : Request → ParamType → Word
slot request t = get_or request.params (slot_code t) 0

-- `request._params[i]`.
abbrev pub param : Request → ℕ → Word
param request slot = get_or request.params slot 0
