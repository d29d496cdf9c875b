-- ===== src/Printing.antt =====
-- tPreent.c: printing by a format text, through a static buffer of 64 bytes, and reading a line into
-- the same buffer. What WriteConsoleA is given is collected as text, and what ReadConsoleA delivers
-- is a list of lines.
pub mod Pieces
use barrel_test.Base.{
  ltb, leb, ◌==◌, if◌then◌else◌, Bool-cases, ==_iff, ==_false, ==_refl, ltb→lt, lt→ltb, ltb-false,
  codes, length, get_elem?, get_or, drop, set, replicate, All, length-append, length-set,
  length-replicate, get_or-set_self, get_or-set_ne, get_or-replicate, get_elem?-append_left,
  get_elem?-append_last, get_elem?-set_self, get_elem?-set_ne, get_elem?-set-some, ℕ, zero, suc,
  ◌+◌, ◌-◌, ◌*◌, ◌/◌, ◌%◌, ◌^◌, ◌≤◌, ◌<◌, ◌≡◌, refl, sym, ap, ◌∙◌, subst, ◌≢◌, ◌↔◌, ◌⊎◌, inl, inr,
  Bool, true, false, not, ◌&&◌, ◌||◌, Option, none, some, List, [], ◌∷◌, ◌++◌, map, append-nil,
  append_assoc, arith,
}
use barrel_test.Base.Int.{
  ℤ, pos, negsuc, pos_part, neg_part, sub_ℕ, ◌+ℤ◌, neg, ltb_ℤ, eqb_ℤ, ◌≤ℤ◌, u32_mod, u64_mod,
  wrap_word, to_int, sub32, sub64, add64, mul64,
}
use barrel_test.Base.Run.{Run, done, spins, faults, ◌>>=◌}
use barrel_test.Enums.{
  Format, fmt_c, fmt_s, fmt_big_l, fmt_big_i, fmt_x, fmt_l, fmt_big_o, fmt_b, fmt_h, fmt_i, fmt_o,
  fmt_f, fmt_d, null_end, param_type_code,
}
use barrel_test.Helpers.{Chars, Word, Parameter}
use barrel_test.Memory.{Mem}
use barrel_test.Numbers.{max_console_buffer, str_len_safe}
use barrel_test.Numbers.Formats.{Doubles, num_convert}

-- PREENT_BUFFER, the lines still to be read, and the bytes written so far.
pub record Console : Type 0 where
  pub buffer : List ℕ
  pub lines : List Chars
  pub written : Chars

-- The characters up to a NUL.
abbrev pub text_of : List ℕ → Chars
text_of [] = []
text_of (c ∷ bytes) = if c == 0 then [] else c ∷ text_of bytes

-- The characters at `p` up to a NUL, but at most `n`.
abbrev pub string_at : ℕ → Mem → Word → Chars
string_at zero m p = []
string_at (suc n) m p = if m p == 0 then [] else m p ∷ string_at n m (p + 1)

-- pootChar.
unfoldable pub poot_char : ℕ → Chars → Chars
poot_char put out = out ++ (put ∷ [])

-- pootStr of a string that is not NULL: it is written with its NUL, or not at all if it is too long.
unfoldable pub poot_str : Chars → Chars → Chars
poot_str str out = if str_len_safe str == 0 then out else out ++ (str ++ (0 ∷ []))

-- pootStr of a pointer. Of a string longer than the limit of strLenSafe its first characters do.
unfoldable pub poot_ptr : Mem → Word → Chars → Chars
unfolding poot_str
poot_ptr m p out = if p == 0 then out else poot_str (string_at (max_console_buffer + 2) m p) out

-- The format with a given number.
abbrev pub format_of : ℤ → Option Format
format_of (negsuc n) = none
format_of (pos n) = get_elem? formats n
  where
    formats : List Format
    formats =
        fmt_c ∷ fmt_s ∷ fmt_big_l ∷ fmt_big_i ∷ fmt_x ∷ fmt_l ∷ fmt_big_o ∷ fmt_b ∷ fmt_h ∷ fmt_i
        ∷ fmt_o ∷ fmt_f ∷ fmt_d ∷ []

module _ {D : Type 0} (ops : Doubles D) (fuel : ℕ) (m : Mem) where
  unfoldable pub print_format : Format → Word → Chars → Run Chars
  unfolding poot_char poot_ptr poot_str num_convert
  print_format f p out = elim f [
    | fmt_c ↦ done (poot_char (m p) out)
    | fmt_s ↦ done (poot_ptr m p out)
    | f' ↦ (do text ← num_convert ops fuel m f' p; done (poot_str text out))
  ]

  -- The switch of Preent on the type of the next parameter, which stays the next one where it is
  -- the null parameter or of no format. Behind the parameters the read faults.
  unfoldable pub print_param : List Parameter → Chars → Run (List Parameter × Chars)
  unfolding print_format poot_str
  print_param [] out = faults
  print_param (p ∷ head) out = elim (format_of p.type) [
    | some f ↦ (do out' ← print_format f p.ptr out; done (head, out'))
    | none ↦ done (
      p ∷ head,
      if eqb_ℤ p.type (param_type_code null_end)
          then poot_str (codes "\n[NULL PARAM ERROR]\n") out
          else out,
    )
  ]

  -- The loop of Preent at index `i`, with `n` rounds left: the index that `workingIndex` points to,
  -- the parameters left, the buffer and the output.
  unfoldable pub preent_loop :
      ℕ → ℕ → Word → ℕ → List Parameter → List ℕ → Chars → Run (List ℕ × Chars)
  unfolding print_param poot_str
  preent_loop zero i string working head buffer out = done (buffer, out)
  preent_loop (suc n) i string working head buffer out =
      let buffer' = set buffer i (m (string + i)) in
      let cut = set buffer' i 0 in
      let next = preent_loop n (i + 1) string working head buffer' out in
      if m (string + i) == 0
      then done (buffer', poot_str (text_of (drop working buffer')) out)
      else if m (string + i) == b'%'
      then (do
        (head', out') ← print_param head (poot_str (text_of (drop working cut)) out)
        preent_loop n (i + 1) string (i + 1) head' cut out')
      else next

  -- Preent.
  unfoldable pub preent : Word → List Parameter → Console → Run Console
  preent string head c = do
    (buffer, out) ← preent_loop max_console_buffer 0 string 0 head c.buffer c.written
    done (record c { buffer = buffer; written = out })

-- A line of at most 64 bytes at the start of the buffer; what stood behind it stays.
abbrev pub overlay : Chars → List ℕ → List ℕ
overlay [] buffer = buffer
overlay (c ∷ line) [] = []
overlay (c ∷ line) (b ∷ buffer) = c ∷ overlay line buffer

-- Geet: the next line into the buffer. Without one it waits.
unfoldable pub geet : Console → Run Console
geet c = elim c.lines [
  | [] ↦ spins
  | line ∷ lines ↦ done (record c { buffer = overlay line c.buffer; lines = lines })
]
