-- ===== src/Menu.antt =====
-- BarrelTest.c: the menu of the test program, over the service of barrel nodes.
--
-- All texts that are read and written go through one static buffer of 64 bytes, which Geet returns
-- a pointer to: a message overwrites the answer that was read before. What is written is not
-- recorded here (Printing has it), only what each message leaves in the buffer: the program's own
-- messages, and the one with which the service starts to resize a node. The messages with which the
-- services start, a node is made and extensions are looked up are not kept. A text that fills the
-- buffer is read as if a NUL stood behind it. Clearing the screen changes nothing that is read.
pub mod Actions
pub mod Loop
pub mod Inputs
pub mod Outcomes
pub mod Saying
pub mod OneUnit
pub mod Ending
pub mod Rounds
pub mod Sessions
use barrel_test.Base.{
  ltb, leb, ◌==◌, if◌then◌else◌, Bool-cases, ==_iff, ==_false, ==_refl, ltb→lt, lt→ltb, ltb-false,
  codes, length, get_elem?, get_or, drop, set, replicate, All, length-append, length-set,
  length-replicate, get_or-set_self, get_or-set_ne, get_or-replicate, get_elem?-append_left,
  get_elem?-append_last, get_elem?-set_self, get_elem?-set_ne, get_elem?-set-some, ℕ, zero, suc,
  ◌+◌, ◌-◌, ◌*◌, ◌/◌, ◌%◌, ◌^◌, ◌≤◌, ◌<◌, ◌≡◌, refl, sym, ap, ◌∙◌, subst, ◌≢◌, ◌↔◌, ◌⊎◌, inl, inr,
  Bool, true, false, not, ◌&&◌, ◌||◌, Option, none, some, List, [], ◌∷◌, ◌++◌, map, append-nil,
  append_assoc, arith,
}
use barrel_test.Base.Int.{
  ℤ, pos, negsuc, pos_part, neg_part, sub_ℕ, ◌+ℤ◌, neg, ltb_ℤ, eqb_ℤ, ◌≤ℤ◌, u32_mod, u64_mod,
  wrap_word, to_int, sub32, sub64, add64, mul64,
}
use barrel_test.Base.Run.{Run, done, spins, ◌>>=◌}
use barrel_test.Helpers.{Chars}
use barrel_test.Numbers.{str_to_int}
use barrel_test.Printing.{overlay, text_of}
use barrel_test.TypeInfo.{Layout}
use barrel_test.Collection.{has_flag}
use barrel_test.Barrel.{Service, node_count}

-- The service, the buffer, the lines still to be typed, ESCAPE, and the words that READ and
-- VIEW_HEAP have shown, the last one first.
pub record Menu : Type 0 where
  pub service : Service
  pub buffer : List ℕ
  pub lines : List Chars
  pub escape : Bool
  pub shown : List ℕ

abbrev pub put_service : Menu → Service → Menu
put_service m s = record m { service = s }

-- What Preent leaves of a format text: its percent signs become NULs.
abbrev pub marked : Chars → Chars
marked [] = 0 ∷ []
marked (c ∷ text) = (if c == b'%' then 0 else c) ∷ marked text

-- PREENT and PREENT_SAFE of a text of less than 64 characters.
unfoldable pub say : Chars → Menu → Menu
say text m = record m { buffer = overlay (marked text) m.buffer }

-- Geet; where no line is left it waits.
unfoldable pub geet : Menu → Run Menu
geet m = elim m.lines [
  | [] ↦ spins
  | line ∷ lines ↦ done (record m { buffer = overlay line m.buffer; lines = lines })
]

abbrev pub show : ℕ → Menu → Menu
show word m = record m { shown = word ∷ m.shown }

-- `input[0]`, where `input` points to the buffer.
abbrev pub key : Menu → ℕ
key m = get_or m.buffer 0 0

-- MenuOptions.
abbrev pub quit_reminder : ℕ
quit_reminder = 1

abbrev pub indexing : ℕ
indexing = 2

-- `index < 0 || index >= Barrel_NodeCount()`.
unfoldable pub is_bad_index : Layout → Service → ℤ → Bool
unfolding node_count
is_bad_index layout s index = ltb_ℤ index (pos 0) || leb (node_count layout s) (pos_part index)

-- barrel_INPUT behind its first test and its request: the number typed, if it answers true.
unfoldable pub read_number : Layout → ℕ → Menu → Option ℤ × Menu
unfolding is_bad_index str_to_int
read_number layout options m =
    let index = str_to_int (text_of m.buffer) in
    if key m == b'q'
    then (none, m)
    else if has_flag options indexing && is_bad_index layout m.service index
    then (none, say (codes "Bad index! Between 0 and %\n") m)
    else (some index, m)

-- barrel_INPUT.
unfoldable pub barrel_input : Layout → ℕ → Menu → Run (Option ℤ × Menu)
unfolding geet read_number
barrel_input layout options m =
    let reminded =
      if has_flag options quit_reminder
      then say (codes "At any time, enter 'q' to leave\n") m
      else m in
    if has_flag options indexing && node_count layout m.service == 0
    then done (none, say (codes "No Collections to write to!\n") m)
    else (do m' ← geet (say (codes "%: ") reminded); done (read_number layout options m'))

-- The rest of an action, behind a number that was typed.
abbrev pub with_number : (ℤ → Menu → Run Menu) → Option ℤ × Menu → Run Menu
with_number f (none, m) = done m
with_number f (some n, m) = f n m
