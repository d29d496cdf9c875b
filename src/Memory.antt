-- ===== src/Memory.antt =====
-- Byte memory and the copying routines of tHelpers.c (rawTranscribe, barrelTranscribe,
-- stringTranscribe).
pub mod Copy
pub mod Words
use barrel_test.Base.{
  ltb, leb, ◌==◌, if◌then◌else◌, Bool-cases, ==_iff, ==_false, ==_refl, ltb→lt, lt→ltb, ltb-false,
  length, get_elem?, get_or, set, replicate, All, length-append, length-set, length-replicate,
  get_or-set_self, get_or-set_ne, get_or-replicate, get_elem?-append_left, get_elem?-append_last, ℕ,
  zero, suc, ◌+◌, ◌-◌, ◌*◌, ◌/◌, ◌%◌, ◌^◌, ◌≤◌, ◌<◌, ◌≡◌, refl, sym, ap, ◌∙◌, subst, ◌≢◌, ◌↔◌, ◌⊎◌,
  inl, inr, Bool, true, false, not, ◌&&◌, ◌||◌, Option, none, some, List, [], ◌∷◌, ◌++◌, map,
  append-nil, append_assoc, arith,
}

-- Address to byte. Address 0 is NULL.
abbrev pub Mem : Type 0
Mem = ℕ → ℕ

unfoldable pub write : Mem → ℕ → ℕ → Mem
write m a v b = if b == a then v else m b

-- The byte that one round of the loop of rawTranscribe stores.
abbrev pub source_byte : Mem → ℕ → ℕ → ℕ
source_byte m src i = if src == 0 then 0 else m (src + i)

-- `for (i = 0; i < size; i++) trg[i] = src ? src[i] : NULL`, with `n` rounds left.
unfoldable pub raw_transcribe_loop : ℕ → ℕ → Mem → ℕ → ℕ → Mem
raw_transcribe_loop zero i m trg src = m
raw_transcribe_loop (suc n) i m trg src =
    raw_transcribe_loop n (i + 1) (write m (trg + i) (source_byte m src i)) trg src

unfoldable pub raw_transcribe : Mem → ℕ → ℕ → ℕ → Mem
unfolding raw_transcribe_loop
raw_transcribe m trg src size = raw_transcribe_loop size 0 m trg src

-- sizeof(Barrel), four words of eight bytes.
abbrev pub barrel_size : ℕ
barrel_size = 32

-- One assignment of a whole Barrel: its bytes are read before any is stored.
unfoldable pub assign_barrel : Mem → ℕ → ℕ → Mem
assign_barrel m trg src b = if in_barrel then m (src + (b - trg)) else m b
  where
    in_barrel : Bool
    in_barrel = leb trg b && ltb b (trg + barrel_size)

-- `for (i = 0; i < count; i++) ((Barrel*)trg)[i] = ((Barrel*)src)[i]`, with `n` rounds left.
unfoldable pub barrel_transcribe_loop : ℕ → ℕ → Mem → ℕ → ℕ → Mem
unfolding assign_barrel
barrel_transcribe_loop zero i m trg src = m
barrel_transcribe_loop (suc n) i m trg src =
    barrel_transcribe_loop n (i + 1)
      (assign_barrel m (trg + i * barrel_size) (src + i * barrel_size)) trg src

unfoldable pub barrel_transcribe : Mem → ℕ → ℕ → ℕ → Mem
unfolding barrel_transcribe_loop
barrel_transcribe m trg src count = barrel_transcribe_loop count 0 m trg src

-- stringTranscribe with `fuel` rounds; `none` when the loop has not met a NUL by then.
unfoldable pub string_transcribe_loop : ℕ → ℕ → Mem → ℕ → ℕ → Option Mem
string_transcribe_loop zero seek m trg src = none
string_transcribe_loop (suc fuel) seek m trg src =
    let next =
      string_transcribe_loop fuel (seek + 1) (write m (trg + seek) (m (src + seek))) trg src in
    if m (src + seek) == 0 then some (write m (trg + seek) 0) else next

unfoldable pub string_transcribe : ℕ → Mem → ℕ → ℕ → Option Mem
unfolding string_transcribe_loop
string_transcribe fuel m trg src = string_transcribe_loop fuel 0 m trg src
