-- ===== src/Memory/Copy.antt =====
-- The copying routines of tHelpers.c against one block move.
use mathlib.Core.Path.{fun_ext}
use barrel_test.Base.{
  ltb, leb, if◌then◌else◌, ==_false, ℕ, zero, suc, ◌+◌, ◌-◌, ◌*◌, ◌≤◌, ◌<◌, ◌≡◌, sym, ap, ◌∙◌, ◌≢◌,
  ◌⊎◌, ◌&&◌, some, arith,
}
use barrel_test.Memory.{
  Mem, write, source_byte, raw_transcribe_loop, raw_transcribe, barrel_size, assign_barrel,
  barrel_transcribe_loop, barrel_transcribe, string_transcribe_loop, string_transcribe,
}

-- The memory `m` after the `k` bytes at `src` were moved to `trg` at once.
unfoldable pub blit : Mem → ℕ → ℕ → ℕ → Mem
blit m trg src k b = if leb trg b && ltb b (trg + k) then m (src + (b - trg)) else m b

-- The memory `m` with the `k` bytes at `trg` set to zero.
unfoldable pub clear : Mem → ℕ → ℕ → Mem
clear m trg k b = if leb trg b && ltb b (trg + k) then 0 else m b

-- A forward byte loop moves a block if no byte is stored over a byte that is still to be read.
abbrev pub Movable : ℕ → ℕ → ℕ → Type 0
Movable trg src k = (trg ≤ src) ⊎ (src + k ≤ trg)

-- Two moves, the second behind the first, are one.
pub blit-append :
    (m : Mem) (trg src a b : ℕ)
    → Movable trg src (a + b)
    → blit (blit m trg src a) (trg + a) (src + a) b ≡ blit m trg src (a + b)
unfolding blit
blit-append m trg src a b ok = fun_ext λ x. ground arith

module _ (m : Mem) (trg src : ℕ) where
  blit-step :
      (i n : ℕ)
      → src ≢ 0
      → Movable trg src (i + suc n)
      → write (blit m trg src i) (trg + i) (source_byte (blit m trg src i) src i)
        ≡ blit m trg src (i + 1)
  unfolding write blit
  blit-step i n ne ok = fun_ext λ b. ground arith

  raw_transcribe_loop-blit :
      (n i k : ℕ)
      → src ≢ 0
      → k ≡ i + n
      → Movable trg src k
      → raw_transcribe_loop n i (blit m trg src i) trg src ≡ blit m trg src k
  unfolding raw_transcribe_loop
  raw_transcribe_loop-blit zero i k ne e ok = ap (blit m trg src) (omega arith)
  raw_transcribe_loop-blit (suc n) i k ne e ok =
      ap (λ g. raw_transcribe_loop n (i + 1) g trg src) (blit-step i n ne (omega arith))
      ∙ raw_transcribe_loop-blit n (i + 1) k ne (omega arith) ok

  pub blit-zero : blit m trg src 0 ≡ m
  unfolding blit
  blit-zero = fun_ext λ b. ground arith

  -- From a source that is not NULL rawTranscribe moves the block, if the target does not lie
  -- behind the source's start or lies behind its end.
  pub raw_transcribe-blit :
      (k : ℕ) → src ≢ 0 → Movable trg src k → raw_transcribe m trg src k ≡ blit m trg src k
  unfolding raw_transcribe
  raw_transcribe-blit k ne ok =
      ap (λ g. raw_transcribe_loop k 0 g trg src) (sym blit-zero)
      ∙ raw_transcribe_loop-blit k 0 k ne (omega arith) ok

  assign-blit :
      (i n : ℕ)
      → Movable trg src ((i + suc n) * barrel_size)
      → assign_barrel
          (blit m trg src (i * barrel_size))
          (trg + i * barrel_size)
          (src + i * barrel_size)
        ≡ blit m trg src ((i + 1) * barrel_size)
  unfolding assign_barrel blit
  assign-blit i n ok = fun_ext λ b. ground arith

  -- The byte that a loop reads in its round `i` is still the one of the start.
  blit-source : (i k : ℕ) → Movable trg src k → i < k → blit m trg src i (src + i) ≡ m (src + i)
  unfolding blit
  blit-source i k ok lt = ground arith

  blit-next : (i : ℕ) → write (blit m trg src i) (trg + i) (m (src + i)) ≡ blit m trg src (i + 1)
  unfolding write blit
  blit-next i = fun_ext λ b. ground arith

  barrel_transcribe_loop-blit :
      (n i k : ℕ)
      → k ≡ i + n
      → Movable trg src (k * barrel_size)
      → barrel_transcribe_loop n i (blit m trg src (i * barrel_size)) trg src
        ≡ blit m trg src (k * barrel_size)
  unfolding barrel_transcribe_loop
  barrel_transcribe_loop-blit zero i k e ok = ap (blit m trg src) (omega arith)
  barrel_transcribe_loop-blit (suc n) i k e ok =
      ap (λ g. barrel_transcribe_loop n (i + 1) g trg src) step
      ∙ barrel_transcribe_loop-blit n (i + 1) k (omega arith) ok
    where
      step :
          assign_barrel
            (blit m trg src (i * barrel_size))
            (trg + i * barrel_size)
            (src + i * barrel_size)
          ≡ blit m trg src ((i + 1) * barrel_size)
      step = assign-blit i n (omega arith)

  -- barrelTranscribe moves the whole run of barrels, if the target does not lie behind the
  -- source's start or lies behind its end.
  pub barrel_transcribe-blit :
      (count : ℕ)
      → Movable trg src (count * barrel_size)
      → barrel_transcribe m trg src count ≡ blit m trg src (count * barrel_size)
  unfolding barrel_transcribe
  barrel_transcribe-blit count ok =
      ap (λ g. barrel_transcribe_loop count 0 g trg src) (sym blit-zero)
      ∙ barrel_transcribe_loop-blit count 0 count (omega arith) ok

  string_transcribe_loop-blit :
      (fuel i n k : ℕ)
      → n < fuel
      → k ≡ i + n
      → m (src + k) ≡ 0
      → ((j : ℕ) → j < k → m (src + j) ≢ 0)
      → Movable trg src (k + 1)
      → string_transcribe_loop fuel i (blit m trg src i) trg src ≡ some (blit m trg src (k + 1))
  unfolding string_transcribe_loop
  string_transcribe_loop-blit zero i n k lt e nul chars ok = absurd (omega arith)
  string_transcribe_loop-blit (suc fuel) i zero k lt e nul chars ok =
      let e' : i ≡ k = omega arith in
      let z : m (src + i) ≡ 0 = rw e' nul in
      rw (blit-source i (k + 1) ok (omega arith), z)
        (ap some (
          ap (write (blit m trg src i) (trg + i)) (sym z)
          ∙ blit-next i
          ∙ ap (λ t. blit m trg src (t + 1)) e'))
  string_transcribe_loop-blit (suc fuel) i (suc n) k lt e nul chars ok =
      rw (blit-source i (k + 1) ok (omega arith), ==_false _ 0 (chars i (omega arith)), blit-next i)
        (string_transcribe_loop-blit fuel (i + 1) n k (omega arith) (omega arith) nul chars ok)

  -- For a text of k characters stringTranscribe stops within k + 1 rounds and has then moved the
  -- text with its NUL, if the target does not lie behind the source's start or lies behind its
  -- end.
  pub string_transcribe-blit :
      (fuel k : ℕ)
      → k < fuel
      → m (src + k) ≡ 0
      → ((j : ℕ) → j < k → m (src + j) ≢ 0)
      → Movable trg src (k + 1)
      → string_transcribe fuel m trg src ≡ some (blit m trg src (k + 1))
  unfolding string_transcribe
  string_transcribe-blit fuel k lt nul chars ok =
      ap (λ g. string_transcribe_loop fuel 0 g trg src) (sym blit-zero)
      ∙ string_transcribe_loop-blit fuel 0 k k lt (omega arith) nul chars ok

module _ (m : Mem) (trg : ℕ) where
  clear-step :
      (i : ℕ)
      → write (clear m trg i) (trg + i) (source_byte (clear m trg i) 0 i) ≡ clear m trg (i + 1)
  unfolding write clear
  clear-step i = fun_ext λ b. ground arith

  raw_transcribe_loop-clear :
      (n i k : ℕ) → k ≡ i + n → raw_transcribe_loop n i (clear m trg i) trg 0 ≡ clear m trg k
  unfolding raw_transcribe_loop
  raw_transcribe_loop-clear zero i k e = ap (clear m trg) (omega arith)
  raw_transcribe_loop-clear (suc n) i k e =
      ap (λ g. raw_transcribe_loop n (i + 1) g trg 0) (clear-step i)
      ∙ raw_transcribe_loop-clear n (i + 1) k (omega arith)

  clear-zero : clear m trg 0 ≡ m
  unfolding clear
  clear-zero = fun_ext λ b. ground arith

  -- With a NULL source rawTranscribe sets the block to zero.
  pub raw_transcribe-clear : (k : ℕ) → raw_transcribe m trg 0 k ≡ clear m trg k
  unfolding raw_transcribe
  raw_transcribe-clear k =
      ap (λ g. raw_transcribe_loop k 0 g trg 0) (sym clear-zero)
      ∙ raw_transcribe_loop-clear k 0 k (omega arith)
