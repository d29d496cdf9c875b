-- ===== src/Barrel/Moves/Effects.antt =====
-- What the moves of barrels do: the new offset, and the barrels that a roll copies.
use mathlib.Core.Path.{fun_ext, ap₂}
use barrel_test.Helpers.{Word}
use barrel_test.Memory.{Mem, barrel_size, barrel_transcribe}
use barrel_test.Memory.Copy.{blit, barrel_transcribe-blit, blit-zero}
use barrel_test.Memory.Words.{Apart, SameAt, load32-SameAt}
use barrel_test.Barrel.{Service, mem, put_mem, barrel_count, barrel_start, get_barrel_ptr}
use barrel_test.Barrel.Moves.{next_offset, roll_forward_loop}
use barrel_test.Base.{
  ℕ, zero, suc, ◌+◌, ◌*◌, ◌%◌, ◌≤◌, ◌<◌, ◌≡◌, sym, ap, ◌∙◌, ◌⊎◌, inl, inr, arith,
}
use barrel_test.Base.Int.{ℤ, u32_mod, u64_mod}

-- For a node with barrels, the offset that Barrel_Offset computes is from 1 to their number.
pub next_offset-bounds :
    (off count : ℕ) (request : ℤ)
    → 0 < count
    → (1 ≤ next_offset off count request) × (next_offset off count request ≤ count)
unfolding next_offset
next_offset-bounds off count request positive = ground arith

-- Two moves of barrels by the same distance, the second from inside the first, are one.
pub blit-blit :
    (m : Mem) (trg src i k len : ℕ)
    → i * barrel_size ≤ len
    → len ≤ (i + k) * barrel_size
    → (src + (i + k) * barrel_size ≤ trg) ⊎ (trg + (i + k) * barrel_size ≤ src)
    → blit (blit m trg src len) (trg + i * barrel_size) (src + i * barrel_size) (k * barrel_size)
      ≡ blit m trg src ((i + k) * barrel_size)
unfolding blit
blit-blit m trg src i k len lo hi free = fun_ext λ b. ground arith

pub byte-blit : (m : Mem) (trg src k b : ℕ) → Apart trg k b 1 → blit m trg src k b ≡ m b
unfolding blit
byte-blit m trg src k b apart = ground arith

pub barrel_ptr :
    (s : Service) (ix : ℕ)
    → s.heap.heap_start + ix * barrel_size < u64_mod
    → get_barrel_ptr s ix ≡ s.heap.heap_start + ix * barrel_size
unfolding get_barrel_ptr
barrel_ptr s ix lt = omega arith

-- A node whose barrels lie in memory below 2 ^ 64 with room for `n` more behind them, none of which
-- holds the node itself.
pub record HasRoomBehind (s : Service) (node : Word) (n : ℕ) : Type 0 where
  pub indices : barrel_start (mem s) node + barrel_count (mem s) node + n < u32_mod
  pub addresses :
      s.heap.heap_start + (barrel_start (mem s) node + barrel_count (mem s) node + n) * barrel_size
      < u64_mod
  pub apart :
      Apart
        (s.heap.heap_start + (barrel_start (mem s) node + barrel_count (mem s) node) * barrel_size)
        (n * barrel_size)
        node
        barrel_size

module _ {s : Service} {node : Word} {all : ℕ} (room : HasRoomBehind s node all) where
  abbrev first : Word
  first = s.heap.heap_start + barrel_start (mem s) node * barrel_size

  abbrev behind : Word
  behind = s.heap.heap_start + (barrel_start (mem s) node + barrel_count (mem s) node) * barrel_size

  abbrev moved : ℕ → Service
  moved len = put_mem s (blit (mem s) behind first len)

  same-node : (len : ℕ) → len ≤ all * barrel_size → SameAt node 32 (mem s) (mem (moved len))
  same-node len le b lo hi = byte-blit (mem s) behind first len b (omega (arith, room.apart))

  same-start :
      (len : ℕ)
      → len ≤ all * barrel_size
      → barrel_start (mem (moved len)) node ≡ barrel_start (mem s) node
  same-start len le =
      load32-SameAt (mem s) (mem (moved len)) (node + 24)
        (λ b lo hi. same-node len le b (omega arith) (omega arith))

  same-count :
      (len : ℕ)
      → len ≤ all * barrel_size
      → barrel_count (mem (moved len)) node ≡ barrel_count (mem s) node
  same-count len le =
      load32-SameAt (mem s) (mem (moved len)) (node + 16)
        (λ b lo hi. same-node len le b (omega arith) (omega arith))

  -- One round of the loop of Barrel_RollForward, behind rounds that moved `len` bytes.
  round-blit :
      (i k len : ℕ)
      → i * barrel_size ≤ len
      → len ≤ (i + k) * barrel_size
      → 0 < k
      → i + k ≤ all
      → i + k ≤ barrel_count (mem s) node
      → barrel_transcribe
          (mem (moved len))
          (get_barrel_ptr (moved len) (
            (barrel_start (mem (moved len)) node + barrel_count (mem (moved len)) node + i)
            % u32_mod))
          (get_barrel_ptr (moved len) ((barrel_start (mem (moved len)) node + i) % u32_mod))
          k
        ≡ blit (mem s) behind first ((i + k) * barrel_size)
  round-blit i k len lo hi positive fits below =
      let start = same-start len (omega (arith, hi, fits)) in
      let count = same-count len (omega (arith, hi, fits)) in
      let trg : get_barrel_ptr (moved len) (
            (barrel_start (mem (moved len)) node + barrel_count (mem (moved len)) node + i)
            % u32_mod)
          ≡ behind + i * barrel_size =
        barrel_ptr (moved len) _ (omega (arith, start, count, room.indices, room.addresses))
        ∙ omega (arith, start, count, room.indices) in
      let src : get_barrel_ptr (moved len) ((barrel_start (mem (moved len)) node + i) % u32_mod)
          ≡ first + i * barrel_size =
        barrel_ptr (moved len) _ (omega (arith, start, room.indices, room.addresses))
        ∙ omega (arith, start, room.indices) in
      ap₂ (λ a b. barrel_transcribe (mem (moved len)) a b k) trg src
      ∙ barrel_transcribe-blit (mem (moved len)) (behind + i * barrel_size)
          (first + i * barrel_size) k (inr (omega arith))
      ∙ blit-blit (mem s) behind first i k len lo hi (inl (omega arith))

  roll_forward_loop-blit :
      (n i k len : ℕ)
      → i * barrel_size ≤ len
      → len ≤ (i + k) * barrel_size
      → 0 < k
      → i + n + k ≤ all
      → i + n + k ≤ barrel_count (mem s) node
      → roll_forward_loop (suc n) i (moved len) node k ≡ moved ((i + n + k) * barrel_size)
  unfolding roll_forward_loop
  roll_forward_loop-blit zero i k len lo hi positive fits below =
      ap (put_mem s) (round-blit i k len lo hi positive (omega arith) (omega arith))
      ∙ ap (λ t. moved (t * barrel_size)) (omega arith)
  roll_forward_loop-blit (suc n) i k len lo hi positive fits below =
      ap (λ m. roll_forward_loop (suc n) (i + 1) (put_mem s m) node k)
        (round-blit i k len lo hi positive (omega arith) (omega arith))
      ∙ roll_forward_loop-blit n (i + 1) k ((i + k) * barrel_size) (omega arith) (omega arith)
          positive (omega arith) (omega arith)
      ∙ ap (λ t. moved (t * barrel_size)) (omega arith)

  -- The loop of Barrel_RollForward for k + 1 barrels moves the first 2k + 1 barrels of the node
  -- behind its last one, in one piece: k barrels more than the node gives up are overwritten. The
  -- node has at least 2k + 1 barrels, and behind them lie as many that do not hold the node
  -- itself.
  pub roll_forward_loop_lem :
      (k : ℕ)
      → 2 * k + 1 ≤ all
      → 2 * k + 1 ≤ barrel_count (mem s) node
      → roll_forward_loop (suc k) 0 s node (suc k)
        ≡ put_mem s (blit (mem s) behind first ((2 * k + 1) * barrel_size))
  roll_forward_loop_lem k fits below =
      ap (λ m. roll_forward_loop (suc k) 0 (put_mem s m) node (suc k))
        (sym (blit-zero (mem s) behind first))
      ∙ roll_forward_loop-blit k 0 (suc k) 0 (omega arith) (omega arith) (omega arith) (omega arith)
          (omega arith)
      ∙ ap (λ t. moved (t * barrel_size)) (omega arith)
