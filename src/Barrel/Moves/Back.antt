-- ===== src/Barrel/Moves/Back.antt =====
-- The barrels that Barrel_RollBack copies.
use mathlib.Core.Path.{ap₂}
use barrel_test.Base.{ℕ, zero, suc, ◌+◌, ◌*◌, ◌%◌, ◌≤◌, ◌<◌, ◌≡◌, sym, ap, ◌∙◌, inl, inr, arith}
use barrel_test.Base.Int.{u32_mod, u64_mod}
use barrel_test.Helpers.{Word}
use barrel_test.Memory.{barrel_size, barrel_transcribe}
use barrel_test.Memory.Copy.{blit, barrel_transcribe-blit, blit-zero}
use barrel_test.Memory.Words.{Apart, SameAt, load32-SameAt}
use barrel_test.Barrel.{Service, mem, put_mem, barrel_count, barrel_start, get_barrel_ptr}
use barrel_test.Barrel.Moves.{roll_back_loop}
use barrel_test.Barrel.Moves.Effects.{blit-blit, byte-blit, barrel_ptr}

-- A node, which already starts where the roll leaves it, with `n` barrels from there on and behind
-- as many as it has; they lie in memory below 2 ^ 64, and those that are written do not hold the
-- node itself.
pub record HasRoomBefore (s : Service) (node : Word) (n : ℕ) : Type 0 where
  pub indices : barrel_start (mem s) node + barrel_count (mem s) node + n < u32_mod
  pub addresses :
      s.heap.heap_start + (barrel_start (mem s) node + barrel_count (mem s) node + n) * barrel_size
      < u64_mod
  pub apart :
      Apart
        (s.heap.heap_start + barrel_start (mem s) node * barrel_size)
        (n * barrel_size)
        node
        barrel_size

module _ {s : Service} {node : Word} {all : ℕ} (room : HasRoomBefore s node all) where
  abbrev first : Word
  first = s.heap.heap_start + barrel_start (mem s) node * barrel_size

  abbrev behind : Word
  behind = s.heap.heap_start + (barrel_start (mem s) node + barrel_count (mem s) node) * barrel_size

  abbrev drawn : ℕ → Service
  drawn len = put_mem s (blit (mem s) first behind len)

  same-node : (len : ℕ) → len ≤ all * barrel_size → SameAt node 32 (mem s) (mem (drawn len))
  same-node len le b lo hi = byte-blit (mem s) first behind len b (omega (arith, room.apart))

  -- One round of the loop of Barrel_RollBack, behind rounds that moved `len` bytes.
  round-blit :
      (i k len : ℕ)
      → i * barrel_size ≤ len
      → len ≤ (i + k) * barrel_size
      → 0 < k
      → i + k ≤ all
      → i + k ≤ barrel_count (mem s) node
      → barrel_transcribe
          (mem (drawn len))
          (get_barrel_ptr (drawn len) ((barrel_start (mem (drawn len)) node + i) % u32_mod))
          (get_barrel_ptr (drawn len) (
            (barrel_start (mem (drawn len)) node + barrel_count (mem (drawn len)) node + i)
            % u32_mod))
          k
        ≡ blit (mem s) first behind ((i + k) * barrel_size)
  round-blit i k len lo hi positive fits below =
      let kept = same-node len (omega (arith, hi, fits)) in
      let start : barrel_start (mem (drawn len)) node ≡ barrel_start (mem s) node =
        load32-SameAt (mem s) (mem (drawn len)) (node + 24)
          (λ b lo' hi'. kept b (omega arith) (omega arith)) in
      let count : barrel_count (mem (drawn len)) node ≡ barrel_count (mem s) node =
        load32-SameAt (mem s) (mem (drawn len)) (node + 16)
          (λ b lo' hi'. kept b (omega arith) (omega arith)) in
      let src : get_barrel_ptr (drawn len) (
            (barrel_start (mem (drawn len)) node + barrel_count (mem (drawn len)) node + i)
            % u32_mod)
          ≡ behind + i * barrel_size =
        barrel_ptr (drawn len) _ (omega (arith, start, count, room.indices, room.addresses))
        ∙ omega (arith, start, count, room.indices) in
      let trg : get_barrel_ptr (drawn len) ((barrel_start (mem (drawn len)) node + i) % u32_mod)
          ≡ first + i * barrel_size =
        barrel_ptr (drawn len) _ (omega (arith, start, room.indices, room.addresses))
        ∙ omega (arith, start, room.indices) in
      ap₂ (λ a b. barrel_transcribe (mem (drawn len)) a b k) trg src
      ∙ barrel_transcribe-blit (mem (drawn len)) (first + i * barrel_size)
          (behind + i * barrel_size) k (inl (omega arith))
      ∙ blit-blit (mem s) first behind i k len lo hi (inr (omega arith))

  roll_back_loop-blit :
      (n i k len : ℕ)
      → i * barrel_size ≤ len
      → len ≤ (i + k) * barrel_size
      → 0 < k
      → i + n + k ≤ all
      → i + n + k ≤ barrel_count (mem s) node
      → roll_back_loop (suc n) i (drawn len) node k ≡ drawn ((i + n + k) * barrel_size)
  unfolding roll_back_loop
  roll_back_loop-blit zero i k len lo hi positive fits below =
      ap (put_mem s) (round-blit i k len lo hi positive (omega arith) (omega arith))
      ∙ ap (λ t. drawn (t * barrel_size)) (omega arith)
  roll_back_loop-blit (suc n) i k len lo hi positive fits below =
      ap (λ m. roll_back_loop (suc n) (i + 1) (put_mem s m) node k)
        (round-blit i k len lo hi positive (omega arith) (omega arith))
      ∙ roll_back_loop-blit n (i + 1) k ((i + k) * barrel_size) (omega arith) (omega arith) positive
          (omega arith) (omega arith)
      ∙ ap (λ t. drawn (t * barrel_size)) (omega arith)

  -- The loop of Barrel_RollBack for k + 1 barrels moves 2k + 1 barrels, from behind the node's new
  -- place to its start, in one piece.
  pub roll_back_loop_lem :
      (k : ℕ)
      → 2 * k + 1 ≤ all
      → 2 * k + 1 ≤ barrel_count (mem s) node
      → roll_back_loop (suc k) 0 s node (suc k)
        ≡ put_mem s (blit (mem s) first behind ((2 * k + 1) * barrel_size))
  roll_back_loop_lem k fits below =
      ap (λ m. roll_back_loop (suc k) 0 (put_mem s m) node (suc k))
        (sym (blit-zero (mem s) first behind))
      ∙ roll_back_loop-blit k 0 (suc k) 0 (omega arith) (omega arith) (omega arith) (omega arith)
          (omega arith)
      ∙ ap (λ t. drawn (t * barrel_size)) (omega arith)
