-- ===== src/Barrel/Moves/BackUnits.antt =====
-- The units of a node behind Barrel_RollBack.
use native.Mathlib.Nat.{mod-eq_of_lt}
use barrel_test.Base.{ℕ, ◌+◌, ◌-◌, ◌*◌, ◌%◌, ◌≤◌, ◌<◌, ◌≡◌, refl, ap, ◌∙◌, arith}
use barrel_test.Base.Int.{negsuc, u32_mod, u64_mod}
use barrel_test.Helpers.{Word}
use barrel_test.Memory.{Mem, barrel_size}
use barrel_test.Memory.Copy.{blit}
use barrel_test.Memory.Words.{
  Apart, SameAt, store32, byte-store32, load32-store32, load32-store32-Apart, load32-SameAt,
}
use barrel_test.Barrel.{Service, mem, put_mem, barrel_count, barrel_start, barrel_offset}
use barrel_test.Barrel.Moves.{roll_back, add_int, offset, next_offset}
use barrel_test.Barrel.Moves.Effects.{byte-blit, next_offset-bounds}
use barrel_test.Barrel.Moves.Back.{HasRoomBefore, roll_back_loop_lem}
use barrel_test.Barrel.Moves.Units.{blit-in}

-- A node that can roll back by k + 1 barrels: there are as many in front of it, it has 2k + 1 or
-- more, and all the barrels that the roll reads or writes lie in memory below 2 ^ 64 and apart from
-- the node.
pub record CanRollBack (s : Service) (node : Word) (k : ℕ) : Type 0 where
  pub before : k + 1 ≤ barrel_start (mem s) node
  pub enough : 2 * k + 1 ≤ barrel_count (mem s) node
  pub bound : barrel_offset (mem s) node ≤ barrel_count (mem s) node
  pub indices : barrel_start (mem s) node + barrel_count (mem s) node + k < u32_mod
  pub addresses :
      s.heap.heap_start + (barrel_start (mem s) node + barrel_count (mem s) node + k) * barrel_size
      < u64_mod
  pub apart :
      Apart node 32
        (s.heap.heap_start + (barrel_start (mem s) node - (k + 1)) * barrel_size)
        ((barrel_count (mem s) node + (2 * k + 1)) * barrel_size)

module _ {s : Service} {node : Word} {k : ℕ} (can : CanRollBack s node k) where
  abbrev start : ℕ
  start = barrel_start (mem s) node - (k + 1)

  abbrev count : ℕ
  count = barrel_count (mem s) node

  abbrev off : ℕ
  off = barrel_offset (mem s) node

  abbrev first : Word
  first = s.heap.heap_start + start * barrel_size

  abbrev behind : Word
  behind = s.heap.heap_start + (start + count) * barrel_size

  abbrev pub lowered : Mem
  lowered = store32 (mem s) (node + 24) start

  abbrev pub drawn : Mem
  drawn = blit lowered first behind ((2 * k + 1) * barrel_size)

  abbrev pub new_off : ℕ
  new_off = next_offset off count (negsuc k)

  abbrev pub turned : Mem
  turned = store32 drawn (node + 20) new_off

  pub small_new : new_off < u32_mod
  small_new =
      let n = next_offset-bounds off count (negsuc k) (omega (arith, can.enough)) in
      omega (arith, n, can.indices)

  pub lowered-start : barrel_start lowered node ≡ start
  lowered-start = load32-store32 (mem s) (node + 24) start (omega (arith, can.indices))

  pub lowered-count : barrel_count lowered node ≡ count
  lowered-count = load32-store32-Apart (mem s) (node + 24) (node + 16) start (omega arith)

  lowered-offset : barrel_offset lowered node ≡ off
  lowered-offset = load32-store32-Apart (mem s) (node + 24) (node + 20) start (omega arith)

  room : HasRoomBefore (put_mem s lowered) node (2 * k + 1)
  room = record {
    indices = omega (arith, lowered-start, lowered-count, can.indices, can.before);
    addresses = omega (arith, lowered-start, lowered-count, can.addresses, can.before);
    apart = omega (arith, lowered-start, can.apart, can.enough);
  }

  pub drawn-SameAt : SameAt node 32 lowered drawn
  drawn-SameAt b lo hi =
      byte-blit lowered first behind ((2 * k + 1) * barrel_size) b (omega (arith, can.apart))

  pub roll_back-turned : roll_back s node (negsuc k) ≡ put_mem s turned
  unfolding roll_back offset
  roll_back-turned =
      let at : add_int (barrel_start (mem s) node) (negsuc k) % u32_mod ≡ start =
        omega (arith, can.before, can.indices) in
      let loop =
        roll_back_loop_lem room k (omega arith) (omega (arith, lowered-count, can.enough)) in
      let off_kept : barrel_offset drawn node ≡ off =
        load32-SameAt lowered drawn (node + 20)
          (λ b lo hi. drawn-SameAt b (omega arith) (omega arith))
        ∙ lowered-offset in
      let count_kept : barrel_count drawn node ≡ count =
        load32-SameAt lowered drawn (node + 16)
          (λ b lo hi. drawn-SameAt b (omega arith) (omega arith))
        ∙ lowered-count in
      let small : new_off % u32_mod ≡ new_off = mod-eq_of_lt small_new in
      rw (at, loop, lowered-start, lowered-count, off_kept, count_kept, small) refl

  pub byte-lowered : (b : ℕ) → Apart node 32 b 1 → lowered b ≡ mem s b
  byte-lowered b apart = byte-store32 (mem s) (node + 24) start b (omega arith)

  pub byte-turned : (b : ℕ) → Apart node 32 b 1 → turned b ≡ drawn b
  byte-turned b apart = byte-store32 drawn (node + 20) new_off b (omega arith)

  -- The barrels that are written, with what stood behind the node's new place.
  pub byte-drawn : (j : ℕ) → j < (2 * k + 1) * barrel_size → turned (first + j) ≡ mem s (behind + j)
  byte-drawn j lt =
      byte-turned (first + j) (omega (arith, can.apart, can.enough))
      ∙ blit-in lowered first behind ((2 * k + 1) * barrel_size) j lt
      ∙ byte-lowered (behind + j) (omega (arith, can.apart))

  -- Barrel_RollBack by k + 1 barrels overwrites the first k barrels that the node has, which stay
  -- in their place, by the k barrels behind its last: for more than one barrel, units are lost.
  -- The node has k + 1 barrels in front of it and 2k + 1 of its own or more, an offset of at most
  -- their number, and all barrels that are read or written lie below 2 ^ 64 and apart from the
  -- node.
  pub roll_back-overwrites :
      (j : ℕ)
      → j < k * barrel_size
      → mem
          (roll_back s node (negsuc k))
          (s.heap.heap_start + barrel_start (mem s) node * barrel_size + j)
        ≡ mem s (
            s.heap.heap_start
            + (barrel_start (mem s) node + barrel_count (mem s) node) * barrel_size
            + j)
  roll_back-overwrites j lt =
      ap (λ s'. mem s' (s.heap.heap_start + barrel_start (mem s) node * barrel_size + j))
        roll_back-turned
      ∙ ap turned (omega (arith, can.before))
      ∙ byte-drawn ((k + 1) * barrel_size + j) (omega arith)
      ∙ ap (mem s) (omega (arith, can.before))
