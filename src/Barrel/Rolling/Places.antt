-- ===== src/Barrel/Rolling/Places.antt =====
-- Where the nodes of a chain and their barrels lie, and the last move of one node of it.
use native.Mathlib.Nat.{mod-lt}
use mathlib.Core.Path.{ap₂}
use barrel_test.Base.{ℕ, ◌+◌, ◌*◌, ◌%◌, ◌≤◌, ◌<◌, ◌≡◌, ap, ◌∙◌, arith}
use barrel_test.Base.Int.{pos, u32_mod, u64_mod}
use barrel_test.Helpers.{Word}
use barrel_test.Memory.{Mem, barrel_size}
use barrel_test.Memory.Words.{
  Apart, SameAt, store32, byte-store32, load32-store32, load32-store32-Apart, load32-SameAt,
}
use barrel_test.Collection.{release, lock_of}
use barrel_test.Barrel.{Service, mem, put_mem, barrel_count, barrel_start, barrel_offset}
use barrel_test.Barrel.Moves.{next_offset}
use barrel_test.Barrel.Moves.Effects.{HasRoomBehind, byte-blit}
use barrel_test.Barrel.Moves.Rotation.{
  turned, roll_forward-turned, turned-start, turned-count, turned-offset, byte-turned,
}
use barrel_test.Barrel.Moves.Units.{byte-rolled}
use barrel_test.Barrel.Rolling.{unlock, after_next}

-- A node by its address and by what its fields say.
pub record Node : Type 0 where
  pub ptr : Word
  pub start : ℕ
  pub count : ℕ
  pub offset : ℕ

pub record Reads (m : Mem) (n : Node) : Type 0 where
  pub start : barrel_start m n.ptr ≡ n.start
  pub count : barrel_count m n.ptr ≡ n.count
  pub offset : barrel_offset m n.ptr ≡ n.offset

-- The node behind a roll by one barrel.
abbrev pub rolled_node : Node → Node
rolled_node n = record n { start = n.start + 1; offset = next_offset n.offset n.count (pos 1) }

-- Byte `x` of what the node holds, counted from its offset on and round at its end.
abbrev pub node_byte : Word → Mem → Node → ℕ → ℕ
node_byte heap_start m n x = m (heap_start + n.start * 32 + (x + n.offset * 32) % (n.count * 32))

-- The byte `b` is none that the roll of the node writes.
abbrev pub Clear : Word → Node → ℕ → Type 0
Clear heap_start n b = Apart n.ptr 32 b 1 × Apart (heap_start + (n.start + n.count) * 32) 32 b 1

-- A node with an offset from 1 to its number of barrels, whose barrels and the one behind them lie
-- in memory below 2 ^ 64 and apart from the node.
pub record Fits (heap_start : Word) (n : Node) : Type 0 where
  pub low : 0 < n.offset
  pub bound : n.offset ≤ n.count
  pub indices : n.start + n.count + 1 < u32_mod
  pub addresses : heap_start + (n.start + n.count + 1) * 32 < u64_mod
  pub own : Apart n.ptr 32 (heap_start + n.start * 32) ((n.count + 1) * 32)

-- What a roll by one barrel leaves of a node: it starts one barrel further on, is free, and holds
-- the bytes that it held.
pub record Held (heap_start : Word) (m m' : Mem) (n : Node) : Type 0 where
  pub reads : Reads m' (rolled_node n)
  pub unlocked : lock_of m' n.ptr ≡ 0
  pub bytes :
      (x : ℕ)
      → x < n.count * 32
      → node_byte heap_start m' (rolled_node n) x ≡ node_byte heap_start m n x

pub Reads-SameAt : {m m' : Mem} {n : Node} → Reads m n → SameAt (n.ptr + 16) 16 m m' → Reads m' n
Reads-SameAt {m} {m'} {n} r same = record {
  start = load32-SameAt m m' (n.ptr + 24) (λ b lo hi. same b (omega arith) (omega arith)) ∙ r.start;
  count = load32-SameAt m m' (n.ptr + 16) (λ b lo hi. same b (omega arith) (omega arith)) ∙ r.count;
  offset =
      load32-SameAt m m' (n.ptr + 20) (λ b lo hi. same b (omega arith) (omega arith)) ∙ r.offset;
}

module _ (s : Service) {n : Node} (r : Reads (mem s) n) (f : Fits s.heap.heap_start n) where
  room : HasRoomBehind s n.ptr 1
  room = record {
    indices = omega (arith, r.start, r.count, f.indices);
    addresses = omega (arith, r.start, r.count, f.addresses);
    apart = omega (arith, r.start, r.count, f.own);
  }

  below : 2 * 0 + 1 ≤ barrel_count (mem s) n.ptr
  below = omega (arith, r.count, f.low, f.bound)

  low_now : 0 < barrel_offset (mem s) n.ptr
  low_now = omega (arith, r.offset, f.low)

  bound_now : barrel_offset (mem s) n.ptr ≤ barrel_count (mem s) n.ptr
  bound_now = omega (arith, r.offset, r.count, f.bound)

  abbrev unlocked_mem : Mem
  unlocked_mem = store32 (turned room (omega arith) below low_now bound_now) (n.ptr + 12) 0

  after_next-mem : after_next s n.ptr (pos 1) ≡ put_mem s unlocked_mem
  unfolding after_next unlock release
  after_next-mem =
      ap (λ s'. put_mem s' (store32 (mem s') (n.ptr + 12) 0))
        (roll_forward-turned room (omega arith) below low_now bound_now)

  abbrev turned_mem : Mem
  turned_mem = turned room (omega arith) below low_now bound_now

  byte-unlocked : (b : ℕ) → Apart n.ptr 32 b 1 → unlocked_mem b ≡ turned_mem b
  byte-unlocked b apart = byte-store32 turned_mem (n.ptr + 12) 0 b (omega arith)

  rolled-frame : (b : ℕ) → Clear s.heap.heap_start n b → unlocked_mem b ≡ mem s b
  rolled-frame b (node, barrel) =
      byte-unlocked b node
      ∙ byte-turned room (omega arith) below low_now bound_now b node
      ∙ byte-blit (mem s)
          (s.heap.heap_start
            + (barrel_start (mem s) n.ptr + barrel_count (mem s) n.ptr) * barrel_size)
          (s.heap.heap_start + barrel_start (mem s) n.ptr * barrel_size) ((2 * 0 + 1) * barrel_size)
          b (omega (arith, r.start, r.count, barrel))

  rolled-Reads : Reads unlocked_mem (rolled_node n)
  rolled-Reads = record {
    start =
        load32-store32-Apart turned_mem (n.ptr + 12) (n.ptr + 24) 0 (omega arith)
        ∙ turned-start room (omega arith) below low_now bound_now
        ∙ omega (arith, r.start);
    count =
        load32-store32-Apart turned_mem (n.ptr + 12) (n.ptr + 16) 0 (omega arith)
        ∙ turned-count room (omega arith) below low_now bound_now
        ∙ r.count;
    offset =
        load32-store32-Apart turned_mem (n.ptr + 12) (n.ptr + 20) 0 (omega arith)
        ∙ turned-offset room (omega arith) below low_now bound_now
        ∙ ap₂ (λ o c. next_offset o c (pos 1)) r.offset r.count;
  }

  rolled-bytes :
      (x : ℕ)
      → x < n.count * 32
      → node_byte s.heap.heap_start unlocked_mem (rolled_node n) x
        ≡ node_byte s.heap.heap_start (mem s) n x
  rolled-bytes x inside =
      let lt : (x + next_offset n.offset n.count (pos 1) * 32) % (n.count * 32) < n.count * 32 =
        mod-lt _ (omega arith) in
      let old =
        byte-rolled room (omega arith) below low_now bound_now x 0
          (omega (arith, r.start, r.count, f.own)) (omega (arith, r.count)) (omega arith) in
      let new_place : s.heap.heap_start
            + (n.start + 1) * 32
            + (x + next_offset n.offset n.count (pos 1) * 32) % (n.count * 32)
          ≡ s.heap.heap_start
            + (barrel_start (mem s) n.ptr + (0 + 1)) * 32
            + (x
                + next_offset (barrel_offset (mem s) n.ptr) (barrel_count (mem s) n.ptr) (pos 1)
                  * 32)
              % (barrel_count (mem s) n.ptr * 32)
            + 0 =
        rw (r.start, r.count, r.offset) (omega arith) in
      let old_place : s.heap.heap_start
            + barrel_start (mem s) n.ptr * 32
            + (x + barrel_offset (mem s) n.ptr * 32) % (barrel_count (mem s) n.ptr * 32)
            + 0
          ≡ s.heap.heap_start + n.start * 32 + (x + n.offset * 32) % (n.count * 32) =
        rw (r.start, r.count, r.offset) (omega arith) in
      byte-unlocked _ (omega (arith, lt, f.own))
      ∙ ap turned_mem new_place
      ∙ old
      ∙ ap (mem s) old_place

  rolled-Held : Held s.heap.heap_start (mem s) unlocked_mem n
  rolled-Held = record {
    reads = rolled-Reads;
    unlocked = load32-store32 turned_mem (n.ptr + 12) 0 (omega arith);
    bytes = rolled-bytes;
  }

  -- The last move of Barrel_Roll on a node that fits, for one barrel: it holds what it held, and no
  -- other byte than its struct's and its new barrel's has changed.
  pub after_next-Held :
      (m' : Mem) × (after_next s n.ptr (pos 1) ≡ put_mem s m')
      × ((b : ℕ) → Clear s.heap.heap_start n b → m' b ≡ mem s b)
      × Held s.heap.heap_start (mem s) m' n
  after_next-Held = (unlocked_mem, after_next-mem, rolled-frame, rolled-Held)
