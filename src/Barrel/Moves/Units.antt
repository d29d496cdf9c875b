-- ===== src/Barrel/Moves/Units.antt =====
-- The units of a node behind Barrel_RollForward, where Barrel_GetUnitPtr finds them.
use native.Mathlib.Nat.{mod-lt}
use barrel_test.Base.{
  ==_false, ℕ, suc, ◌+◌, ◌*◌, ◌%◌, ◌≤◌, ◌<◌, ◌≡◌, refl, ap, ◌∙◌, inl, inr, arith,
}
use barrel_test.Base.Int.{pos, u32_mod, u64_mod, add64, mul64}
use barrel_test.Base.Run.{done}
use barrel_test.Helpers.{Word}
use barrel_test.Memory.{Mem, barrel_size}
use barrel_test.Memory.Copy.{blit}
use barrel_test.Memory.Words.{Apart, load64-SameAt}
use barrel_test.Collection.{unit_size, extensions_at}
use barrel_test.Barrel.{
  Service, mem, put_mem, barrel_count, barrel_start, barrel_offset, get_unit_ptr,
}
use barrel_test.Barrel.Moves.{roll_forward}
use barrel_test.Barrel.Moves.Effects.{HasRoomBehind, byte-blit}
use barrel_test.Barrel.Moves.Rotation.{
  next_offset_lem, rolled_place, same_barrel, turned, new_off, roll_forward-turned, turned-start,
  turned-count, turned-offset, turned-SameAt, byte-turned,
}

-- Barrel_GetUnitPtr of a unit that lies in the node, without the wrap-around of machine words.
pub unit_ptr_at :
    (s : Service) (node : Word) (i size st c o : ℕ)
    → unit_size s.world node ≡ done size
    → barrel_start (mem s) node ≡ st
    → barrel_count (mem s) node ≡ c
    → barrel_offset (mem s) node ≡ o
    → i * size < c * 32
    → o ≤ c
    → c < u32_mod
    → s.heap.heap_start + (st + c) * 32 < u64_mod
    → get_unit_ptr s node i ≡ done (s.heap.heap_start + st * 32 + (i * size + o * 32) % (c * 32))
unfolding get_unit_ptr
unit_ptr_at s node i size st c o sized at_start at_count at_off inside le small room =
    let swap : size * i ≡ i * size = grind arith in
    let a : add64 (mul64 size i) (o * barrel_size) ≡ i * size + o * 32 = omega (arith, swap) in
    let lt : (i * size + o * 32) % (c * 32) < c * 32 = mod-lt _ (omega arith) in
    rw (sized, at_start, at_count, at_off, a, ==_false (c * barrel_size) 0 (omega arith))
      (ap done (omega (arith, lt)))

pub blit-in : (m : Mem) (trg src n j : ℕ) → j < n → blit m trg src n (trg + j) ≡ m (src + j)
unfolding blit
blit-in m trg src n j lt = ground arith

module _ {s : Service} {node : Word} {all k : ℕ} (room : HasRoomBehind s node all)
    (fits : 2 * k + 1 ≤ all) (below : 2 * k + 1 ≤ barrel_count (mem s) node)
    (low : k < barrel_offset (mem s) node)
    (bound : barrel_offset (mem s) node ≤ barrel_count (mem s) node) where
  unit_size-turned :
      (size : ℕ)
      → unit_size s.world node ≡ done size
      → unit_size (put_mem s (turned room fits below low bound)).world node ≡ done size
  unfolding unit_size extensions_at
  unit_size-turned size sized =
      let ext =
        load64-SameAt (mem s) (turned room fits below low bound) node
          (turned-SameAt room fits below low bound) in
      rw ext sized

  -- A byte of the node's first barrels, and one of its others.
  byte-first :
      (j : ℕ)
      → j < (k + 1) * 32
      → turned room fits below low bound
          (s.heap.heap_start + (barrel_start (mem s) node + barrel_count (mem s) node) * 32 + j)
        ≡ mem s (s.heap.heap_start + barrel_start (mem s) node * 32 + j)
  byte-first j lt =
      let behind =
        s.heap.heap_start + (barrel_start (mem s) node + barrel_count (mem s) node) * 32 in
      byte-turned room fits below low bound (behind + j) (omega (arith, room.apart))
      ∙ blit-in (mem s) behind (s.heap.heap_start + barrel_start (mem s) node * 32)
          ((2 * k + 1) * barrel_size) j (omega arith)

  byte-other :
      (j : ℕ)
      → Apart node 32
          (s.heap.heap_start + barrel_start (mem s) node * barrel_size)
          (barrel_count (mem s) node * barrel_size)
      → j < barrel_count (mem s) node * 32
      → turned room fits below low bound (s.heap.heap_start + barrel_start (mem s) node * 32 + j)
        ≡ mem s (s.heap.heap_start + barrel_start (mem s) node * 32 + j)
  byte-other j own lt =
      let first = s.heap.heap_start + barrel_start (mem s) node * 32 in
      byte-turned room fits below low bound (first + j) (omega arith)
      ∙ byte-blit (mem s)
          (s.heap.heap_start + (barrel_start (mem s) node + barrel_count (mem s) node) * 32) first
          ((2 * k + 1) * barrel_size) (first + j) (omega arith)

  -- The byte `a` of the node, and those behind it in its barrel, at their places in the barrels.
  pub byte-rolled :
      (a b : ℕ)
      → Apart node 32
          (s.heap.heap_start + barrel_start (mem s) node * barrel_size)
          (barrel_count (mem s) node * barrel_size)
      → a < barrel_count (mem s) node * barrel_size
      → a % barrel_size + b < barrel_size
      → turned room fits below low bound (
          s.heap.heap_start
          + (barrel_start (mem s) node + (k + 1)) * 32
          + (a + new_off room fits below low bound * 32) % (barrel_count (mem s) node * 32)
          + b)
        ≡ mem s (
            s.heap.heap_start
            + barrel_start (mem s) node * 32
            + (a + barrel_offset (mem s) node * 32) % (barrel_count (mem s) node * 32)
            + b)
  byte-rolled a b own inside near =
      let count = barrel_count (mem s) node in
      let off = barrel_offset (mem s) node in
      let off' = new_off room fits below low bound in
      let next = next_offset_lem off count k low bound (omega (arith, room.indices)) in
      let r = (a + off * 32) % (count * 32) in
      let near_first = same_barrel a b off count inside bound near in
      let lt : r < count * 32 = mod-lt _ (omega arith) in
      elim (rolled_place a off off' count k inside low bound next) [
        | inl (first, e) ↦
            ap (turned room fits below low bound) (omega (arith, e))
            ∙ byte-first (r + b) (omega (arith, first, near_first))
            ∙ ap (mem s) (omega arith)
        | inr (other, e) ↦
            ap (turned room fits below low bound) (omega (arith, e))
            ∙ byte-other (r + b) own (omega (arith, lt, near_first))
            ∙ ap (mem s) (omega arith)
      ]

  -- Barrel_RollForward by k + 1 barrels keeps the units of a node: Barrel_GetUnitPtr finds every
  -- byte of a unit, as far as it lies in the unit's first barrel, with the value that it had. The
  -- node is of a registered type, has an offset from k + 1 to its number of barrels, 2k + 1
  -- barrels or more, and room behind them, below 2 ^ 64, for as many, which lie apart from the
  -- node, as its own barrels do; and the unit starts in the node.
  pub roll_forward-get_unit_ptr :
      (size i b : ℕ)
      → unit_size s.world node ≡ done size
      → Apart node 32
          (s.heap.heap_start + barrel_start (mem s) node * barrel_size)
          (barrel_count (mem s) node * barrel_size)
      → i * size < barrel_count (mem s) node * barrel_size
      → i * size % barrel_size + b < barrel_size
      → (p q : Word) × (get_unit_ptr s node i ≡ done p)
        × (get_unit_ptr (roll_forward s node (pos (suc k))) node i ≡ done q)
        × (mem (roll_forward s node (pos (suc k))) (q + b) ≡ mem s (p + b))
  roll_forward-get_unit_ptr size i b sized own inside near =
      let start = barrel_start (mem s) node in
      let count = barrel_count (mem s) node in
      let off = barrel_offset (mem s) node in
      let off' = new_off room fits below low bound in
      let small : count < u32_mod = omega (arith, room.indices) in
      let next = next_offset_lem off count k low bound small in
      let p = s.heap.heap_start + start * 32 + (i * size + off * 32) % (count * 32) in
      let q = s.heap.heap_start + (start + (k + 1)) * 32 + (i * size + off' * 32) % (count * 32) in
      let after = roll_forward-turned room fits below low bound in
      (
        p,
        q,
        unit_ptr_at s node i size start count off sized refl refl refl inside bound small
            (omega (arith, room.addresses)),
        ap (λ s'. get_unit_ptr s' node i) after
            ∙ unit_ptr_at (put_mem s (turned room fits below low bound)) node i size
                (start + (k + 1)) count off' (unit_size-turned size sized)
                (turned-start room fits below low bound) (turned-count room fits below low bound)
                (turned-offset room fits below low bound) inside (omega (arith, next)) small
                (omega (arith, room.addresses)),
        ap (λ s'. mem s' (q + b)) after ∙ byte-rolled (i * size) b own inside near,
      )
