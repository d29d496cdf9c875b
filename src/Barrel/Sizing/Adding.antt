-- ===== src/Barrel/Sizing/Adding.antt =====
-- A barrel more for Omegus: Barrel_NextAvailableNodeIx on a chain of nodes, by Barrel_DeltaSize,
-- Barrel_Roll and Barrel_Grow.
use barrel_test.Base.{
  ==_refl, length, All, ℕ, ◌+◌, ◌*◌, ◌%◌, ◌^◌, ◌≤◌, ◌<◌, ◌≡◌, refl, ap, ◌∙◌, true, false, List, ◌∷◌,
  map, arith,
}
use barrel_test.Base.Int.{pos, ltb_ℤ, u32_mod, to_int, sub64, mul64}
use barrel_test.Base.Run.{done}
use barrel_test.Helpers.{Word}
use barrel_test.Memory.{Mem, barrel_size}
use barrel_test.Memory.Words.{
  Apart, SameAt, store32, byte-store32, load32-store32, load32-store32-Apart, load32-SameAt,
}
use barrel_test.TypeInfo.{Layout}
use barrel_test.Heap.{remaining}
use barrel_test.Collection.{count_of, unit_size}
use barrel_test.Barrel.{
  Service, mem, put_mem, barrel_count, barrel_offset, next_node, none_index, omega_index, get_node,
}
use barrel_test.Barrel.Moves.{grow}
use barrel_test.Barrel.Rolling.{roll}
use barrel_test.Barrel.Rolling.Chains.{Walk}
use barrel_test.Barrel.Rolling.Places.{Node, Reads, Held}
use barrel_test.Barrel.Rolling.Keeps.{All-map, Placed, roll-Held, Held-SameAt}
use barrel_test.Barrel.Sizing.{
  barrel_delta, bytes_of, roll_rest, grow_last, resize_by, delta_node, next_available_node_ix,
  fresh_index,
}

-- Omegus has `c` barrels, one for each node and none left; its chain starts with `n`, and it lies
-- apart from the nodes and their barrels, with the one behind them.
pub record IsFull (layout : Layout) (s : Service) (c : ℕ) (n : Node) (ns : List Node) : Type 0 where
  pub none_free : ltb_ℤ s.next_available (pos 0) ≡ true
  pub sized : unit_size s.world layout.omegus ≡ done 32
  pub nodes : count_of (mem s) layout.omegus ≡ c
  pub barrels : barrel_count (mem s) layout.omegus ≡ c
  pub offset : barrel_offset (mem s) layout.omegus ≡ c
  pub small : c < 2 ^ 31
  pub linked : ltb_ℤ none_index (next_node (mem s) layout.omegus) ≡ true
  pub first : get_node layout s (next_node (mem s) layout.omegus) ≡ n.ptr
  pub outside :
      All
        (λ q.
          Apart layout.omegus 32 q.ptr 32
          × Apart layout.omegus 32 (s.heap.heap_start + q.start * 32) ((q.count + 1) * 32))
        (n ∷ ns)

-- Barrel_Grow of a node that is not turned stores its count and its offset.
grow_flat :
    (s : Service) (p : Word) (c : ℕ)
    → barrel_count (mem s) p ≡ c
    → barrel_offset (mem s) p ≡ c
    → c < 2 ^ 31
    → grow s p 1 ≡ put_mem s (store32 (store32 (mem s) (p + 16) (c + 1)) (p + 20) (c + 1))
unfolding grow
grow_flat s p c count off small =
    let e : (c + 1) % u32_mod ≡ c + 1 = omega arith in rw (count, off, ==_refl c, e) refl

-- Barrel_DeltaSize of one unit of 32 bytes, with no byte free.
one_barrel : barrel_delta (pos 1) (bytes_of (pos 1) 32) 0 ≡ pos 1
unfolding barrel_delta
one_barrel = refl

module _ {layout : Layout} {s : Service} {c : ℕ} {n : Node} {ns : List Node}
    (full : IsFull layout s c n ns) where
  resize_by-rolled :
      (fuel : ℕ) (m' : Mem)
      → roll fuel layout s n.ptr (pos 1) ≡ done (true, put_mem s m')
      → SameAt layout.omegus 32 (mem s) m'
      → resize_by fuel layout s layout.omegus (pos 1)
        ≡ done (true, grow (put_mem s m') layout.omegus 1)
  unfolding resize_by roll_rest grow_last
  resize_by-rolled fuel m' is same =
      let next : next_node m' layout.omegus ≡ next_node (mem s) layout.omegus = ap to_int (
        load32-SameAt (mem s) m' (layout.omegus + 28)
          (λ b lo hi. same b (omega arith) (omega arith))) in
      rw (full.linked, full.first, is, next, full.linked) refl

  none_left : sub64 (c * barrel_size) (mul64 c 32) ≡ 0
  none_left = omega (arith, full.small)

  delta_node-resize_by :
      (fuel : ℕ)
      → delta_node fuel layout s layout.omegus (pos 1)
        ≡ resize_by fuel layout s layout.omegus (pos 1)
  unfolding delta_node
  delta_node-resize_by fuel =
      rw (full.sized, full.barrels, full.nodes, none_left)
        (ap (λ d. resize_by fuel layout s layout.omegus d) one_barrel)

  -- Barrel_NextAvailableNodeIx on a chain of free nodes, with no free index, answers the number of
  -- nodes as the new index: Omegus has one barrel and one place more, and every node of the chain
  -- gave up its first barrel and took one behind its last, and holds byte for byte what it held.
  -- Omegus has as many barrels as nodes, is not turned, leads to the chain and lies apart from it;
  -- the heap has room for a barrel, the fuel suffices for the chain, and the nodes are placed as
  -- for a roll: each with an offset from 1 to its number of barrels, its barrels behind those of
  -- the nodes in front of it, and nodes and barrels apart.
  pub next_available_node_ix-Held :
      (fuel : ℕ) {z : Word}
      → Walk layout s n.ptr (map (λ q. q.ptr) ns) z
      → ltb_ℤ omega_index (next_node (mem s) z) ≡ false
      → length ns < fuel
      → barrel_size ≤ remaining s.heap
      → All (Reads (mem s)) (n ∷ ns)
      → Placed s.heap.heap_start (n ∷ ns)
      → (m' : Mem) × (next_available_node_ix fuel layout s ≡ done (pos c, put_mem s m'))
        × (barrel_count m' layout.omegus ≡ c + 1)
        × (barrel_offset m' layout.omegus ≡ c + 1)
        × All (Held s.heap.heap_start (mem s) m') (n ∷ ns)
  unfolding next_available_node_ix fresh_index
  next_available_node_ix-Held fuel walk end enough room reads placed =
      let h = s.heap.heap_start in
      let (m1, is, held, frame) = roll-Held fuel n ns walk end enough room reads placed in
      let p = layout.omegus in
      let same : SameAt p 32 (mem s) m1 = λ b lo hi. frame b (
        All-map (n ∷ ns) (λ q x y. let a = x.0 in let d = x.1 in (omega arith, omega arith))
          full.outside full.outside) in
      let count : barrel_count m1 p ≡ c =
        load32-SameAt (mem s) m1 (p + 16) (λ b lo hi. same b (omega arith) (omega arith))
        ∙ full.barrels in
      let off : barrel_offset m1 p ≡ c =
        load32-SameAt (mem s) m1 (p + 20) (λ b lo hi. same b (omega arith) (omega arith))
        ∙ full.offset in
      let m2 = store32 m1 (p + 16) (c + 1) in
      let m3 = store32 m2 (p + 20) (c + 1) in
      let grown = grow_flat (put_mem s m1) p c count off full.small in
      let byte : (b : ℕ) → Apart p 32 b 1 → m3 b ≡ m1 b = λ b apart.
        byte-store32 m2 (p + 20) (c + 1) b (omega arith)
        ∙ byte-store32 m1 (p + 16) (c + 1) b (omega arith) in
      let index : to_int c ≡ pos c = let lt = full.small in ground arith in
      (
        m3,
        rw
            (
              full.none_free,
              delta_node-resize_by fuel,
              resize_by-rolled fuel m1 is same,
              grown,
              full.nodes,
            )
            (ap (λ ix. done (ix, put_mem s m3)) index),
        load32-store32-Apart m2 (p + 20) (p + 16) (c + 1) (omega arith)
            ∙ load32-store32 m1 (p + 16) (c + 1) (omega (arith, full.small)),
        load32-store32 m2 (p + 20) (c + 1) (omega (arith, full.small)),
        All-map (n ∷ ns)
            (λ q x y.
              let a = x.0 in
              let d = x.1 in
              Held-SameAt h (mem s) m1 m3 q (λ b lo hi. byte b (omega arith))
                (λ b lo hi. byte b (omega arith)) y)
            full.outside held,
      )
