-- ===== src/User/Made.antt =====
-- A barrel node that Barrel_NodeCtor makes from an array, read back by Collection_ReadSpan.
use barrel_test.Base.{ℕ, ◌+◌, ◌*◌, ◌^◌, ◌≤◌, ◌<◌, ◌≡◌, refl, ap, ◌∙◌, ◌≢◌, true, some, arith}
use barrel_test.Base.Int.{mul64}
use barrel_test.Base.Run.{done}
use barrel_test.Helpers.{Word}
use barrel_test.Memory.{Mem}
use barrel_test.Memory.Copy.{Movable}
use barrel_test.TypeInfo.{Layout, TypeInfo}
use barrel_test.Heap.{remaining}
use barrel_test.Barrel.{Service, mem, put_mem, get_head, get_size}
use barrel_test.Barrel.Making.{node_ctor, double_loop}
use barrel_test.Barrel.Making.Filling.{
  CanMake, made, asked, extensions-made, type-made, made-fields, made-byte, node_ctor-made,
  in_units,
}
use barrel_test.User.{Frame, read_span}
use barrel_test.User.Transcribe.{HasUnits}
use barrel_test.User.Units.{units}
use barrel_test.User.Nodes.{NodeAt, node_chunk}
use barrel_test.User.RawBuckets.{raw_chunk}
use barrel_test.User.Writing.{IsSpanCall, read_span-copy_span}

module _ {s : Service} {t : TypeInfo} {type loc src : Word} {flags cap start i : ℕ}
    (can : CanMake s t type loc src flags cap start i) (n : ℕ) (enough : t.size * cap ≤ n * 32)
    (few : n ≤ 2 ^ 30) where
  pub made-NodeAt : loc ≢ 0 → NodeAt (made can n enough few) loc (asked can n enough few) t
  made-NodeAt ne = record {
    some_node = ne;
    extensions = extensions-made can n enough few;
    methods = refl;
    type = type-made can n enough few;
    small = (let c = (made-fields can n enough few).1 in omega (arith, c, few));
  }

  pub get_head-made : get_head (made can n enough few) loc ≡ s.heap.heap_start + start * 32
  unfolding get_head
  get_head-made = let c = (made-fields can n enough few).0 in omega (arith, c, can.early, can.low)

  pub get_size-made : get_size (made can n enough few) loc ≡ n * 32
  unfolding get_size
  get_size-made = let c = (made-fields can n enough few).1 in omega (arith, c)

  -- What Barrel_NodeCtor copies into a node Collection_ReadSpan reads back. The call can make the
  -- node, and its doubling loop stops at `n` barrels, enough for the units; reading all of them
  -- meets the conditions of a span call on the node made, with memory that starts behind the node's
  -- barrels or does not start behind their start. Then the node is made, the read answers true, and
  -- the memory read into holds the units of the array that the node was made from.
  pub node_ctor-read_span :
      {fuel' : ℕ} {layout : Layout} {frame : Frame} {i' : ℕ} {head : Word} (fuel : ℕ)
      → double_loop fuel 1 (mul64 t.size cap) (remaining s.heap) ≡ some n
      → IsSpanCall fuel' layout
          (made can n enough few)
          frame
          loc
          (asked can n enough few)
          t
          (node_chunk (made can n enough few) loc)
          (get_size (made can n enough few) loc)
          i'
          head
          cap
      → Movable head (s.heap.heap_start + start * 32) (cap * t.size)
      → (s' : Service) × (m' : Mem) × (node_ctor fuel s type loc src flags cap start ≡ done s')
        × (read_span fuel' layout frame s' loc head 0 cap ≡ done (true, put_mem s' m'))
        × ((j k : ℕ)
            → j < cap
            → k < t.size
            → units m' (raw_chunk t head cap) t.size j k ≡ mem s (src + j * t.size + k))
  node_ctor-read_span fuel found call ord =
      let h = get_head-made in
      let size = get_size-made in
      let z : 0 * t.size ≡ 0 = grind arith in
      let swap : t.size * cap ≡ cap * t.size = grind arith in
      let all : (0 + cap) * t.size ≡ cap * t.size = grind arith in
      let has : HasUnits (node_chunk (made can n enough few) loc) 0 cap t.size = record {
        indices = omega (arith, can.few);
        inside = omega (arith, size, all, swap, enough);
        room = omega (arith, h, size, can.early, can.low, few);
      } in
      let (m', is, free, read) = read_span-copy_span call 0 has (omega (arith, h, z, ord)) in
      (
        made can n enough few,
        m',
        node_ctor-made can n enough few fuel found,
        is,
        λ j k lt low.
            let same : (0 + j) * t.size ≡ j * t.size = grind arith in
            read j k lt low
            ∙ ap (mem (made can n enough few)) (omega (arith, h, same))
            ∙ made-byte can n enough few (j * t.size + k) (in_units j cap t.size k lt low)
            ∙ ap (mem s) (omega arith),
      )
