-- ===== src/User/NodeUnits.antt =====
-- Units that Collection_WriteSpan writes into a barrel node, found by Barrel_GetUnitPtr.
use barrel_test.Base.{ℕ, ◌+◌, ◌*◌, ◌%◌, ◌≤◌, ◌<◌, ◌≡◌, ◌∙◌, true, arith}
use barrel_test.Base.Int.{u32_mod}
use barrel_test.Base.Run.{done}
use barrel_test.Helpers.{Word}
use barrel_test.Memory.{Mem}
use barrel_test.Memory.Copy.{Movable}
use barrel_test.Memory.Words.{Apart}
use barrel_test.TypeInfo.{Layout, TypeInfo}
use barrel_test.Collection.{CollectionExtensions}
use barrel_test.Barrel.{
  Service, mem, put_mem, barrel_count, barrel_offset, get_head, get_size, get_unit_ptr,
}
use barrel_test.User.{Frame, write_span}
use barrel_test.User.Transcribe.{HasUnits}
use barrel_test.User.Units.{units, span-le, unit-lt, copy_span-in}
use barrel_test.User.Nodes.{NodeAt, node_chunk, get_unit_ptr-node, get_unit_ptr-SameAt}
use barrel_test.User.RawBuckets.{raw_chunk}
use barrel_test.User.Writing.{IsSpanCall, write_span-copy_span, struct-SameAt}

module _ {fuel : ℕ} {layout : Layout} {s : Service} {frame : Frame} {p : Word}
    {e : CollectionExtensions} {t : TypeInfo} {i : ℕ} {head : Word} {n : ℕ} (b : NodeAt s p e t)
    (c : IsSpanCall fuel layout s frame p e t (node_chunk s p) (get_size s p) i head n)
    (own : Apart p 32 (get_head s p) (get_size s p)) where
  -- On a barrel node whose offset is a multiple of its number of barrels, Collection_WriteSpan
  -- leaves every unit of the caller where Barrel_GetUnitPtr then finds the unit of that index. The
  -- call is under the conditions of a span call, with the node's struct apart from its barrels,
  -- the span in the node's memory, and the caller's memory ending before the span or not starting
  -- before it.
  pub write_span-get_unit_ptr :
      (start : ℕ)
      → HasUnits (node_chunk s p) start n t.size
      → Movable (get_head s p + start * t.size) head (n * t.size)
      → barrel_offset (mem s) p % barrel_count (mem s) p ≡ 0
      → barrel_offset (mem s) p < u32_mod
      → (m' : Mem) × (write_span fuel layout frame s p head start n ≡ done (true, put_mem s m'))
        × ((j k : ℕ)
            → j < n
            → k < t.size
            → (q : Word) × (get_unit_ptr (put_mem s m') p (start + j) ≡ done q)
              × (m' (q + k) ≡ mem s (head + j * t.size + k)))
  write_span-get_unit_ptr start has ord turn low =
      let (m', is, free, copied, rest) = write_span-copy_span c start has ord in
      let (front, back) = struct-SameAt c start has m' own rest in
      (
        m',
        is,
        λ j k lt less.
            let fits : (start + j + 1) * t.size ≤ get_size s p =
              omega (arith, span-le t.size start j n lt, has.inside) in
            let inside = unit-lt t.size (get_size s p) (start + j) k fits less in
            (
              get_head s p + (start + j) * t.size,
              get_unit_ptr-SameAt s p m' (start + j) front back
                  ∙ get_unit_ptr-node b (start + j) turn low (omega arith) has.room,
              copied (start + j) k fits less
                  ∙ copy_span-in (units (mem s) (node_chunk s p) t.size)
                      (units (mem s) (raw_chunk t head n) t.size) start n j k lt,
            ),
      )
