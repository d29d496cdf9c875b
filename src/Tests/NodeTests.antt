-- ===== src/Tests/NodeTests.antt =====
-- Units that move between the barrel node at 3000, which has barrels 2 to 6 of the heap, and memory
-- at 5000.
use barrel_test.Base.{
  get_elem?, replicate, ℕ, zero, suc, ◌+◌, ◌*◌, ◌%◌, ◌<◌, ◌≡◌, refl, ap, ◌≢◌, inl, inr, true,
  Option, none, some, ◌∷◌, arith,
}
use barrel_test.Base.Run.{done}
use barrel_test.Memory.{Mem}
use barrel_test.Memory.Copy.{Movable}
use barrel_test.Memory.Words.{Apart}
use barrel_test.Collection.{
  World, CollectionExtensions, no_extensions, bucket_methods_ptr, barrel_extensions_ptr,
  extensions_at,
}
use barrel_test.Barrel.{
  Service, put_mem, get_unit_ptr, get_head, get_size, barrel_count, barrel_offset,
}
use barrel_test.User.{write_span}
use barrel_test.User.Transcribe.{HasUnits}
use barrel_test.User.Nodes.{NodeAt, node_chunk, node-ChunkAt}
use barrel_test.User.RawBuckets.{IsRegistered, raw_chunk}
use barrel_test.User.Spans.{IsClear, IsPlaced}
use barrel_test.User.Writing.{IsSpanCall}
use barrel_test.User.NodeUnits.{write_span-get_unit_ptr}
use barrel_test.Tests.Fixtures.{world, service, layout, frame, struct_mem, int_type, int_extensions}

abbrev node_extensions : CollectionExtensions
node_extensions = record int_extensions { methods = barrel_extensions_ptr }

abbrev node_world : World
node_world = record world {
  extensions = node_extensions ∷ int_extensions ∷ replicate 30 no_extensions;
  extension_count = 2;
}

abbrev node_service : Service
node_service = record service { world = node_world }

methods_of : Option CollectionExtensions → ℕ
methods_of none = 0
methods_of (some e) = e.methods

other_methods : barrel_extensions_ptr ≢ bucket_methods_ptr
other_methods = omega arith

two_entries :
    (i j : ℕ)
    → i < j
    → j < 2
    → get_elem? node_world.extensions i ≢ get_elem? node_world.extensions j
unfolding methods_of
two_entries zero zero lt lt' = absurd (omega arith)
two_entries zero (suc zero) lt lt' = λ e. other_methods (ap methods_of e)
two_entries zero (suc (suc j)) lt lt' = absurd (omega arith)
two_entries (suc i) zero lt lt' = absurd (omega arith)
two_entries (suc i) (suc zero) lt lt' = absurd (omega arith)
two_entries (suc i) (suc (suc j)) lt lt' = absurd (omega arith)

raw_known : IsRegistered node_service 1 node_extensions
raw_known = record {
  valid = record { slots = refl; room = omega arith; distinct = two_entries };
  used = omega arith;
  entry = refl;
}

at_node : NodeAt node_service 3000 node_extensions int_type
unfolding extensions_at barrel_test.Memory.Words.load64
at_node = record {
  some_node = omega arith;
  extensions = refl;
  methods = refl;
  type = refl;
  small = omega arith;
}

clear :
    (x n : ℕ)
    → Apart 3012 4 x n
    → Apart 4112 4 x n
    → Apart 4200 16 x n
    → Apart 4300 16 x n
    → IsClear 3000 4100 frame x n
clear x n a b c d = record { lock_p = a; lock_q = b; local_trg = c; local_src = d }

node_apart : IsPlaced 3000 4100 frame (node_chunk node_service 3000) (raw_chunk int_type 5000 2)
unfolding get_head get_size barrel_test.Memory.Words.load32
node_apart = record {
  apart = omega arith;
  front_p = clear 3000 8 (omega arith) (omega arith) (omega arith) (omega arith);
  back_p = clear 3016 16 (omega arith) (omega arith) (omega arith) (omega arith);
  front_q = clear 4100 8 (omega arith) (omega arith) (omega arith) (omega arith);
  back_q = clear 4116 16 (omega arith) (omega arith) (omega arith) (omega arith);
  trg_units = clear 100064 160 (omega arith) (omega arith) (omega arith) (omega arith);
  src_units = clear 5000 8 (omega arith) (omega arith) (omega arith) (omega arith);
}

node_call :
    IsSpanCall 1 layout node_service frame 3000 node_extensions int_type
      (node_chunk node_service 3000)
      (get_size node_service 3000)
      1
      5000
      2
unfolding get_head get_size barrel_test.Memory.Words.load32
node_call = record {
  at = node-ChunkAt at_node 1 layout;
  known = raw_known;
  writable = refl;
  unlocked = refl;
  placed = node_apart;
  raw_units = omega arith;
  raw_memory = omega arith;
  some_raw = omega arith;
  some_head = omega arith;
  room = omega arith;
  some_chunk = omega arith;
  some_unit = omega arith;
  few = omega arith;
}

two_units : HasUnits (node_chunk node_service 3000) 1 2 4
unfolding get_head get_size barrel_test.Memory.Words.load32
two_units = record { indices = omega arith; inside = omega arith; room = omega arith }

own_barrels : Apart 3000 32 (get_head node_service 3000) (get_size node_service 3000)
unfolding get_head get_size barrel_test.Memory.Words.load32
own_barrels = inl (omega arith)

behind_source : Movable (get_head node_service 3000 + 1 * 4) 5000 (2 * 4)
unfolding get_head get_size barrel_test.Memory.Words.load32
behind_source = inr (omega arith)

full_turn :
    (barrel_offset struct_mem 3000 % barrel_count struct_mem 3000 ≡ 0)
    × (barrel_offset struct_mem 3000 < 4294967296)
unfolding barrel_test.Memory.Words.load32
full_turn = (refl, omega arith)

write_span-get_unit_ptr_example :
    (m' : Mem) × (write_span 1 layout frame node_service 3000 5000 1 2
      ≡ done (true, put_mem node_service m'))
    × ((j k : ℕ)
        → j < 2
        → k < 4
        → (q : ℕ) × (get_unit_ptr (put_mem node_service m') 3000 (1 + j) ≡ done q)
          × (m' (q + k) ≡ struct_mem (5000 + j * 4 + k)))
write_span-get_unit_ptr_example =
    write_span-get_unit_ptr at_node node_call own_barrels 1 two_units behind_source full_turn.0
      full_turn.1
