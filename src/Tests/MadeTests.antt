-- ===== src/Tests/MadeTests.antt =====
-- The node of three units that is made at 3000 from the units at 5000, read back to 6000.
use barrel_test.Base.{ℕ, ◌+◌, ◌*◌, ◌^◌, ◌≤◌, ◌<◌, ◌≡◌, refl, ◌⊎◌, inl, true, some, arith}
use barrel_test.Base.Int.{mul64}
use barrel_test.Base.Run.{done}
use barrel_test.Memory.{Mem}
use barrel_test.Heap.{remaining}
use barrel_test.Bucket.{created_flags}
use barrel_test.Collection.{
  get_extensions, extension_scan, compare, answer_extensions, extensions_create,
  barrel_extensions_ptr,
}
use barrel_test.Collection.Registry.{IsValid, get_extensions-IsValid}
use barrel_test.Barrel.{Service, put_mem, get_head, get_size}
use barrel_test.Barrel.Making.{node_ctor, double_loop}
use barrel_test.Barrel.Making.Filling.{made, asked, made-fields}
use barrel_test.User.{read_span}
use barrel_test.User.Units.{units}
use barrel_test.User.Nodes.{node_chunk, node-ChunkAt}
use barrel_test.User.RawBuckets.{IsRegistered, raw_chunk}
use barrel_test.User.Spans.{IsClear, IsPlaced}
use barrel_test.User.Writing.{IsSpanCall}
use barrel_test.User.Made.{made-NodeAt, get_head-made, get_size-made, node_ctor-read_span}
use barrel_test.Tests.Fixtures.{world, service, layout, frame, struct_mem, int_type}
use barrel_test.Tests.MakingTests.{three_ints, one_entry}

one_barrel_is_enough : 4 * 3 ≤ 1 * 32
one_barrel_is_enough = omega arith

one_barrel_is_few : 1 ≤ 2 ^ 30
one_barrel_is_few = omega arith

abbrev made_service : Service
made_service = made three_ints 1 one_barrel_is_enough one_barrel_is_few

head_place : get_head made_service 3000 ≡ 100000 + 2 * 32
head_place = get_head-made three_ints 1 one_barrel_is_enough one_barrel_is_few

one_barrel_size : get_size made_service 3000 ≡ 1 * 32
one_barrel_size = get_size-made three_ints 1 one_barrel_is_enough one_barrel_is_few

still-IsValid : IsValid (get_extensions world 1 barrel_extensions_ptr (created_flags 0)).1
still-IsValid = get_extensions-IsValid 1 barrel_extensions_ptr (created_flags 0) one_entry

raw_entry : IsRegistered made_service 0 (asked three_ints 1 one_barrel_is_enough one_barrel_is_few)
unfolding get_extensions extension_scan compare answer_extensions extensions_create created_flags
raw_entry = record {
  valid = record {
    slots = still-IsValid.slots;
    room = still-IsValid.room;
    distinct = still-IsValid.distinct;
  };
  used = omega arith;
  entry = refl;
}

clear :
    (x n : ℕ)
    → (x + n ≤ 3012) ⊎ (3016 ≤ x)
    → (x + n ≤ 4112) ⊎ (4116 ≤ x)
    → (x + n ≤ 4200) ⊎ (4216 ≤ x)
    → (x + n ≤ 4300) ⊎ (4316 ≤ x)
    → IsClear 3000 4100 frame x n
clear x n a b c d = record {
  lock_p = omega arith;
  lock_q = omega arith;
  local_trg = omega arith;
  local_src = omega arith;
}

all_clear : IsPlaced 3000 4100 frame (node_chunk made_service 3000) (raw_chunk int_type 6000 3)
all_clear =
    let h = head_place in
    let z = one_barrel_size in
    record {
      apart = omega arith;
      front_p = clear 3000 8 (omega arith) (omega arith) (omega arith) (omega arith);
      back_p = clear 3016 16 (omega arith) (omega arith) (omega arith) (omega arith);
      front_q = clear 4100 8 (omega arith) (omega arith) (omega arith) (omega arith);
      back_q = clear 4116 16 (omega arith) (omega arith) (omega arith) (omega arith);
      trg_units =
          clear (get_head made_service 3000) (get_size made_service 3000) (omega (arith, h, z))
            (omega (arith, h, z)) (omega (arith, h, z)) (omega (arith, h, z));
      src_units = clear 6000 12 (omega arith) (omega arith) (omega arith) (omega arith);
    }

read_call :
    IsSpanCall 1 layout made_service frame 3000
      (asked three_ints 1 one_barrel_is_enough one_barrel_is_few)
      int_type
      (node_chunk made_service 3000)
      (get_size made_service 3000)
      0
      6000
      3
unfolding created_flags
read_call =
    let h = head_place in
    let z = one_barrel_size in
    record {
      at =
          node-ChunkAt
            (made-NodeAt three_ints 1 one_barrel_is_enough one_barrel_is_few (omega arith)) 1
            layout;
      known = raw_entry;
      writable = refl;
      unlocked = (made-fields three_ints 1 one_barrel_is_enough one_barrel_is_few).4;
      placed = all_clear;
      raw_units = omega (arith, h, z);
      raw_memory = omega arith;
      some_raw = omega arith;
      some_head = omega arith;
      room = omega arith;
      some_chunk = omega (arith, h);
      some_unit = omega arith;
      few = omega arith;
    }

loop_stops : double_loop 1 1 (mul64 4 3) (remaining service.heap) ≡ some 1
unfolding double_loop remaining
loop_stops = refl

node_ctor-read_span_example :
    (s' : Service) × (m' : Mem) × (node_ctor 1 service 1 3000 5000 0 3 2 ≡ done s')
    × (read_span 1 layout frame s' 3000 6000 0 3 ≡ done (true, put_mem s' m'))
    × ((j k : ℕ)
        → j < 3
        → k < 4
        → units m' (raw_chunk int_type 6000 3) 4 j k ≡ struct_mem (5000 + j * 4 + k))
node_ctor-read_span_example =
    node_ctor-read_span three_ints 1 one_barrel_is_enough one_barrel_is_few 1 loop_stops read_call
      (inl (omega arith))
