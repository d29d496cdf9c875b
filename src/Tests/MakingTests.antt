-- ===== src/Tests/MakingTests.antt =====
-- A node of three units made at 3000, from the units at 5000.
use barrel_test.Base.{◌==◌, if◌then◌else◌, ℕ, ◌+◌, ◌*◌, ◌≤◌, ◌<◌, ◌≡◌, refl, inr, arith}
use barrel_test.Base.Int.{pos}
use barrel_test.Base.Run.{done}
use barrel_test.Heap.{remaining}
use barrel_test.Bucket.{created_flags}
use barrel_test.Collection.{
  lock_of, get_extensions, extension_scan, compare, answer_extensions, extensions_create,
  barrel_extensions_ptr, count_of,
}
use barrel_test.Collection.Registry.{IsValid}
use barrel_test.Barrel.{
  Service, mem, barrel_count, barrel_start, barrel_offset, next_node, none_index, get_unit_ptr,
  put_mem, get_node,
}
use barrel_test.Barrel.Making.{node_ctor, attach}
use barrel_test.Barrel.Making.Attaching.{
  linked, new_node, end_barrel, CanAttach, attach-get_unit_ptr,
}
use barrel_test.Memory.{Mem}
use barrel_test.Barrel.Making.Filling.{CanMake, node_ctor-get_unit_ptr}
use barrel_test.Tests.Fixtures.{layout, world, service, struct_mem, int_type}

pub one_entry : IsValid world
one_entry = record {
  slots = refl;
  room = omega arith;
  distinct = λ i j lt lt'. absurd (omega arith);
}

new_entry : (get_extensions world 1 barrel_extensions_ptr (created_flags 0)).0 ≡ 2
unfolding get_extensions extension_scan compare answer_extensions extensions_create created_flags
new_entry = refl

one_page : remaining service.heap ≤ 6400
unfolding remaining
one_page = omega arith

page_left : 12 ≤ remaining service.heap
unfolding remaining
page_left = omega arith

pub three_ints : CanMake service int_type 1 3000 5000 0 3 2 1
three_ints = record {
  typed = refl;
  some_size = omega arith;
  filled = refl;
  valid = one_entry;
  slot = omega arith;
  known = new_entry;
  some_source = omega arith;
  few = omega arith;
  fits = page_left;
  small = omega arith;
  early = omega arith;
  low = omega arith;
  node_out = omega arith;
  source_out = omega arith;
  order = inr (omega arith);
}

node_ctor-get_unit_ptr_example :
    (n : ℕ) × (s' : Service) × (node_ctor 6401 service 1 3000 5000 0 3 2 ≡ done s')
    × (4 * 3 ≤ n * 32)
    × ((barrel_start (mem s') 3000 ≡ 2)
        × (barrel_count (mem s') 3000 ≡ n)
        × (barrel_offset (mem s') 3000 ≡ n)
        × (next_node (mem s') 3000 ≡ none_index)
        × (lock_of (mem s') 3000 ≡ 0))
    × ((j k : ℕ)
        → j < 3
        → k < 4
        → (q : ℕ) × (get_unit_ptr s' 3000 j ≡ done q)
          × (mem s' (q + k) ≡ struct_mem (5000 + j * 4 + k)))
node_ctor-get_unit_ptr_example = node_ctor-get_unit_ptr three_ints 6400 one_page

-- Omegus, at 500, has one barrel and no node.
abbrev empty_mem : Mem
empty_mem b = if b == 516 then 1 else struct_mem b

abbrev empty_service : Service
empty_service = put_mem service empty_mem

new_entry_managed :
    (get_extensions
      (linked layout empty_service (pos 0) 500).world
      1
      barrel_extensions_ptr
      (created_flags 16)).0
    ≡ 2
unfolding get_extensions extension_scan compare answer_extensions extensions_create created_flags
new_entry_managed = refl

one_entry_now : IsValid (linked layout empty_service (pos 0) 500).world
one_entry_now = record {
  slots = refl;
  room = omega arith;
  distinct = λ i j lt lt'. absurd (omega arith);
}

first_node : new_node layout empty_service (pos 0) 500 ≡ 100000
unfolding get_node barrel_test.Memory.Words.load32 barrel_test.Memory.Words.store32
    barrel_test.Memory.write
first_node = refl

can_append : CanAttach layout empty_service int_type 1 5000 500 0 3 1 0
unfolding get_node barrel_test.Memory.Words.load32 barrel_test.Memory.Words.store32
    barrel_test.Memory.write
can_append = record {
  some_node = omega arith;
  can = record {
    typed = refl;
    some_size = omega arith;
    filled = refl;
    valid = one_entry_now;
    slot = omega arith;
    known = new_entry_managed;
    some_source = omega arith;
    few = omega arith;
    fits = page_left;
    small = omega arith;
    early = omega arith;
    low = omega arith;
    node_out = omega arith;
    source_out = omega arith;
    order = inr (omega arith);
  };
  apart = omega arith;
  last_out = omega arith;
  last_units = omega arith;
  last_source = omega arith;
  omegus_out = omega arith;
  omegus_units = omega arith;
  omegus_source = omega arith;
  few_nodes = omega arith;
  small = omega arith;
}

attach-get_unit_ptr_example :
    (s' : Service) × (attach 6401 layout empty_service 1 5000 0 3 (pos 0) 500
      ≡ done (new_node layout empty_service (pos 0) 500, s'))
    × (s'.last_physical ≡ pos 0)
    × (next_node (mem s') 500 ≡ pos 0)
    × (barrel_start (mem s') (new_node layout empty_service (pos 0) 500)
        ≡ end_barrel empty_service 500)
    × (count_of (mem s') 500 ≡ count_of empty_mem 500 + 1)
    × ((j k : ℕ)
        → j < 3
        → k < 4
        → (q : ℕ) × (get_unit_ptr s' (new_node layout empty_service (pos 0) 500) j ≡ done q)
          × (mem s' (q + k) ≡ empty_mem (5000 + j * 4 + k)))
attach-get_unit_ptr_example =
    attach-get_unit_ptr layout empty_service 500 0 0 6400 can_append one_page
