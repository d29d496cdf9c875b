-- ===== src/Tests/ChainTests.antt =====
-- A chain of two nodes, at the start of a heap that is full, and the two nodes closed to a ring.
use barrel_test.Barrel.Rolling.Chains.{one, more, Walk, rolled, roll-rolled}
use barrel_test.Base.{
  ltb, ◌==◌, if◌then◌else◌, replicate, All, ℕ, ◌*◌, ◌%◌, ◌≤◌, ◌<◌, ◌≡◌, refl, true, false, ◌&&◌, [],
  ◌∷◌, arith,
}
use barrel_test.Base.Int.{pos, ltb_ℤ}
use barrel_test.Base.Run.{done, spins}
use barrel_test.Memory.{Mem}
use barrel_test.Collection.{
  lock_of, World, CollectionExtensions, no_extensions, barrel_extensions_ptr, unit_size,
}
use barrel_test.Barrel.{
  Service, mem, put_mem, next_node, get_node, omega_index, barrel_count, barrel_offset,
}
use barrel_test.Barrel.Rolling.{roll}
use barrel_test.Barrel.Rolling.Waits.{roll-leaks_chain, roll-cycle}
use barrel_test.Barrel.Rolling.Places.{Node, Reads, Fits, Held, Clear}
use barrel_test.Barrel.Rolling.Keeps.{Before, Placed, roll-Held}
use barrel_test.Barrel.Sizing.{next_available_node_ix}
use barrel_test.Barrel.Sizing.Adding.{IsFull, next_available_node_ix-Held}
use barrel_test.TypeInfo.{TypeInfo, no_type}
use barrel_test.Heap.{remaining}
use barrel_test.Tests.Fixtures.{service, layout, world, bins, int_type, int_name, int_extensions}

-- Omegus has two nodes, one with barrels 2 to 4 and offset 1, one with barrels 6, 7 and offset 2; the first leads to the second, and the second, in `ring_mem`, back to the first.
abbrev chain_mem : Mem
chain_mem b =
    if b == 500
    then 2
    else if b == 508
    then 2
    else if b == 516
    then 2
    else if b == 520
    then 2
    else if b == 100016
    then 3
    else if b == 100020
    then 1
    else if b == 100024
    then 2
    else if b == 100028
    then 1
    else if b == 100048
    then 2
    else if b == 100052
    then 2
    else if b == 100056
    then 6
    else if ltb 100059 b && ltb b 100064
    then 255
    else if ltb b 100064
    then 0
    else b % 256

abbrev ring_mem : Mem
ring_mem b = if b == 508 then 2 else if b == 100028 then 1 else 0

-- The type of nodes, of 32 bytes, and the extensions of Omegus.
abbrev node_type : TypeInfo
node_type = record { name = int_name; size = 32; null_loc = 0 }

abbrev node_extensions : CollectionExtensions
node_extensions = record { type = 2; methods = barrel_extensions_ptr; mem_flags = 2 }

abbrev chain_world : World
chain_world = record world {
  bins = record bins {
    types = int_type ∷ node_type ∷ replicate 30 no_type;
    type_count = 2;
    mem = chain_mem;
  };
  extensions = int_extensions ∷ node_extensions ∷ replicate 30 no_extensions;
  extension_count = 2;
}

abbrev chain_service : Service
chain_service = record service { world = chain_world }

abbrev ring_service : Service
ring_service = put_mem service ring_mem

two_linked : Walk layout chain_service 100000 (100032 ∷ []) 100032
unfolding barrel_test.Memory.Words.load32 get_node
two_linked =
    more
      (record {
        some_node = omega arith;
        unlocked = refl;
        apart = (omega arith, tt);
        outside = omega arith;
      })
      refl refl
      (one (record { some_node = omega arith; unlocked = refl; apart = tt; outside = omega arith }))

ring_linked : Walk layout ring_service 100000 (100032 ∷ []) 100032
unfolding barrel_test.Memory.Words.load32 get_node
ring_linked =
    more
      (record {
        some_node = omega arith;
        unlocked = refl;
        apart = (omega arith, tt);
        outside = omega arith;
      })
      refl refl
      (one (record { some_node = omega arith; unlocked = refl; apart = tt; outside = omega arith }))

chain_end : ltb_ℤ omega_index (next_node chain_mem 100032) ≡ false
unfolding barrel_test.Memory.Words.load32
chain_end = refl

ring_end : ltb_ℤ omega_index (next_node ring_mem 100032) ≡ true
unfolding barrel_test.Memory.Words.load32
ring_end = refl

ring_next : get_node layout ring_service (next_node ring_mem 100032) ≡ 100000
unfolding barrel_test.Memory.Words.load32 get_node
ring_next = refl

full_heap : remaining (service.heap) < 200 * 32
unfolding remaining
full_heap = omega arith

roll-rolled_test :
    roll 2 layout chain_service 100000 (pos 1) ≡ done (rolled chain_service 100000 (100032 ∷ []) 0)
roll-rolled_test = roll-rolled 2 0 two_linked chain_end (omega arith)

roll-leaks_chain_example :
    (s' : Service) × (roll 2 layout chain_service 100000 (pos 200) ≡ done (false, s'))
    × All (λ q. lock_of (mem s') q ≡ 1) (100000 ∷ 100032 ∷ [])
    × (roll 5 layout s' 100000 (pos 1) ≡ spins)
roll-leaks_chain_example =
    roll-leaks_chain 2 4 199 (pos 1) two_linked chain_end (omega arith) full_heap refl

roll-cycle_example : roll 7 layout ring_service 100000 (pos 3) ≡ spins
roll-cycle_example = roll-cycle 7 0 2 100000 ring_linked ring_end ring_next refl (omega arith)

abbrev node_0 : Node
node_0 = record { ptr = 100000; start = 2; count = 3; offset = 1 }

abbrev node_1 : Node
node_1 = record { ptr = 100032; start = 6; count = 2; offset = 2 }

two_fields : All (Reads chain_mem) (node_0 ∷ node_1 ∷ [])
unfolding barrel_test.Memory.Words.load32
two_fields = (
  record { start = refl; count = refl; offset = refl },
  (record { start = refl; count = refl; offset = refl }, tt),
)

first_inside : Fits 100000 node_0
first_inside = record {
  low = omega arith;
  bound = omega arith;
  indices = omega arith;
  addresses = omega arith;
  own = omega arith;
}

second_inside : Fits 100000 node_1
second_inside = record {
  low = omega arith;
  bound = omega arith;
  indices = omega arith;
  addresses = omega arith;
  own = omega arith;
}

in_order : Before 100000 node_0 node_1
in_order = record {
  structs = omega arith;
  first_out = omega arith;
  second_out = omega arith;
  order = omega arith;
}

two_apart : Placed 100000 (node_0 ∷ node_1 ∷ [])
two_apart = (first_inside, (in_order, tt), (second_inside, tt, tt))

one_page : 32 ≤ remaining (service.heap)
unfolding remaining
one_page = omega arith

roll-Held_example :
    (m' : Mem) × (roll 2 layout chain_service 100000 (pos 1)
      ≡ done (true, put_mem chain_service m'))
    × All (Held 100000 chain_mem m') (node_0 ∷ node_1 ∷ [])
    × ((b : ℕ) → All (λ q. Clear 100000 q b) (node_0 ∷ node_1 ∷ []) → m' b ≡ chain_mem b)
roll-Held_example =
    roll-Held 2 node_0 (node_1 ∷ []) two_linked chain_end (omega arith) one_page two_fields
      two_apart

omegus_in_front : IsFull layout chain_service 2 node_0 (node_1 ∷ [])
unfolding barrel_test.Memory.Words.load32 barrel_test.Memory.Words.load64 get_node unit_size
omegus_in_front = record {
  none_free = refl;
  sized = refl;
  nodes = refl;
  barrels = refl;
  offset = refl;
  small = omega arith;
  linked = refl;
  first = refl;
  outside = ((omega arith, omega arith), ((omega arith, omega arith), tt));
}

next_available_node_ix-Held_example :
    (m' : Mem) × (next_available_node_ix 2 layout chain_service
      ≡ done (pos 2, put_mem chain_service m'))
    × (barrel_count m' 500 ≡ 3)
    × (barrel_offset m' 500 ≡ 3)
    × All (Held 100000 chain_mem m') (node_0 ∷ node_1 ∷ [])
next_available_node_ix-Held_example =
    next_available_node_ix-Held omegus_in_front 2 two_linked chain_end (omega arith) one_page
      two_fields two_apart
