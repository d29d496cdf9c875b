-- ===== src/Tests/BarrelTests.antt =====
-- A barrel node of five barrels.
use barrel_test.Barrel.{
  barrel_count, barrel_start, Service, mem, put_mem, get_head, get_size, get_unit_ptr,
  get_element_ptr,
}
use barrel_test.Heap.{remaining}
use barrel_test.Base.{ℕ, ◌+◌, ◌-◌, ◌*◌, ◌/◌, ◌≤◌, ◌<◌, ◌≡◌, refl, ◌⊎◌, inl, inr, false, some, arith}
use barrel_test.Base.Int.{pos, negsuc, neg}
use barrel_test.Base.Run.{done, spins}
use barrel_test.Memory.{barrel_size}
use barrel_test.Memory.Copy.{blit}
use barrel_test.Memory.Words.{load32, load64}
use barrel_test.Collection.{lock_of, unit_size}
use barrel_test.Barrel.Access.{get_unit_ptr_lem, get_unit_ptr-get_element_ptr}
use barrel_test.Barrel.Moves.{next_offset, roll_forward_loop, roll_forward, roll_back}
use barrel_test.Barrel.Moves.Effects.{HasRoomBehind, next_offset-bounds, roll_forward_loop_lem}
use barrel_test.Barrel.Moves.Units.{roll_forward-get_unit_ptr}
use barrel_test.Barrel.Moves.BackByOne.{roll_back-get_unit_ptr}
use barrel_test.Barrel.Moves.BackUnits.{CanRollBack, roll_back-overwrites}
use barrel_test.Barrel.Rolling.{roll}
use barrel_test.Barrel.Rolling.Branches.{roll-leaks}
use barrel_test.Barrel.Sizing.{barrel_delta}
use barrel_test.Barrel.Sizing.Delta.{barrel_delta_grow, barrel_delta_spare, barrel_delta_shrink}
use barrel_test.Barrel.Making.{double_loop}
use barrel_test.Barrel.Making.Doubling.{Enough, double_loop_total}
use barrel_test.Tests.Fixtures.{service, layout, struct_mem}

node_units : unit_size service.world 3000 ≡ done 4
unfolding unit_size load64
node_units = refl

get_unit_ptr_lem_example :
    (p : ℕ) × (get_unit_ptr service 3000 7 ≡ done p)
    × (get_head service 3000 ≤ p)
    × (p < get_head service 3000 + get_size service 3000)
unfolding load32 get_head get_size
get_unit_ptr_lem_example = get_unit_ptr_lem service 3000 7 4 node_units (omega arith) (omega arith)

get_unit_ptr-get_element_ptr_example : get_unit_ptr service 3000 7 ≡ get_element_ptr service 3000 7
get_unit_ptr-get_element_ptr_example = get_unit_ptr-get_element_ptr service 3000 7

next_offset-bounds_test : (1 ≤ next_offset 2 5 (pos 3)) × (next_offset 2 5 (pos 3) ≤ 5)
next_offset-bounds_test = next_offset-bounds 2 5 (pos 3) (omega arith)

-- Room for three barrels behind the five of the node.
room : HasRoomBehind service 3000 3
unfolding load32
room = record { indices = omega arith; addresses = omega arith; apart = inr (omega arith) }

roll_forward_loop_lem_test :
    roll_forward_loop 2 0 service 3000 2
    ≡ put_mem service (
        blit struct_mem
          (100000 + (load32 struct_mem 3024 + load32 struct_mem 3016) * barrel_size)
          (100000 + load32 struct_mem 3024 * barrel_size)
          (3 * barrel_size))
unfolding load32
roll_forward_loop_lem_test = roll_forward_loop_lem room 1 (omega arith) (omega arith)

roll-leaks_test :
    (s' : Service) × (roll 1 layout service 3000 (pos 200) ≡ done (false, s'))
    × (lock_of (mem s') 3000 ≡ 1)
    × (roll 5 layout s' 3000 (pos 1) ≡ spins)
unfolding load32 remaining
roll-leaks_test =
    roll-leaks 0 4 layout service 3000 199 (pos 1) (omega arith) refl refl (omega arith) refl

barrel_delta_grow_test : barrel_delta (pos 10) 40 8 ≡ pos ((40 - 8 + 31) / barrel_size)
barrel_delta_grow_test = barrel_delta_grow 9 40 8 (omega arith) (omega arith)

barrel_delta_spare_test : barrel_delta (pos 1) 4 100 ≡ neg (pos ((100 - 4) / barrel_size))
barrel_delta_spare_test = barrel_delta_spare 0 4 100 (omega arith) (omega arith)

barrel_delta_shrink_test : barrel_delta (negsuc 24) 100 4 ≡ pos ((100 - 4) / barrel_size)
barrel_delta_shrink_test = barrel_delta_shrink 24 100 4 (omega arith) (omega arith)

double_loop_total_test :
    (r : ℕ) × (double_loop 4065 1 100 4096 ≡ some r)
    × Enough r 100 4096
    × ((r ≡ 1) ⊎ ((k : ℕ) × (r ≡ k * 2) × ¬ Enough k 100 4096))
double_loop_total_test = double_loop_total 4064 1 100 4096 (omega arith) (omega arith)

-- 100 bytes take four barrels.
double_loop_test : double_loop 5 1 100 4096 ≡ some 4
unfolding double_loop
double_loop_test = refl

roll_forward-get_unit_ptr_example :
    (p q : ℕ) × (get_unit_ptr service 3000 7 ≡ done p)
    × (get_unit_ptr (roll_forward service 3000 (pos 2)) 3000 7 ≡ done q)
    × (mem (roll_forward service 3000 (pos 2)) (q + 3) ≡ struct_mem (p + 3))
unfolding load32
roll_forward-get_unit_ptr_example =
    roll_forward-get_unit_ptr {k = 1} room (omega arith) (omega arith) (omega arith) (omega arith) 4
      7 3 node_units (inl (omega arith)) (omega arith) (omega arith)

back_by_one : CanRollBack service 3000 0
unfolding load32
back_by_one = record {
  before = omega arith;
  enough = omega arith;
  bound = omega arith;
  indices = omega arith;
  addresses = omega arith;
  apart = inl (omega arith);
}

back_by_two : CanRollBack service 3000 1
unfolding load32
back_by_two = record {
  before = omega arith;
  enough = omega arith;
  bound = omega arith;
  indices = omega arith;
  addresses = omega arith;
  apart = inl (omega arith);
}

roll_back-get_unit_ptr_example :
    (p q : ℕ) × (get_unit_ptr service 3000 7 ≡ done p)
    × (get_unit_ptr (roll_back service 3000 (negsuc 0)) 3000 7 ≡ done q)
    × (mem (roll_back service 3000 (negsuc 0)) (q + 3) ≡ struct_mem (p + 3))
unfolding load32
roll_back-get_unit_ptr_example =
    roll_back-get_unit_ptr back_by_one 4 7 3 node_units (omega arith) (omega arith)

roll_back-overwrites_example :
    mem (roll_back service 3000 (negsuc 1)) (100000 + barrel_start struct_mem 3000 * 32 + 5)
    ≡ struct_mem (100000 + (barrel_start struct_mem 3000 + barrel_count struct_mem 3000) * 32 + 5)
roll_back-overwrites_example = roll_back-overwrites back_by_two 5 (omega arith)

-- A roll by two barrels with offset 1 should turn the offset to 4 of 5 barrels; it becomes 1.
next_offset_test : next_offset 1 5 (pos 2) ≡ 1
unfolding next_offset
next_offset_test = refl
