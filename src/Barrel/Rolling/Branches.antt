-- ===== src/Barrel/Rolling/Branches.antt =====
-- Barrel_Roll on the last node of a chain.
use barrel_test.Memory.Words.{load32-store32-Apart, load32-store32, store32}
use barrel_test.Barrel.Rolling.{after_next, roll, before_next, lock, lacks_room}
use barrel_test.Barrel.{Service, mem, put_mem, next_node, omega_index}
use barrel_test.Base.Run.{done, spins}
use barrel_test.Helpers.{Word}
use barrel_test.TypeInfo.{Layout}
use barrel_test.Memory.{barrel_size}
use barrel_test.Heap.{remaining}
use barrel_test.Collection.{lock_of, request}
use barrel_test.Base.{
  ltb, if◌then◌else◌, ==_false, lt→ltb, ℕ, suc, ◌+◌, ◌*◌, ◌<◌, ◌≡◌, refl, ap, ◌∙◌, ◌≢◌, true, false,
  arith,
}
use barrel_test.Base.Int.{ℤ, pos, ltb_ℤ, eqb_ℤ, to_int}

pub lock-free :
    (s : Service) (node : Word)
    → node ≢ 0
    → lock_of (mem s) node ≡ 0
    → lock s node ≡ done (put_mem s (store32 (mem s) (node + 12) 1))
unfolding lock request
lock-free s node ne free = rw (==_false node 0 ne, free) refl

pub lock-taken :
    (s : Service) (node : Word) → node ≢ 0 → lock_of (mem s) node ≢ 0 → lock s node ≡ spins
unfolding lock request
lock-taken s node ne taken = rw (==_false node 0 ne, ==_false (lock_of (mem s) node) 0 taken) refl

-- A change by more barrels does not touch the front of the chain first.
pub up-not-zero : (k : ℕ) → eqb_ℤ (pos (suc k)) (pos 0) ≡ false
up-not-zero k = ground arith

pub before_next-up : (s : Service) (node : Word) (k : ℕ) → before_next s node (pos (suc k)) ≡ s
unfolding before_next
before_next-up s node k = ground arith

lacks_room-up :
    (s : Service) (k : ℕ)
    → lacks_room s (pos (suc k)) ≡ ltb (remaining s.heap) (suc k * barrel_size)
lacks_room-up s k = ground arith

-- The last node of a chain, behind its lock, for barrels to be added.
pub roll-last :
    (fuel : ℕ) (layout : Layout) (s s1 : Service) (node : Word) (k : ℕ)
    → lock s node ≡ done s1
    → ltb_ℤ omega_index (next_node (mem s1) node) ≡ false
    → roll (suc fuel) layout s node (pos (suc k)) ≡ (
        if ltb (remaining s1.heap) (suc k * barrel_size)
        then done (false, s1)
        else done (true, after_next s1 node (pos (suc k))))
unfolding roll
roll-last fuel layout s s1 node k e last =
    rw (up-not-zero k, e, before_next-up s1 node k, last, lacks_room-up s1 k) refl

pub roll-spins :
    (fuel : ℕ) (layout : Layout) (s : Service) (node : Word) (delta : ℤ)
    → lock s node ≡ spins
    → eqb_ℤ delta (pos 0) ≡ false
    → roll (suc fuel) layout s node delta ≡ spins
unfolding roll
roll-spins fuel layout s node delta e other = rw (other, e) refl

-- On a free last node, not NULL, and with fewer bytes left on the heap than the barrels asked for
-- take, Barrel_Roll answers false and leaves the lock taken: every later roll of that node by a
-- number other than 0 waits for ever.
pub roll-leaks :
    (fuel fuel' : ℕ) (layout : Layout) (s : Service) (node : Word) (k : ℕ) (delta' : ℤ)
    → node ≢ 0
    → lock_of (mem s) node ≡ 0
    → ltb_ℤ omega_index (next_node (mem s) node) ≡ false
    → remaining s.heap < suc k * barrel_size
    → eqb_ℤ delta' (pos 0) ≡ false
    → (s' : Service) × (roll (suc fuel) layout s node (pos (suc k)) ≡ done (false, s'))
      × (lock_of (mem s') node ≡ 1)
      × (roll (suc fuel') layout s' node delta' ≡ spins)
roll-leaks fuel fuel' layout s node k delta' ne free last full other =
    let s' = put_mem s (store32 (mem s) (node + 12) 1) in
    let one : lock_of (mem s') node ≡ 1 = load32-store32 (mem s) (node + 12) 1 (omega arith) in
    let same : next_node (mem s') node ≡ next_node (mem s) node =
      ap to_int (load32-store32-Apart (mem s) (node + 12) (node + 28) 1 (omega arith)) in
    (
      s',
      roll-last fuel layout s s' node k (lock-free s node ne free)
            (ap (ltb_ℤ omega_index) same ∙ last)
          ∙ rw (lt→ltb _ _ full) refl,
      one,
      roll-spins fuel' layout s' node delta' (lock-taken s' node ne (omega (arith, one))) other,
    )
