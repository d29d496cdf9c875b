-- ===== src/Barrel/Sizing/Delta.antt =====
-- The number of barrels that Barrel_DeltaSize computes for a change of units.
use barrel_test.Base.{ℕ, suc, ◌+◌, ◌-◌, ◌/◌, ◌^◌, ◌≤◌, ◌<◌, ◌≡◌, arith}
use barrel_test.Base.Int.{pos, negsuc, neg}
use barrel_test.Memory.{barrel_size}
use barrel_test.Barrel.Sizing.{barrel_delta}

-- For more units, with at most as many bytes free as they take (less than 2 ^ 31), it is the
-- number of barrels that cover the bytes missing, rounded up.
pub barrel_delta_grow :
    (units bytes free : ℕ)
    → bytes < 2 ^ 31
    → free ≤ bytes
    → barrel_delta (pos (suc units)) bytes free ≡ pos ((bytes - free + 31) / barrel_size)
unfolding barrel_delta
barrel_delta_grow units bytes free small le = ground arith

-- For more units that take fewer bytes than are free (less than 2 ^ 31), it is minus the number of
-- whole barrels that stay unused: adding units gives barrels back.
pub barrel_delta_spare :
    (units bytes free : ℕ)
    → free < 2 ^ 31
    → bytes < free
    → barrel_delta (pos (suc units)) bytes free ≡ neg (pos ((free - bytes) / barrel_size))
unfolding barrel_delta
barrel_delta_spare units bytes free small lt = ground arith

-- For fewer units on a node with at most as many bytes free as the units take (less than 2 ^ 31),
-- it is the number of whole barrels in the difference, with a sign that asks for more barrels and
-- not for fewer.
pub barrel_delta_shrink :
    (units bytes free : ℕ)
    → bytes < 2 ^ 31
    → free ≤ bytes
    → barrel_delta (negsuc units) bytes free ≡ pos ((bytes - free) / barrel_size)
unfolding barrel_delta
barrel_delta_shrink units bytes free small le = ground arith
