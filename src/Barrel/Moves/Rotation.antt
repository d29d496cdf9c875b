-- ===== src/Barrel/Moves/Rotation.antt =====
-- Barrel_RollForward keeps the units of a node: the barrels that go behind the last one are the
-- first ones, and the new offset turns the node back by as many.
use native.Mathlib.Decide.{dec_lt}
use native.Mathlib.Nat.{mod-eq_of_lt, add-mod_left}
use barrel_test.Base.{
  ℕ, suc, ◌+◌, ◌-◌, ◌*◌, ◌%◌, ◌≤◌, ◌<◌, ◌≡◌, refl, ap, ◌∙◌, ◌⊎◌, inl, inr, arith,
}
use barrel_test.Base.Int.{pos, u32_mod}
use barrel_test.Helpers.{Word}
use barrel_test.Memory.{Mem, barrel_size}
use barrel_test.Memory.Copy.{blit}
use barrel_test.Memory.Words.{
  Apart, SameAt, store32, byte-store32, load32-store32, load32-store32-Apart, load32-SameAt,
}
use barrel_test.Barrel.{Service, mem, put_mem, barrel_count, barrel_start, barrel_offset}
use barrel_test.Barrel.Moves.{next_offset, roll_forward, add_int, offset}
use barrel_test.Barrel.Moves.Effects.{HasRoomBehind, roll_forward_loop_lem, byte-blit}

-- A remainder by a number that is larger than half of the dividend.
pub mod_once : (x n : ℕ) → x < n + n → ((x < n) × (x % n ≡ x)) ⊎ ((n ≤ x) × (x % n + n ≡ x))
mod_once x n lt = elim (dec_lt x n) [
  | yes low ↦ inl (low, mod-eq_of_lt low)
  | no high ↦
      let le : n ≤ x = omega arith in
      let e : x ≡ n + (x - n) = omega arith in
      let r : x % n ≡ x - n =
        ap (λ y. y % n) e ∙ add-mod_left n (x - n) ∙ mod-eq_of_lt (omega arith) in
      inr (le, omega (arith, r))
]

-- The offset that Barrel_Offset computes for a roll by no more than the old one.
pub next_offset_lem :
    (off count k : ℕ)
    → k < off
    → off ≤ count
    → count < u32_mod
    → ((k + 1 < off) × (next_offset off count (pos (suc k)) + (k + 1) ≡ off))
      ⊎ ((off ≡ k + 1) × (next_offset off count (pos (suc k)) ≡ count))
unfolding next_offset
next_offset_lem off count k lt le small = elim (dec_lt (k + 1) off) [
  | yes more ↦ inl (more, ground arith)
  | no same ↦ inr (omega arith, ground arith)
]

-- The place of byte `a` of a node in its barrels, before a roll by `k + 1` and behind it.
pub rolled_place :
    (a off off' count k : ℕ)
    → a < count * 32
    → k < off
    → off ≤ count
    → ((k + 1 < off) × (off' + (k + 1) ≡ off)) ⊎ ((off ≡ k + 1) × (off' ≡ count))
    → (((a + off * 32) % (count * 32) < (k + 1) * 32)
        × ((a + off' * 32) % (count * 32) + (k + 1) * 32
            ≡ (a + off * 32) % (count * 32) + count * 32))
      ⊎ (((k + 1) * 32 ≤ (a + off * 32) % (count * 32))
          × ((a + off' * 32) % (count * 32) + (k + 1) * 32 ≡ (a + off * 32) % (count * 32)))
rolled_place a off off' count k lt low le next =
    let old = mod_once (a + off * 32) (count * 32) (omega arith) in
    let new = mod_once (a + off' * 32) (count * 32) (omega arith) in omega (arith, old, new, next)

pub same_barrel :
    (a b off count : ℕ)
    → a < count * 32
    → off ≤ count
    → a % 32 + b < 32
    → (a + off * 32) % (count * 32) % 32 + b < 32
same_barrel a b off count lt le low =
    let old = mod_once (a + off * 32) (count * 32) (omega arith) in omega (arith, old)

module _ {s : Service} {node : Word} {all k : ℕ} (room : HasRoomBehind s node all)
    (fits : 2 * k + 1 ≤ all) (below : 2 * k + 1 ≤ barrel_count (mem s) node)
    (low : k < barrel_offset (mem s) node)
    (bound : barrel_offset (mem s) node ≤ barrel_count (mem s) node) where
  abbrev start : ℕ
  start = barrel_start (mem s) node

  abbrev count : ℕ
  count = barrel_count (mem s) node

  abbrev off : ℕ
  off = barrel_offset (mem s) node

  abbrev first : Word
  first = s.heap.heap_start + start * barrel_size

  abbrev behind : Word
  behind = s.heap.heap_start + (start + count) * barrel_size

  abbrev pub moved : Mem
  moved = blit (mem s) behind first ((2 * k + 1) * barrel_size)

  abbrev pub new_off : ℕ
  new_off = next_offset off count (pos (suc k))

  small_new : new_off < u32_mod
  small_new =
      let n = next_offset_lem off count k low bound (omega (arith, room.indices)) in
      omega (arith, n, room.indices)

  abbrev pub turned : Mem
  turned = store32 (store32 moved (node + 24) (start + (k + 1))) (node + 20) new_off

  moved-SameAt : SameAt node 32 (mem s) moved
  moved-SameAt b lo hi =
      byte-blit (mem s) behind first ((2 * k + 1) * barrel_size) b (omega (arith, room.apart))

  pub roll_forward-turned : roll_forward s node (pos (suc k)) ≡ put_mem s turned
  unfolding roll_forward offset
  roll_forward-turned =
      let m = store32 moved (node + 24) (start + (k + 1)) in
      let start_kept : barrel_start moved node ≡ start =
        load32-SameAt (mem s) moved (node + 24)
          (λ b lo hi. moved-SameAt b (omega arith) (omega arith)) in
      let at : add_int (barrel_start moved node) (pos (suc k)) % u32_mod ≡ start + (k + 1) =
        omega (arith, start_kept, room.indices) in
      let off_kept : barrel_offset m node ≡ off =
        load32-store32-Apart moved (node + 24) (node + 20) (start + (k + 1)) (omega arith)
        ∙ load32-SameAt (mem s) moved (node + 20)
            (λ b lo hi. moved-SameAt b (omega arith) (omega arith)) in
      let count_kept : barrel_count m node ≡ count =
        load32-store32-Apart moved (node + 24) (node + 16) (start + (k + 1)) (omega arith)
        ∙ load32-SameAt (mem s) moved (node + 16)
            (λ b lo hi. moved-SameAt b (omega arith) (omega arith)) in
      let small : new_off % u32_mod ≡ new_off = mod-eq_of_lt small_new in
      rw (roll_forward_loop_lem room k fits below, at, off_kept, count_kept, small) refl

  -- The fields of the node behind the roll.
  pub turned-start : barrel_start turned node ≡ start + (k + 1)
  turned-start =
      load32-store32-Apart (store32 moved (node + 24) (start + (k + 1))) (node + 20) (node + 24)
        new_off (omega arith)
      ∙ load32-store32 moved (node + 24) (start + (k + 1)) (omega (arith, room.indices))

  pub turned-offset : barrel_offset turned node ≡ new_off
  turned-offset =
      load32-store32 (store32 moved (node + 24) (start + (k + 1))) (node + 20) new_off small_new

  pub turned-count : barrel_count turned node ≡ count
  turned-count =
      load32-store32-Apart (store32 moved (node + 24) (start + (k + 1))) (node + 20) (node + 16)
        new_off (omega arith)
      ∙ load32-store32-Apart moved (node + 24) (node + 16) (start + (k + 1)) (omega arith)
      ∙ load32-SameAt (mem s) moved (node + 16)
          (λ b lo hi. moved-SameAt b (omega arith) (omega arith))

  pub byte-turned : (b : ℕ) → Apart node 32 b 1 → turned b ≡ moved b
  byte-turned b apart =
      byte-store32 (store32 moved (node + 24) (start + (k + 1))) (node + 20) new_off b (omega arith)
      ∙ byte-store32 moved (node + 24) (start + (k + 1)) b (omega arith)

  pub turned-SameAt : SameAt node 8 (mem s) turned
  turned-SameAt b lo hi =
      byte-store32 (store32 moved (node + 24) (start + (k + 1))) (node + 20) new_off b (omega arith)
      ∙ byte-store32 moved (node + 24) (start + (k + 1)) b (omega arith)
      ∙ moved-SameAt b lo (omega arith)
