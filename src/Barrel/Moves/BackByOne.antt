-- ===== src/Barrel/Moves/BackByOne.antt =====
-- Barrel_RollBack by one barrel keeps the units of a node.
use native.Mathlib.Nat.{mod-lt}
use native.Mathlib.Decide.{dec_lt}
use barrel_test.Base.{ℕ, ◌+◌, ◌-◌, ◌*◌, ◌%◌, ◌≤◌, ◌<◌, ◌≡◌, refl, ap, ◌∙◌, ◌⊎◌, inl, inr, arith}
use barrel_test.Base.Int.{negsuc, u32_mod}
use barrel_test.Base.Run.{done}
use barrel_test.Helpers.{Word}
use barrel_test.Memory.{barrel_size}
use barrel_test.Memory.Words.{
  SameAt, byte-store32, load32-store32, load32-store32-Apart, load32-SameAt, load64-SameAt,
}
use barrel_test.Collection.{unit_size, extensions_at}
use barrel_test.Barrel.{
  Service, mem, put_mem, barrel_count, barrel_start, barrel_offset, get_unit_ptr,
}
use barrel_test.Barrel.Moves.{roll_back, next_offset}
use barrel_test.Barrel.Moves.Effects.{byte-blit}
use barrel_test.Barrel.Moves.Rotation.{mod_once, same_barrel}
use barrel_test.Barrel.Moves.Units.{unit_ptr_at}
use barrel_test.Barrel.Moves.BackUnits.{
  CanRollBack, lowered, drawn, turned, new_off, small_new, lowered-start, lowered-count,
  drawn-SameAt, roll_back-turned, byte-lowered, byte-turned, byte-drawn,
}

-- The offset that Barrel_Offset computes for a roll back by one.
next_offset-back :
    (off count : ℕ)
    → off ≤ count
    → 0 < count
    → count + 1 < u32_mod
    → ((off < count) × (next_offset off count (negsuc 0) ≡ off + 1))
      ⊎ ((off ≡ count) × (next_offset off count (negsuc 0) ≡ 1))
unfolding next_offset
next_offset-back off count le positive small = elim (dec_lt off count) [
  | yes lt ↦ inl (lt, ground arith)
  | no same ↦ inr (omega arith, ground arith)
]

-- The place of byte `a` of a node in its barrels, before the roll and behind it.
back_place :
    (a off off' count : ℕ)
    → a < count * 32
    → off ≤ count
    → ((off < count) × (off' ≡ off + 1)) ⊎ ((off ≡ count) × (off' ≡ 1))
    → (((a + off * 32) % (count * 32) + 32 < count * 32)
        × ((a + off' * 32) % (count * 32) ≡ (a + off * 32) % (count * 32) + 32))
      ⊎ ((count * 32 ≤ (a + off * 32) % (count * 32) + 32)
          × ((a + off' * 32) % (count * 32) + count * 32 ≡ (a + off * 32) % (count * 32) + 32))
back_place a off off' count lt le next =
    let old = mod_once (a + off * 32) (count * 32) (omega arith) in
    let new = mod_once (a + off' * 32) (count * 32) (omega arith) in omega (arith, old, new, next)

module _ {s : Service} {node : Word} (can : CanRollBack s node 0) where
  turned-start : barrel_start (mem (put_mem s (turned can))) node ≡ barrel_start (mem s) node - 1
  turned-start =
      load32-store32-Apart (drawn can) (node + 20) (node + 24) (new_off can) (omega arith)
      ∙ load32-SameAt (lowered can) (drawn can) (node + 24)
          (λ b lo hi. drawn-SameAt can b (omega arith) (omega arith))
      ∙ lowered-start can

  turned-count : barrel_count (turned can) node ≡ barrel_count (mem s) node
  turned-count =
      load32-store32-Apart (drawn can) (node + 20) (node + 16) (new_off can) (omega arith)
      ∙ load32-SameAt (lowered can) (drawn can) (node + 16)
          (λ b lo hi. drawn-SameAt can b (omega arith) (omega arith))
      ∙ lowered-count can

  turned-offset : barrel_offset (turned can) node ≡ new_off can
  turned-offset = load32-store32 (drawn can) (node + 20) (new_off can) (small_new can)

  turned-SameAt : SameAt node 8 (mem s) (turned can)
  turned-SameAt b lo hi =
      byte-store32 (drawn can) (node + 20) (new_off can) b (omega arith)
      ∙ drawn-SameAt can b lo (omega arith)
      ∙ byte-store32 (mem s) (node + 24) (barrel_start (mem s) node - 1) b (omega arith)

  unit_size-turned :
      (size : ℕ)
      → unit_size s.world node ≡ done size
      → unit_size (put_mem s (turned can)).world node ≡ done size
  unfolding unit_size extensions_at
  unit_size-turned size sized =
      let ext = load64-SameAt (mem s) (turned can) node turned-SameAt in rw ext sized

  byte-other :
      (j : ℕ)
      → j < barrel_count (mem s) node * 32
      → turned can (s.heap.heap_start + barrel_start (mem s) node * 32 + j)
        ≡ mem s (s.heap.heap_start + barrel_start (mem s) node * 32 + j)
  byte-other j lt =
      let place = s.heap.heap_start + barrel_start (mem s) node * 32 + j in
      byte-turned can place (omega (arith, can.apart, can.before))
      ∙ byte-blit (lowered can) (s.heap.heap_start + (barrel_start (mem s) node - 1) * 32)
          (s.heap.heap_start + (barrel_start (mem s) node - 1 + barrel_count (mem s) node) * 32)
          ((2 * 0 + 1) * barrel_size) place (omega (arith, can.before))
      ∙ byte-lowered can place (omega (arith, can.apart, can.before))

  -- Barrel_RollBack by one barrel keeps the units of a node of a registered type that can roll
  -- back by one: Barrel_GetUnitPtr finds every byte of a unit that starts in the node, as far as
  -- it lies in the unit's first barrel, with the value that it had. Such a node has a barrel in
  -- front of it and one of its own or more, an offset of at most their number, and all barrels
  -- that are read or written lie below 2 ^ 64 and apart from the node.
  pub roll_back-get_unit_ptr :
      (size i b : ℕ)
      → unit_size s.world node ≡ done size
      → i * size < barrel_count (mem s) node * barrel_size
      → i * size % barrel_size + b < barrel_size
      → (p q : Word) × (get_unit_ptr s node i ≡ done p)
        × (get_unit_ptr (roll_back s node (negsuc 0)) node i ≡ done q)
        × (mem (roll_back s node (negsuc 0)) (q + b) ≡ mem s (p + b))
  roll_back-get_unit_ptr size i b sized inside near =
      let start = barrel_start (mem s) node in
      let count = barrel_count (mem s) node in
      let off = barrel_offset (mem s) node in
      let off' = new_off can in
      let small : count + 1 < u32_mod = omega (arith, can.indices, can.before) in
      let next = next_offset-back off count can.bound (omega (arith, can.enough)) small in
      let r = (i * size + off * 32) % (count * 32) in
      let r' = (i * size + off' * 32) % (count * 32) in
      let place = back_place (i * size) off off' count inside can.bound next in
      let near_first = same_barrel (i * size) b off count inside can.bound near in
      let p = s.heap.heap_start + start * 32 + r in
      let q = s.heap.heap_start + (start - 1) * 32 + r' in
      let lt : r < count * 32 = mod-lt _ (omega arith) in
      let after = roll_back-turned can in
      let same : turned can (q + b) ≡ mem s (p + b) = elim place [
        | inl (early, e) ↦
            ap (turned can) (omega (arith, e, can.before))
            ∙ byte-other (r + b) (omega (arith, lt, near_first))
            ∙ ap (mem s) (omega arith)
        | inr (last, e) ↦
            ap (turned can) (omega (arith, e))
            ∙ byte-drawn can (r' + b) (omega (arith, e, lt, near_first))
            ∙ ap (mem s) (omega (arith, e, can.before, can.enough))
      ] in
      (
        p,
        q,
        unit_ptr_at s node i size start count off sized refl refl refl inside can.bound
            (omega (arith, small)) (omega (arith, can.addresses)),
        ap (λ s'. get_unit_ptr s' node i) after
            ∙ unit_ptr_at (put_mem s (turned can)) node i size (start - 1) count off'
                (unit_size-turned size sized) turned-start turned-count turned-offset inside
                (omega (arith, next)) (omega (arith, small)) (omega (arith, can.addresses)),
        ap (λ s'. mem s' (q + b)) after ∙ same,
      )
