-- ===== src/Barrel/Moves.antt =====
-- The moves of barrels in tBarrel.c: Barrel_Offset, Barrel_RollBack, Barrel_RollForward,
-- Barrel_Grow and Barrel_Shrink. Each takes the node at `node` and a signed number of barrels.
pub mod Effects
pub mod Rotation
pub mod Units
pub mod Back
pub mod BackUnits
pub mod BackByOne
use barrel_test.Base.{
  ltb, leb, ◌==◌, if◌then◌else◌, Bool-cases, ==_iff, ==_false, ==_refl, ltb→lt, lt→ltb, ltb-false,
  codes, length, get_elem?, get_or, set, replicate, All, length-append, length-set,
  length-replicate, get_or-set_self, get_or-set_ne, get_or-replicate, get_elem?-append_left,
  get_elem?-append_last, get_elem?-set_self, get_elem?-set_ne, get_elem?-set-some, ℕ, zero, suc,
  ◌+◌, ◌-◌, ◌*◌, ◌/◌, ◌%◌, ◌^◌, ◌≤◌, ◌<◌, ◌≡◌, refl, sym, ap, ◌∙◌, subst, ◌≢◌, ◌↔◌, ◌⊎◌, inl, inr,
  Bool, true, false, not, ◌&&◌, ◌||◌, Option, none, some, List, [], ◌∷◌, ◌++◌, map, append-nil,
  append_assoc, arith,
}
use barrel_test.Base.Int.{
  ℤ, pos, negsuc, pos_part, neg_part, sub_ℕ, ◌+ℤ◌, neg, ltb_ℤ, eqb_ℤ, ◌≤ℤ◌, u32_mod, u64_mod,
  wrap_word, to_int, sub32, sub64, add64, mul64,
}
use barrel_test.Helpers.{Word}
use barrel_test.Memory.{Mem, barrel_transcribe}
use barrel_test.Barrel.{
  Service, mem, put_mem, barrel_count, barrel_offset, barrel_start, set_barrel_count,
  set_barrel_offset, set_barrel_start, get_barrel_ptr,
}

-- The sum of an unsigned field and an `int`, modulo 2 ^ 32.
abbrev pub add_int : ℕ → ℤ → ℕ
add_int a d = (a + wrap_word u32_mod d) % u32_mod

-- Barrel_Offset: the new offset, in the range from 1 to the number of barrels.
unfoldable pub next_offset : ℕ → ℕ → ℤ → ℕ
next_offset offset count request =
    let offset' = sub32 offset (wrap_word u32_mod request) in
    if ltb offset' 1 then count else if ltb count offset' then 1 else offset'

unfoldable pub offset : Service → Word → ℤ → Service
unfolding next_offset
offset s node request = put_mem s (
    set_barrel_offset (mem s) node
      (next_offset (barrel_offset (mem s) node) (barrel_count (mem s) node) request))

-- `for (i = 0; i < ...; i++) barrelTranscribe(ptr(trg + i), ptr(src + i), count)`, with `n` rounds
-- left. The node's own fields are read in every round.
unfoldable pub roll_back_loop : ℕ → ℕ → Service → Word → ℕ → Service
roll_back_loop zero i s node count = s
roll_back_loop (suc n) i s node count =
    roll_back_loop n (i + 1)
      (put_mem s (
        barrel_transcribe (mem s) (get_barrel_ptr s ((barrel_start (mem s) node + i) % u32_mod))
          (get_barrel_ptr s ((barrel_start (mem s) node + barrel_count (mem s) node + i) % u32_mod))
          count))
      node count

-- Barrel_RollBack, for a negative request.
unfoldable pub roll_back : Service → Word → ℤ → Service
unfolding roll_back_loop offset
roll_back s node request =
    let k = neg_part request in
    let s' =
      put_mem s (set_barrel_start (mem s) node (add_int (barrel_start (mem s) node) request)) in
    offset (roll_back_loop k 0 s' node k) node request

unfoldable pub roll_forward_loop : ℕ → ℕ → Service → Word → ℕ → Service
roll_forward_loop zero i s node count = s
roll_forward_loop (suc n) i s node count =
    roll_forward_loop n (i + 1)
      (put_mem s (
        barrel_transcribe (mem s)
          (get_barrel_ptr s ((barrel_start (mem s) node + barrel_count (mem s) node + i) % u32_mod))
          (get_barrel_ptr s ((barrel_start (mem s) node + i) % u32_mod)) count))
      node count

-- Barrel_RollForward, for a positive request.
unfoldable pub roll_forward : Service → Word → ℤ → Service
unfolding roll_forward_loop offset
roll_forward s node request =
    let k = pos_part request in
    let s' = roll_forward_loop k 0 s node k in
    offset
      (put_mem s' (set_barrel_start (mem s') node (add_int (barrel_start (mem s') node) request)))
      node request

-- The loop of Barrel_Grow from `i` down to the offset, which every round reads again, on fuel. The
-- indices are those of the whole heap, not of the node.
unfoldable pub grow_loop : ℕ → ℕ → Service → Word → ℕ → Service
grow_loop zero i s node request = s
grow_loop (suc fuel) i s node request =
    let rest =
      grow_loop fuel (i - 1)
        (put_mem s (
          barrel_transcribe (mem s) (get_barrel_ptr s (i - 1))
            (get_barrel_ptr s (wrap_word u32_mod (sub_ℕ i (1 + request)))) 1))
        node request in
    if ltb (barrel_offset (mem s) node) i then rest else s

-- Barrel_Grow, for a positive request. The loop makes at most one round for each barrel.
unfoldable pub grow : Service → Word → ℕ → Service
unfolding grow_loop
grow s node request =
    let count = barrel_count (mem s) node in
    let off = barrel_offset (mem s) node in
    let new_count = count + request in
    let s' = if count == off then s else grow_loop new_count new_count s node request in
    put_mem s' (set_barrel_offset (set_barrel_count (mem s') node new_count) node (off + request))

-- The loop of Barrel_Shrink from `i` up, with `n` rounds left.
unfoldable pub shrink_loop : ℕ → ℕ → Service → ℕ → Service
shrink_loop zero i s k = s
shrink_loop (suc n) i s k =
    shrink_loop n (i + 1)
      (put_mem s (barrel_transcribe (mem s) (get_barrel_ptr s i) (get_barrel_ptr s (i + k)) 1)) k

-- Barrel_Shrink by `k` barrels (its request is -k): the offset and the number of barrels that go,
-- clamped where the offset would fall below 0, and the wrap of a zero offset to the end.
unfoldable pub shrink : Service → Word → ℕ → Service
unfolding shrink_loop ◌+ℤ◌
shrink s node k =
    let count = barrel_count (mem s) node in
    let off = barrel_offset (mem s) node in
    let new_count = sub_ℕ count k in
    let new_off = sub_ℕ off k in
    let clamped = if ltb off k then off else k in
    let low = off - k in
    let moved = shrink_loop (pos_part new_count - low) low s clamped in
    let s' = if count == off then s else moved in
    let off' = if count == off then new_off else if ltb low 1 then new_count else pos low in
    put_mem s' (
      set_barrel_offset (set_barrel_count (mem s') node (wrap_word u32_mod new_count)) node
        (wrap_word u32_mod off'))
