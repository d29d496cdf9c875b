-- ===== src/Barrel/Sizing.antt =====
-- The sizes of a node: how many barrels a change of units needs (Barrel_DeltaSize), Barrel_Resize
-- and Barrel_NextAvailableNodeIx.
pub mod Delta
pub mod Adding
use barrel_test.Base.{
  ltb, leb, ◌==◌, if◌then◌else◌, Bool-cases, ==_iff, ==_false, ==_refl, ltb→lt, lt→ltb, ltb-false,
  codes, length, get_elem?, get_or, set, replicate, All, length-append, length-set,
  length-replicate, get_or-set_self, get_or-set_ne, get_or-replicate, get_elem?-append_left,
  get_elem?-append_last, get_elem?-set_self, get_elem?-set_ne, get_elem?-set-some, ℕ, zero, suc,
  ◌+◌, ◌-◌, ◌*◌, ◌/◌, ◌%◌, ◌^◌, ◌≤◌, ◌<◌, ◌≡◌, refl, sym, ap, ◌∙◌, subst, ◌≢◌, ◌↔◌, ◌⊎◌, inl, inr,
  Bool, true, false, not, ◌&&◌, ◌||◌, Option, none, some, List, [], ◌∷◌, ◌++◌, map, append-nil,
  append_assoc, arith,
}
use barrel_test.Base.Int.{
  ℤ, pos, negsuc, pos_part, neg_part, sub_ℕ, ◌+ℤ◌, neg, ltb_ℤ, eqb_ℤ, ◌≤ℤ◌, u32_mod, u64_mod,
  wrap_word, to_int, sub32, sub64, add64, mul64,
}
use barrel_test.Base.Run.{Run, done, spins, faults, ◌>>=◌}
use barrel_test.Enums.{
  t_trg, t_count, t_variant, t_size, delta_size, manage, param_option_code, ParamType,
}
use barrel_test.Helpers.{Word, Request, slot, slot_code}
use barrel_test.Memory.{barrel_size}
use barrel_test.TypeInfo.{Layout}
use barrel_test.Collection.{count_of, unit_size}
use barrel_test.Barrel.{
  Service, mem, next_node, get_node, omega_index, none_index, remaining_size_cap,
}
use barrel_test.Barrel.Moves.{grow, shrink}
use barrel_test.Barrel.Rolling.{roll, lacks_room}

-- The `barrelDelta` of Barrel_DeltaSize, from the signed number of units, the bytes that they take
-- and the bytes that are free. All is computed in size_t and then cut to an int.
unfoldable pub barrel_delta : ℤ → ℕ → ℕ → ℤ
barrel_delta unit_delta delta_bytes free_bytes =
    let missing = sub64 delta_bytes free_bytes in
    if ltb_ℤ (pos 0) unit_delta
    then to_int (missing / barrel_size + (if ltb 0 (missing % barrel_size) then 1 else 0))
    else if ltb_ℤ unit_delta (pos 0)
    then to_int (wrap_word u64_mod (neg (to_int (sub64 free_bytes delta_bytes))) / barrel_size)
    else pos 0

-- `deltaMag * size`.
abbrev pub bytes_of : ℤ → ℕ → ℕ
bytes_of unit_delta size = mul64 (pos_part unit_delta + neg_part unit_delta) size

-- The roll of the nodes behind the node, if there are any.
unfoldable pub roll_rest : ℕ → Layout → Service → Word → ℤ → Run (Bool × Service)
roll_rest fuel layout s node delta =
    if ltb_ℤ none_index (next_node (mem s) node)
    then roll fuel layout s (get_node layout s (next_node (mem s) node)) delta
    else done (true, s)

-- The last part of Barrel_DeltaSize.
unfoldable pub grow_last : Word → ℤ → Bool × Service → Run (Bool × Service)
grow_last node delta (false, s) = done (false, s)
grow_last node delta (true, s) =
    if ltb_ℤ (pos 0) delta
    then (if not (ltb_ℤ none_index (next_node (mem s) node)) && lacks_room s delta
        then done (false, s)
        else done (true, grow s node (pos_part delta)))
    else done (true, s)

-- Barrel_DeltaSize by its three steps: shrink, roll, grow.
unfoldable pub resize_by : ℕ → Layout → Service → Word → ℤ → Run (Bool × Service)
unfolding roll_rest grow_last
resize_by fuel layout s node delta =
    if eqb_ℤ delta (pos 0)
    then done (true, s)
    else roll_rest fuel layout (if ltb_ℤ delta (pos 0) then shrink s node (neg_part delta) else s)
        node delta
      >>= grow_last node delta

-- Barrel_DeltaSize.
unfoldable pub delta_node : ℕ → Layout → Service → Word → ℤ → Run (Bool × Service)
unfolding resize_by barrel_delta remaining_size_cap
delta_node fuel layout s node unit_delta = do
  size ← unit_size s.world node
  free_bytes ← remaining_size_cap s node
  if eqb_ℤ unit_delta (pos 0)
      then done (true, s)
      else resize_by fuel layout s node
          (barrel_delta unit_delta (bytes_of unit_delta size) free_bytes)

unfoldable pub delta_size_request : ℕ → Layout → Service → Request → Run (Bool × Service)
unfolding delta_node
delta_size_request fuel layout s request =
    delta_node fuel layout s (slot request t_trg) (to_int (slot request t_count))

-- Barrel_Resize: the count asked for less the node's count, in place in slot tCOUNT.
unfoldable pub resize_request : ℕ → Layout → Service → Request → Run (Bool × Service)
unfolding delta_size_request
resize_request fuel layout s request = delta_size_request fuel layout s (record request {
  params =
      set request.params (slot_code t_count)
        (sub32 (slot request t_count) (count_of (mem s) (slot request t_trg)));
})

-- What Barrel_NextAvailableNodeIx answers once Omegus was resized.
unfoldable pub fresh_index : ℤ → Bool × Service → ℤ × Service
fresh_index next (true, s) = (next, s)
fresh_index next (false, s) = (none_index, s)

-- Barrel_NextAvailableNodeIx: a node of the free list, or a new one at the end of Omegus.
unfoldable pub next_available_node_ix : ℕ → Layout → Service → Run (ℤ × Service)
unfolding delta_node fresh_index
next_available_node_ix fuel layout s =
    if ltb_ℤ s.next_available (pos 0)
    then (do
      r ← delta_node fuel layout s layout.omegus (pos 1)
      done (fresh_index (to_int (count_of (mem s) layout.omegus)) r))
    else (if get_node layout s s.next_available == 0
        then faults
        else done (
          s.next_available,
          record s { next_available = next_node (mem s) (get_node layout s s.next_available) },
        ))
