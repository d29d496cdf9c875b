-- ===== src/Barrel/Rolling.antt =====
-- Barrel_Roll: a chain of nodes makes room for, or takes back, a number of barrels.
pub mod Branches
pub mod Chains
pub mod Waits
pub mod Places
pub mod Keeps
use barrel_test.Base.{
  ltb, leb, ◌==◌, if◌then◌else◌, Bool-cases, ==_iff, ==_false, ==_refl, ltb→lt, lt→ltb, ltb-false,
  codes, length, get_elem?, get_or, drop, set, replicate, All, length-append, length-set,
  length-replicate, get_or-set_self, get_or-set_ne, get_or-replicate, get_elem?-append_left,
  get_elem?-append_last, get_elem?-set_self, get_elem?-set_ne, get_elem?-set-some, ℕ, zero, suc,
  ◌+◌, ◌-◌, ◌*◌, ◌/◌, ◌%◌, ◌^◌, ◌≤◌, ◌<◌, ◌≡◌, refl, sym, ap, ◌∙◌, subst, ◌≢◌, ◌↔◌, ◌⊎◌, inl, inr,
  Bool, true, false, not, ◌&&◌, ◌||◌, Option, none, some, List, [], ◌∷◌, ◌++◌, map, append-nil,
  append_assoc, arith,
}
use barrel_test.Base.Int.{
  ℤ, pos, negsuc, pos_part, neg_part, sub_ℕ, ◌+ℤ◌, neg, ltb_ℤ, eqb_ℤ, ◌≤ℤ◌, u32_mod, u64_mod,
  wrap_word, to_int, sub32, sub64, add64, mul64,
}
use barrel_test.Base.Run.{Run, done, spins, faults, starves, ◌>>=◌}
use barrel_test.Helpers.{Word}
use barrel_test.Memory.{barrel_size}
use barrel_test.TypeInfo.{Layout}
use barrel_test.Heap.{remaining}
use barrel_test.Collection.{request, release}
use barrel_test.Barrel.{Service, mem, put_mem, next_node, get_node, omega_index}
use barrel_test.Barrel.Moves.{roll_back, roll_forward}

-- Collection_Request on a node; NULL faults.
unfoldable pub lock : Service → Word → Run Service
unfolding request
lock s node = if node == 0 then faults else (do m ← request (mem s) node; done (put_mem s m))

-- Collection_Release on a node.
unfoldable pub unlock : Service → Word → Service
unfolding release
unlock s node = put_mem s (release (mem s) node)

-- The first move: a chain that gives barrels back starts at its front.
unfoldable pub before_next : Service → Word → ℤ → Service
before_next s node delta = if ltb_ℤ delta (pos 0) then roll_back s node delta else s

-- The last move: a chain that makes room ends at its front, and the lock is released.
unfoldable pub after_next : Service → Word → ℤ → Service
unfolding unlock
after_next s node delta = unlock (if ltb_ℤ (pos 0) delta then roll_forward s node delta else s) node

-- `Heap_Remaining() < request * sizeof(Barrel)`, for a positive request.
abbrev pub lacks_room : Service → ℤ → Bool
lacks_room s delta = ltb_ℤ (pos 0) delta && ltb (remaining s.heap) (pos_part delta * barrel_size)

-- What follows the call for the next node.
unfoldable pub finish : Word → ℤ → Bool × Service → Run (Bool × Service)
unfolding after_next
finish node delta (true, s) = done (true, after_next s node delta)
finish node delta (false, s) = done (false, s)

-- Barrel_Roll, for a chain of at most `fuel` nodes.
unfoldable pub roll : ℕ → Layout → Service → Word → ℤ → Run (Bool × Service)
unfolding lock before_next finish
roll zero layout s node delta = starves
roll (suc fuel) layout s node delta = if eqb_ℤ delta (pos 0) then done (true, s) else (do
  s1 ← lock s node
  let s2 = before_next s1 node delta
  let rest = roll fuel layout s2 (get_node layout s2 (next_node (mem s2) node)) delta
  if ltb_ℤ omega_index (next_node (mem s2) node)
      then rest >>= finish node delta
      else if lacks_room s2 delta
      then done (false, s2)
      else done (true, after_next s2 node delta))
