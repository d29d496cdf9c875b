-- ===== src/Barrel.antt =====
-- tBarrel.c: growing collections whose units lie in barrels, blocks of 32 bytes of one heap. A
-- BarrelNode at `p` is its Collection followed by the count, the offset and the start of its
-- barrels and the index of the next node, 4 bytes each. It is as long as a barrel: the node of index
-- `i` is the barrel of index `i`. The node of all nodes, Omegus, is a static.
--
-- This module has the state of the service and what reads it; the modules below have what moves
-- barrels (Moves), what rolls a chain of nodes (Rolling), what resizes (Sizing), and what makes
-- nodes and answers requests (Making).
pub mod Moves
pub mod Rolling
pub mod Sizing
pub mod Making
pub mod Methods
pub mod Access
use barrel_test.Base.{
  ltb, leb, ◌==◌, if◌then◌else◌, Bool-cases, ==_iff, ==_false, ==_refl, ltb→lt, lt→ltb, ltb-false,
  codes, length, get_elem?, get_or, set, replicate, All, length-append, length-set,
  length-replicate, get_or-set_self, get_or-set_ne, get_or-replicate, get_elem?-append_left,
  get_elem?-append_last, get_elem?-set_self, get_elem?-set_ne, get_elem?-set-some, ℕ, zero, suc,
  ◌+◌, ◌-◌, ◌*◌, ◌/◌, ◌%◌, ◌^◌, ◌≤◌, ◌<◌, ◌≡◌, refl, sym, ap, ◌∙◌, subst, ◌≢◌, ◌↔◌, ◌⊎◌, inl, inr,
  Bool, true, false, not, ◌&&◌, ◌||◌, Option, none, some, List, [], ◌∷◌, ◌++◌, map, append-nil,
  append_assoc, arith,
}
use barrel_test.Base.Int.{
  ℤ, pos, negsuc, pos_part, neg_part, sub_ℕ, ◌+ℤ◌, neg, ltb_ℤ, eqb_ℤ, ◌≤ℤ◌, u32_mod, u64_mod,
  wrap_word, to_int, sub32, sub64, add64, mul64,
}
use barrel_test.Base.Run.{Run, done, spins, faults, ◌>>=◌, divide}
use barrel_test.Helpers.{Word}
use barrel_test.Memory.{Mem, barrel_size}
use barrel_test.Memory.Words.{load32, store32}
use barrel_test.TypeInfo.{Layout}
use barrel_test.Heap.{HeapService, remaining}
use barrel_test.Collection.{World, set_mem, unit_size, count_of}

-- GlobalBarrelService and the world that it works in.
pub record Service : Type 0 where
  pub world : World
  pub heap : HeapService
  pub next_available : ℤ
  pub last_physical : ℤ
  pub started : Bool

abbrev pub mem : Service → Mem
mem s = s.world.bins.mem

abbrev pub put_mem : Service → Mem → Service
put_mem s m = record s { world = set_mem s.world m }

-- The fields of the BarrelNode at `p`.
abbrev pub barrel_count : Mem → Word → ℕ
barrel_count m p = load32 m (p + 16)

abbrev pub barrel_offset : Mem → Word → ℕ
barrel_offset m p = load32 m (p + 20)

abbrev pub barrel_start : Mem → Word → ℕ
barrel_start m p = load32 m (p + 24)

abbrev pub next_node : Mem → Word → ℤ
next_node m p = to_int (load32 m (p + 28))

abbrev pub set_barrel_count : Mem → Word → ℕ → Mem
set_barrel_count m p v = store32 m (p + 16) (v % u32_mod)

abbrev pub set_barrel_offset : Mem → Word → ℕ → Mem
set_barrel_offset m p v = store32 m (p + 20) (v % u32_mod)

abbrev pub set_barrel_start : Mem → Word → ℕ → Mem
set_barrel_start m p v = store32 m (p + 24) (v % u32_mod)

abbrev pub set_next_node : Mem → Word → ℤ → Mem
set_next_node m p i = store32 m (p + 28) (wrap_word u32_mod i)

-- OMEGA and NONE as indices of nodes.
abbrev pub omega_index : ℤ
omega_index = negsuc 0

abbrev pub none_index : ℤ
none_index = negsuc 1

-- Barrel_GetNode: Omegus, NULL, or a place in the heap.
unfoldable pub get_node : Layout → Service → ℤ → Word
get_node layout s index =
    if eqb_ℤ index omega_index
    then layout.omegus
    else if ltb_ℤ index omega_index
    then 0
    else if leb (count_of (mem s) layout.omegus) (pos_part index)
    then 0
    else s.heap.heap_start + pos_part index * barrel_size

-- Barrel_GetLastPhysicalNode.
unfoldable pub get_last_physical_node : Layout → Service → Word
unfolding get_node
get_last_physical_node layout s = get_node layout s s.last_physical

-- Barrel_SetLastPhysicalNode.
unfoldable pub set_last_physical_node : Service → ℤ → Service
set_last_physical_node s i = record s { last_physical = i }

-- Barrel_GetSize.
unfoldable pub get_size : Service → Word → ℕ
get_size s node = barrel_count (mem s) node * barrel_size

-- Barrel_GetHead.
unfoldable pub get_head : Service → Word → Word
get_head s node = add64 (barrel_start (mem s) node * barrel_size) s.heap.heap_start

-- Barrel_GetBarrelPtr, of an unsigned index.
unfoldable pub get_barrel_ptr : Service → ℕ → Word
get_barrel_ptr s index = add64 s.heap.heap_start (index * barrel_size)

-- C's remainder, which faults at 0.
abbrev pub modulo : ℕ → ℕ → Run ℕ
modulo a b = if b == 0 then faults else done (a % b)

-- Barrel_GetUnitPtr.
unfoldable pub get_unit_ptr : Service → Word → ℕ → Run Word
unfolding unit_size
get_unit_ptr s node index = do
  size ← unit_size s.world node
  target ←
      modulo (add64 (mul64 size index) (barrel_offset (mem s) node * barrel_size))
        (barrel_count (mem s) node * barrel_size)
  done (add64 (add64 (barrel_start (mem s) node * barrel_size) s.heap.heap_start) target)

-- Barrel_GetElementPtr.
unfoldable pub get_element_ptr : Service → Word → ℕ → Run Word
unfolding unit_size
get_element_ptr s node index = do
  size ← unit_size s.world node
  target ←
      modulo (add64 (barrel_offset (mem s) node * barrel_size) (mul64 index size))
        (barrel_count (mem s) node * barrel_size)
  done (add64 (add64 target (barrel_start (mem s) node * barrel_size)) s.heap.heap_start)

-- Barrel_NodeCount.
unfoldable pub node_count : Layout → Service → ℕ
node_count layout s = barrel_count (mem s) layout.omegus

-- Barrel_RemainingSizeCap.
unfoldable pub remaining_size_cap : Service → Word → Run ℕ
unfolding unit_size
remaining_size_cap s node = do
  size ← unit_size s.world node
  done (sub64 (barrel_count (mem s) node * barrel_size) (mul64 (count_of (mem s) node) size))

-- Barrel_RemainingUnitCap.
unfoldable pub remaining_unit_cap : Service → Word → Run ℕ
unfolding remaining_size_cap
remaining_unit_cap s node = do
  cap ← remaining_size_cap s node
  size ← unit_size s.world node
  n ← divide cap size
  done (n % u32_mod)

-- Barrel_maximumAvailableBarrels.
unfoldable pub maximum_available_barrels : Service → ℕ → ℕ
unfolding remaining
maximum_available_barrels s requested =
    let available = remaining s.heap / barrel_size % u32_mod in
    if ltb available requested then available else requested

-- Barrel_Capacity.
unfoldable pub capacity : Service → Word → Run ℕ
unfolding unit_size
capacity s node = do
  size ← unit_size s.world node
  n ← divide (barrel_count (mem s) node * barrel_size) size
  done (n % u32_mod)
