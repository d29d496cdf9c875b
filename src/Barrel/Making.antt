-- ===== src/Barrel/Making.antt =====
-- The making of nodes (Barrel_NodeCtor, Barrel_Sourced, Barrel_ServiceInit, Barrel_ctor) and the
-- answers to requests (Barrel_Extensions).
pub mod Doubling
pub mod Fields
pub mod Filling
pub mod Attaching
use barrel_test.Base.{
  ltb, leb, ◌==◌, if◌then◌else◌, Bool-cases, ==_iff, ==_false, ==_refl, ltb→lt, lt→ltb, ltb-false,
  codes, length, get_elem?, get_or, set, replicate, All, length-append, length-set,
  length-replicate, get_or-set_self, get_or-set_ne, get_or-replicate, get_elem?-append_left,
  get_elem?-append_last, get_elem?-set_self, get_elem?-set_ne, get_elem?-set-some, ℕ, zero, suc,
  ◌+◌, ◌-◌, ◌*◌, ◌/◌, ◌%◌, ◌^◌, ◌≤◌, ◌<◌, ◌≡◌, refl, sym, ap, ◌∙◌, subst, ◌≢◌, ◌↔◌, ◌⊎◌, inl, inr,
  Bool, true, false, not, ◌&&◌, ◌||◌, Option, none, some, List, [], ◌∷◌, ◌++◌, map, append-nil,
  append_assoc, arith,
}
use barrel_test.Base.Int.{
  ℤ, pos, negsuc, pos_part, neg_part, sub_ℕ, ◌+ℤ◌, neg, ltb_ℤ, eqb_ℤ, ◌≤ℤ◌, u32_mod, u64_mod,
  wrap_word, to_int, sub32, sub64, add64, mul64,
}
use barrel_test.Base.Run.{Run, done, spins, faults, starves, ◌>>=◌, divide}
use barrel_test.Enums.{
  mem_flag_code, fixed_size, managed, empty, param_option_code, t_chunk, t_use, t_release,
  delta_size, t_resize, RequestType, info, manage, t_variant, t_trg, t_src, t_size, t_count,
  t_capacity, t_name, ParamType,
}
use barrel_test.Helpers.{Word, Request, slot, slot_code}
use barrel_test.Memory.{Mem, barrel_size, raw_transcribe}
use barrel_test.Memory.Words.{load64, store32}
use barrel_test.TypeInfo.{Name, Layout, get, get_info}
use barrel_test.Heap.{System, HeapService, remaining, service_init, SystemCall}
use barrel_test.Chunk
use barrel_test.Collection.{
  World, set_mem, entry_ptr, deref, has_flag, get_extensions, barrel_extensions_ptr, create,
  count_of, request, release,
}
use barrel_test.Bucket.{Reply, reply, store_info, created_flags, or_flag}
use barrel_test.Barrel.{
  Service, mem, put_mem, barrel_count, barrel_start, set_barrel_count, set_barrel_offset,
  set_barrel_start, set_next_node, none_index, omega_index, get_node, get_last_physical_node,
  set_last_physical_node, get_barrel_ptr, get_head, get_size, capacity,
}
use barrel_test.Barrel.Sizing.{delta_size_request, resize_request, next_available_node_ix}

-- `while (n * sizeof(Barrel) < needed && n * sizeof(Barrel) < Heap_Remaining()) n *= 2`, on fuel.
unfoldable pub double_loop : ℕ → ℕ → ℕ → ℕ → Option ℕ
double_loop zero n needed left = none
double_loop (suc fuel) n needed left =
    let rest = double_loop fuel (n * 2) needed left in
    if ltb (n * barrel_size) needed && ltb (n * barrel_size) left then rest else some n

-- `for (i = 0; i < capacity; i++) rawTranscribe(&head[i * size], &src[i * size], size)`, with `n`
-- rounds left.
unfoldable pub copy_loop : ℕ → ℕ → Mem → Word → Word → ℕ → Mem
copy_loop zero i m trg src size = m
copy_loop (suc n) i m trg src size =
    copy_loop n (i + 1) (raw_transcribe m (trg + i * size) (src + i * size) size) trg src size

-- The fields that Barrel_NodeCtor stores, behind the lookup of the extensions.
unfoldable pub store_node : Mem → Word → ℕ → ℕ → Word → ℕ → Mem
unfolding create
store_node m loc start count extensions cap =
    set_next_node
      (set_barrel_offset
        (create (set_barrel_count (set_barrel_start m loc start) loc count) loc extensions cap) loc
        count)
      loc none_index

-- Barrel_NodeCtor, with `fuel` rounds for its doubling loop.
unfoldable pub node_ctor : ℕ → Service → Word → Word → Word → ℕ → ℕ → ℕ → Run Service
unfolding double_loop copy_loop store_node created_flags
node_ctor fuel s type loc src_head mem_flags init_capacity start = do
  type_info ← deref s.world.bins.types type
  let needed = mul64 type_info.size init_capacity
  n ← of_loop (double_loop fuel 1 needed (remaining s.heap))
  cap ← divide (if ltb needed (n * barrel_size) then needed else n * barrel_size) type_info.size
  let (ext, w) = get_extensions s.world type barrel_extensions_ptr (created_flags mem_flags)
  let count = if has_flag mem_flags (mem_flag_code empty) then 0 else n
  let m = store_node w.bins.mem loc start count ext (cap % u32_mod)
  let s' = record s { world = set_mem w m }
  done (
      if src_head == 0
      then s'
      else put_mem s'
          (copy_loop (cap % u32_mod) 0 m (get_barrel_ptr s' start) src_head type_info.size))
  where
    of_loop : Option ℕ → Run ℕ
    of_loop none = starves
    of_loop (some n) = done n

-- The last part of Barrel_Sourced, where both nodes are there.
unfoldable pub attach : ℕ → Layout → Service → Word → Word → ℕ → ℕ → ℤ → Word → Run (Word × Service)
unfolding node_ctor get_node set_last_physical_node
attach fuel layout s type src_head mem_flags init_capacity ix last = do
  let s1 = put_mem s (set_next_node (mem s) last ix)
  let s2 =
      put_mem s1
        (store32 (mem s1) (layout.omegus + 8) ((count_of (mem s1) layout.omegus + 1) % u32_mod))
  let node = get_node layout s2 ix
  s3 ←
      (if node == 0
        then faults
        else node_ctor fuel s2 type node src_head (or_flag mem_flags (mem_flag_code managed))
            init_capacity ((barrel_start (mem s2) last + barrel_count (mem s2) last) % u32_mod))
  done (node, set_last_physical_node s3 ix)

-- Barrel_Sourced behind Barrel_NextAvailableNodeIx.
unfoldable pub source_at : ℕ → Layout → Word → Word → ℕ → ℕ → ℤ × Service → Run (Word × Service)
unfolding attach get_last_physical_node
source_at fuel layout type src_head mem_flags init_capacity (ix, s) =
    let last = get_last_physical_node layout s in
    if ltb_ℤ ix (pos 0)
    then done (0, s)
    else if last == 0
    then done (0, s)
    else attach fuel layout s type src_head mem_flags init_capacity ix last

-- Barrel_Sourced: the pointer to a new node, or NULL.
unfoldable pub sourced : ℕ → Layout → Service → Word → Word → ℕ → ℕ → Run (Word × Service)
unfolding source_at next_available_node_ix
sourced fuel layout s type src_head mem_flags init_capacity = do
  r ← next_available_node_ix fuel layout s
  source_at fuel layout type src_head mem_flags init_capacity r

-- Barrel_ServiceInit behind Heap_ServiceInit: Omegus, with no barrel and no unit.
unfoldable pub omegus_init : ℕ → Layout → Name → Service → Run (Bool × Service)
unfolding node_ctor
omegus_init fuel layout node_name s = do
  let (type, bins) = get layout s.world.bins node_name barrel_size
  s' ←
      node_ctor fuel (record s { world = record s.world { bins = bins } }) (entry_ptr type)
        layout.omegus 0 (mem_flag_code managed + mem_flag_code empty) 0 0
  done
      (true, record s' { next_available = none_index; last_physical = omega_index; started = true })

unfoldable pub start_on :
    ℕ
    → Layout
    → Name
    → Service
    → Option (HeapService × Mem × List SystemCall)
    → Run (Bool × Service)
unfolding omegus_init
start_on fuel layout node_name s none = done (false, s)
start_on fuel layout node_name s (some (heap, m, calls)) =
    omegus_init fuel layout node_name (put_mem (record s { heap = heap }) m)

-- Barrel_ServiceInit; `node_name` is the literal "BarrelNode".
unfoldable pub start_service : ℕ → System → Layout → Name → Service → Run (Bool × Service)
unfolding start_on service_init
start_service fuel system layout node_name s =
    start_on fuel layout node_name s (service_init system (mem s) true)

-- Barrel_ctor on a started service.
unfoldable pub ctor_started :
    ℕ → Layout → Name → ℕ → Word → ℕ → ℕ → Bool × Service → Run (Word × Service)
unfolding sourced
ctor_started fuel layout name size src_head mem_flags init_capacity (false, s) = done (0, s)
ctor_started fuel layout name size src_head mem_flags init_capacity (true, s) =
    let (type, bins) = get layout s.world.bins name size in
    let s' = record s { world = record s.world { bins = bins } } in
    if entry_ptr type == 0
    then done (0, s')
    else sourced fuel layout s' (entry_ptr type) src_head mem_flags init_capacity

-- Barrel_ctor.
unfoldable pub ctor :
    ℕ → System → Layout → Name → Service → Name → ℕ → Word → ℕ → ℕ → Run (Word × Service)
unfolding ctor_started start_service
ctor fuel system layout node_name s name size src_head mem_flags init_capacity = do
  r ← (if s.started then done (true, s) else start_service fuel system layout node_name s)
  ctor_started fuel layout name size src_head mem_flags init_capacity r
