-- ===== src/Heap.antt =====
-- tHeap.c: the heap service, which counts the pages behind the start of the heap. The calls of the
-- operating system are a parameter where their answers matter, and a list of calls where not.
pub mod Pages
pub mod Worker
use barrel_test.Base.{
  ltb, leb, ◌==◌, if◌then◌else◌, Bool-cases, ==_iff, ==_false, ==_refl, ltb→lt, lt→ltb, ltb-false,
  codes, length, get_elem?, get_or, set, replicate, All, length-append, length-set,
  length-replicate, get_or-set_self, get_or-set_ne, get_or-replicate, get_elem?-append_left,
  get_elem?-append_last, get_elem?-set_self, get_elem?-set_ne, get_elem?-set-some, ℕ, zero, suc,
  ◌+◌, ◌-◌, ◌*◌, ◌/◌, ◌%◌, ◌^◌, ◌≤◌, ◌<◌, ◌≡◌, refl, sym, ap, ◌∙◌, subst, ◌≢◌, ◌↔◌, ◌⊎◌, inl, inr,
  Bool, true, false, not, ◌&&◌, ◌||◌, Option, none, some, List, [], ◌∷◌, ◌++◌, map, append-nil,
  append_assoc, arith,
}
use barrel_test.Base.Int.{
  ℤ, pos, negsuc, pos_part, neg_part, sub_ℕ, ◌+ℤ◌, neg, ltb_ℤ, eqb_ℤ, ◌≤ℤ◌, u32_mod, u64_mod,
  wrap_word, to_int, sub32, sub64, add64, mul64,
}
use barrel_test.Enums.{page_size, sizeof_page, barrel_flag_code, run}
use barrel_test.Helpers.{Word}
use barrel_test.Memory.{Mem}
use barrel_test.Memory.Words.{store64}

pub record HeapService : Type 0 where
  pub heap_start : Word
  pub heap_end : Word
  pub page_count : ℕ
  pub local_flags : ℕ

-- What the service asks of Windows: HeapAlloc(start, 0, bytes) and HeapFree(start, 0, place).
pub data SystemCall : Type 0 where
  heap_alloc : Word → ℤ → SystemCall
  heap_free : Word → Word → SystemCall

-- The answers of HeapCreate, HeapSetInformation and CreateThread.
pub record System : Type 0 where
  pub heap_create : Word
  pub heap_set_information : Bool
  pub create_thread : Word

-- The clamp at the start of Heap_DeltaPages: no more pages are given back than there are.
unfoldable pub clamp_pages : ℕ → ℤ → ℤ
clamp_pages page_count delta =
    if ltb_ℤ delta (pos 0) && ltb page_count (wrap_word u32_mod (neg delta))
    then to_int (wrap_word u32_mod (neg (pos page_count)))
    else delta

-- Heap_DeltaPages. Only the branch with no action returns a value: behind the others the function
-- ends without one, which is `none`.
unfoldable pub delta_pages : HeapService → ℤ → Option Bool × HeapService × List SystemCall
unfolding clamp_pages ◌+ℤ◌
delta_pages s delta =
    let d = clamp_pages s.page_count delta in
    let s' = record s { page_count = wrap_word u32_mod (pos s.page_count +ℤ d) } in
    if eqb_ℤ d (pos 0)
    then (some false, s, [])
    else if ltb_ℤ (pos 0) d
    then (none, s', heap_alloc s.heap_start (pos (pos_part d * page_size)) ∷ [])
    else (none, s', heap_free s.heap_start (add64 s.heap_start (s'.page_count * page_size)) ∷ [])

-- Heap_Remaining.
unfoldable pub remaining : HeapService → ℕ
remaining s = sub64 (add64 s.heap_start (s.page_count * sizeof_page)) s.heap_end

-- Heap_Head.
unfoldable pub head : HeapService → Word
head s = s.heap_start

-- `for (i = 0; i < 512; i++) targetPage->_mem[i] = 0`, with `n` rounds left.
unfoldable pub clear_page_loop : ℕ → ℕ → Mem → Word → Mem
clear_page_loop zero i m page = m
clear_page_loop (suc n) i m page = clear_page_loop n (i + 1) (store64 m (page + i * 8) 0) page

-- Heap_ClearPage.
unfoldable pub clear_page : Mem → HeapService → ℕ → Mem
unfolding clear_page_loop
clear_page m s index = clear_page_loop 512 0 m (s.heap_start + index * sizeof_page)

-- The page delta that one round of Heap_ServiceWork asks for.
unfoldable pub work_delta : HeapService → ℤ
work_delta s =
    let target = s.heap_end in
    let current = add64 s.heap_start (sizeof_page * s.page_count) in
    to_int
      (sub64 ((if ltb current target then target - current else current - target) / sizeof_page) 1)

-- Heap_ServiceInit: the service, and the memory with its first page cleared, or nothing.
unfoldable pub service_init : System → Mem → Bool → Option (HeapService × Mem × List SystemCall)
unfolding delta_pages clear_page
service_init system m clear =
    if system.heap_create == 0
    then none
    else if system.heap_set_information
    then some (started (delta_pages fresh (pos 1)))
    else none
  where
    fresh : HeapService
    fresh = record {
      heap_start = system.heap_create;
      heap_end = system.heap_create;
      page_count = 0;
      local_flags = barrel_flag_code run;
    }

    started : Option Bool × HeapService × List SystemCall → HeapService × Mem × List SystemCall
    started (r, s, calls) = (s, (if clear then clear_page m s 0 else m), calls)
