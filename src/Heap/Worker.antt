-- ===== src/Heap/Worker.antt =====
-- Heap_ServiceWork of tHeap.c, which runs on a thread of its own, and the start of that thread
-- (tServices.c, tThreads.c).
use native.Mathlib.Decide.{dec_lt}
use mathlib.Core.Path.{ap₂}
use barrel_test.Base.{
  ◌==◌, if◌then◌else◌, ℕ, zero, suc, ◌+◌, ◌-◌, ◌*◌, ◌%◌, ◌≤◌, ◌<◌, ◌≡◌, refl, Bool, false, not,
  ◌||◌, Option, none, some, List, [], ◌++◌, arith,
}
use barrel_test.Base.Int.{ℤ, pos, negsuc, u64_mod, add64}
use barrel_test.Base.Run.{Run, done, starves, ◌>>=◌}
use barrel_test.Enums.{barrel_flag_code, run, sizeof_page}
use barrel_test.Helpers.{Word}
use barrel_test.Heap.{HeapService, SystemCall, delta_pages, work_delta, clamp_pages}

pub record ThreadHandle : Type 0 where
  pub handle : Word
  pub id : ℕ
  pub service : Word
  pub offset : ℤ

-- ThreadHandle_ctor, of the handle at `p`. CreateThread answers a handle and an ID.
unfoldable pub thread_handle_ctor :
    Word × ℕ → ThreadHandle → Word → Word → Word → ℤ → Bool × ThreadHandle
thread_handle_ctor (handle, id) t p service work_entry offset =
    if p == 0 || (service == 0 || work_entry == 0) then (false, t) else (
      not (handle == 0),
      record { handle = handle; id = id; service = service; offset = offset },
    )

-- Service_Start, of the service at `p`, whose thread handle lies 8 bytes behind its flags: the
-- answer, the flags and the handle.
unfoldable pub service_start : Word × ℕ → ThreadHandle → Word → Word → Bool × ℕ × ThreadHandle
unfolding thread_handle_ctor
service_start thread t p start =
    let (b, t') = thread_handle_ctor thread t (p + 8) p start (pos 0) in
    (b, barrel_flag_code run, t')

-- What the caller of Heap_DeltaPages takes for its answer where it returns none.
abbrev answer : Bool → Option Bool → Bool
answer stale none = stale
answer stale (some b) = b

-- The loop of Heap_ServiceWork, for at most `fuel` rounds: the service, and the calls made in turn.
-- In round `k` a missing answer of Heap_DeltaPages is read as `stale k`.
unfoldable pub work_loop :
    (ℕ → Bool) → ℕ → ℕ → HeapService → List SystemCall → Run (HeapService × List SystemCall)
unfolding delta_pages work_delta
work_loop stale zero k s calls = starves
work_loop stale (suc fuel) k s calls =
    let (r, s', calls') = delta_pages s (work_delta s) in
    let rest = work_loop stale fuel (k + 1) s' (calls ++ calls') in
    if s.local_flags % 2 == barrel_flag_code run
    then (if answer (stale k) r then rest else done (s', calls ++ calls'))
    else done (s, calls)

-- Heap_ServiceWork, of the thread handle at `p` with the pointer to the service.
unfoldable pub service_work :
    (ℕ → Bool) → ℕ → Word → Word → HeapService → Run (ℕ × HeapService × List SystemCall)
unfolding work_loop
service_work stale fuel p service s =
    if p == 0 || (service == 0 || s.heap_start == 0)
    then done (1, s, [])
    else (do (s', calls) ← work_loop stale fuel 0 s []; done (0, s', calls))

-- The page delta where the end of the heap is its start: one less than the number of pages.
work_delta_none :
    (s : HeapService)
    → s.heap_end ≡ s.heap_start
    → s.heap_start < u64_mod
    → s.page_count ≡ 0
    → work_delta s ≡ negsuc 0
unfolding work_delta
work_delta_none s same room zero_pages =
    let e : add64 s.heap_start (sizeof_page * s.page_count) ≡ s.heap_start =
      omega (arith, zero_pages) in
    let d : s.heap_start - s.heap_start ≡ 0 = omega arith in rw (e, same, d) (ground arith)

work_delta_one :
    (s : HeapService)
    → s.heap_end ≡ s.heap_start
    → s.heap_start + sizeof_page < u64_mod
    → s.page_count ≡ 1
    → work_delta s ≡ pos 0
unfolding work_delta
work_delta_one s same room one =
    let e : add64 s.heap_start (sizeof_page * s.page_count) ≡ s.heap_start + sizeof_page =
      omega (arith, one) in
    rw (e, same) (ground arith)

delta_pages_idle :
    (s : HeapService)
    → clamp_pages s.page_count (work_delta s) ≡ pos 0
    → delta_pages s (work_delta s) ≡ (some false, s, [])
unfolding delta_pages
delta_pages_idle s idle = rw idle refl

clamped :
    (s : HeapService)
    → s.heap_end ≡ s.heap_start
    → s.heap_start + sizeof_page < u64_mod
    → s.page_count ≤ 1
    → clamp_pages s.page_count (work_delta s) ≡ pos 0
unfolding clamp_pages
clamped s same room few = elim (dec_lt 0 s.page_count) [
  | yes some_page ↦
      let one : s.page_count ≡ 1 = omega arith in
      ap₂ clamp_pages one (work_delta_one s same room one)
  | no empty ↦
      let zero_pages : s.page_count ≡ 0 = omega arith in
      ap₂ clamp_pages zero_pages (work_delta_none s same (omega arith) zero_pages)
]

-- As long as the heap has at most one page and its end is its start, as Heap_ServiceInit leaves
-- them, the thread of Heap_ServiceWork ends in its first round, without a call and with the service
-- as it was, whatever stands for the answers that Heap_DeltaPages does not give.
pub work_loop-idle :
    (stale : ℕ → Bool) (fuel : ℕ) (s : HeapService)
    → s.heap_end ≡ s.heap_start
    → s.heap_start + sizeof_page < u64_mod
    → s.page_count ≤ 1
    → work_loop stale (suc fuel) 0 s [] ≡ done (s, [])
unfolding work_loop
work_loop-idle stale fuel s same room few =
    rw (delta_pages_idle s (clamped s same room few)) (ground arith)
