-- ===== src/Collection/Lock.antt =====
-- The spin lock of Collection_Request and Collection_Release: on one thread, and between threads.
use barrel_test.Collection.{store32, request, release, lock_of}
use barrel_test.Base.{
  ◌==◌, if◌then◌else◌, get_elem?, set, replicate, get_elem?-set-some, ℕ, zero, suc, ◌+◌, ◌≤◌, ◌<◌,
  ◌≡◌, refl, ◌∙◌, ◌≢◌, ◌↔◌, Option, none, some, List, [], ◌∷◌, arith,
}
use barrel_test.Base.Run.{done, spins}
use barrel_test.Memory.{Mem}
use barrel_test.Memory.Words.{Apart, byte-store32, load32-store32}

module _ (m : Mem) (p : ℕ) where
  -- On one thread: a free lock is taken by Collection_Request, which then waits for ever on a second
  -- call; Collection_Release frees it again. No byte but the lock's four changes.
  pub request-release :
      lock_of m p ≡ 0
      → (m' : Mem) × (request m p ≡ done m')
        × (request m' p ≡ spins)
        × (lock_of (release m' p) p ≡ 0)
        × ((b : ℕ) → Apart (p + 12) 4 b 1 → release m' p b ≡ m b)
  unfolding request release
  request-release free =
      let m' = store32 m (p + 12) 1 in
      (
        m',
        rw free,
        rw (load32-store32 m (p + 12) 1 (omega arith)),
        load32-store32 m' (p + 12) 0 (omega arith),
        λ b apart. byte-store32 m' (p + 12) 0 b apart ∙ byte-store32 m (p + 12) 1 b apart,
      )

  -- Collection_Request waits exactly on a lock that is not 0.
  pub request-spins : (request m p ≡ spins) ↔ (lock_of m p ≢ 0)
  unfolding request
  request-spins = (λ h. ground arith, λ h. ground arith)

-- Where a thread stands: outside, in the loop of Collection_Request, or between its return and
-- Collection_Release.
pub data Phase : Type 0 where
  outside waiting inside : Phase

pub record Shared : Type 0 where
  pub lock : ℕ
  pub phases : List Phase

-- InterlockedCompareExchange, an intrinsic of the compiler: the old value, and the new one.
unfoldable pub compare_exchange : ℕ → ℕ → ℕ → ℕ × ℕ
compare_exchange target exchange comparand =
    (target, if target == comparand then exchange else target)

-- The next step of thread `i`, by its phase: a call of Collection_Request, one round of its loop,
-- or Collection_Release.
unfoldable pub advance_thread : Shared → ℕ → Option Phase → Shared
unfolding compare_exchange
advance_thread s i none = s
advance_thread s i (some outside) = record s { phases = set s.phases i waiting }
advance_thread s i (some waiting) =
    let (old, new) = compare_exchange s.lock 1 0 in
    if old == 0
    then (record { lock = new; phases = set s.phases i inside })
    else (record s { lock = new })
advance_thread s i (some inside) = record { lock = 0; phases = set s.phases i outside }

unfoldable pub step : Shared → ℕ → Shared
unfolding advance_thread
step s i = advance_thread s i (get_elem? s.phases i)

-- The threads take their steps in the order of a schedule.
unfoldable pub run_schedule : Shared → List ℕ → Shared
unfolding step
run_schedule s [] = s
run_schedule s (i ∷ schedule) = run_schedule (step s i) schedule

-- All threads outside, the lock free.
abbrev pub start : ℕ → Shared
start n = record { lock = 0; phases = replicate n outside }

abbrev weight : Phase → ℕ
weight outside = 0
weight waiting = 0
weight inside = 1

abbrev holders : List Phase → ℕ
holders [] = 0
holders (p ∷ ps) = weight p + holders ps

-- The lock is 1 while one thread is inside and 0 while none is.
abbrev IsExclusive : Shared → Type 0
IsExclusive s = (holders s.phases ≡ s.lock) × (s.lock ≤ 1)

holders-set :
    (ps : List Phase) (i : ℕ) (p q : Phase)
    → get_elem? ps i ≡ some p
    → holders (set ps i q) + weight p ≡ holders ps + weight q
holders-set [] i p q e = absurd (cc)
holders-set (x ∷ ps) zero p q e = let same : x ≡ p = ground arith in rw same (omega arith)
holders-set (x ∷ ps) (suc i) p q e = omega (arith, holders-set ps i p q e)

advance-IsExclusive :
    (s : Shared) (i : ℕ) (o : Option Phase)
    → get_elem? s.phases i ≡ o
    → IsExclusive s
    → IsExclusive (advance_thread s i o)
unfolding advance_thread
advance-IsExclusive s i none e v = v
advance-IsExclusive s i (some outside) e v = omega (arith, holders-set s.phases i outside waiting e)
advance-IsExclusive s i (some waiting) e v = ground (arith, holders-set s.phases i waiting inside e)
advance-IsExclusive s i (some inside) e v = omega (arith, holders-set s.phases i inside outside e)

run-IsExclusive :
    (s : Shared) (schedule : List ℕ) → IsExclusive s → IsExclusive (run_schedule s schedule)
unfolding run_schedule
run-IsExclusive s [] v = v
run-IsExclusive s (i ∷ schedule) v =
    run-IsExclusive (step s i) schedule (advance-IsExclusive s i _ refl v)

holders-replicate : (n : ℕ) → holders (replicate n outside) ≡ 0
holders-replicate zero = refl
holders-replicate (suc n) = omega (arith, holders-replicate n)

one-le-holders : (ps : List Phase) (i : ℕ) → get_elem? ps i ≡ some inside → 1 ≤ holders ps
one-le-holders [] i e = absurd (cc)
one-le-holders (x ∷ ps) zero e = let same : x ≡ inside = ground arith in rw same (omega arith)
one-le-holders (x ∷ ps) (suc i) e = omega (arith, one-le-holders ps i e)

two-le-holders :
    (ps : List Phase) (i j : ℕ)
    → i < j
    → get_elem? ps i ≡ some inside
    → get_elem? ps j ≡ some inside
    → 2 ≤ holders ps
two-le-holders [] i j lt e f = absurd (cc)
two-le-holders (x ∷ ps) zero zero lt e f = absurd (omega arith)
two-le-holders (x ∷ ps) zero (suc j) lt e f =
    let same : x ≡ inside = ground arith in rw same (omega (arith, one-le-holders ps j f))
two-le-holders (x ∷ ps) (suc i) zero lt e f = absurd (omega arith)
two-le-holders (x ∷ ps) (suc i) (suc j) lt e f =
    omega (arith, two-le-holders ps i j (omega arith) e f)

-- Mutual exclusion: whatever the number of threads and the order of their steps, no two of them are
-- at once between the return of Collection_Request and Collection_Release.
pub mutual_exclusion :
    (n : ℕ) (schedule : List ℕ) (i j : ℕ)
    → i < j
    → get_elem? (run_schedule (start n) schedule).phases i ≡ some inside
    → get_elem? (run_schedule (start n) schedule).phases j ≢ some inside
mutual_exclusion n schedule i j lt e f =
    let v = run-IsExclusive (start n) schedule (omega (arith, holders-replicate n)) in
    omega (arith, v.0, v.1, two-le-holders (run_schedule (start n) schedule).phases i j lt e f)

holders_of_none : (ps : List Phase) → ((j : ℕ) → get_elem? ps j ≢ some inside) → holders ps ≡ 0
holders_of_none [] free = refl
holders_of_none (outside ∷ ps) free = omega (arith, holders_of_none ps (λ j. free (suc j)))
holders_of_none (waiting ∷ ps) free = omega (arith, holders_of_none ps (λ j. free (suc j)))
holders_of_none (inside ∷ ps) free = absurd (free 0 refl)

enters :
    (s : Shared) (i : ℕ)
    → s.lock ≡ 0
    → get_elem? s.phases i ≡ some waiting
    → get_elem? (step s i).phases i ≡ some inside
unfolding step advance_thread
enters s i free e = rw (e, free) (get_elem?-set-some s.phases i waiting inside e)

-- When in a run from the start no thread is inside, a waiting thread that takes a step gets in.
pub step-progress :
    (n : ℕ) (schedule : List ℕ) (i : ℕ)
    → ((j : ℕ) → get_elem? (run_schedule (start n) schedule).phases j ≢ some inside)
    → get_elem? (run_schedule (start n) schedule).phases i ≡ some waiting
    → get_elem? (step (run_schedule (start n) schedule) i).phases i ≡ some inside
step-progress n schedule i free e =
    let s = run_schedule (start n) schedule in
    let v = run-IsExclusive (start n) schedule (omega (arith, holders-replicate n)) in
    enters s i (omega (arith, v.0, holders_of_none s.phases free)) e
