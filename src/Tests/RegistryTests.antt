-- ===== src/Tests/RegistryTests.antt =====
-- The bins of types and properties, the registry of extensions, and the lock.
use barrel_test.Base.{
  get_elem?, ℕ, zero, suc, ◌+◌, ◌<◌, ◌≡◌, refl, ◌≢◌, inr, none, some, List, [], ◌∷◌, arith,
}
use barrel_test.Base.Run.{done, spins}
use barrel_test.TypeInfo.{Bins, get_nullable, get_nullable_template, property_get}
use barrel_test.TypeInfo.Registry.{IsValid}
use barrel_test.TypeInfo.Lookup.{get_nullable-IsValid, get_nullable_twice}
use barrel_test.TypeInfo.Properties.{property_get_twice}
use barrel_test.TypeInfo.Templates.{get_nullable_template_overrun}
use barrel_test.Memory.{Mem}
use barrel_test.Memory.Words.{Apart, load32}
use barrel_test.Collection.{get_extensions, request, release, lock_of, entry_ptr}
use barrel_test.Collection.Registry
use barrel_test.Collection.Registry.{get_extensions-IsValid, get_extensions_twice}
use barrel_test.Collection.Lock.{
  Phase, outside, inside, waiting, run_schedule, step, start, mutual_exclusion, step-progress,
  request-release,
}
use barrel_test.Tests.Fixtures.{
  layout, bins, bins-IsValid, bins-IsSized, int_name, int_extensions, empty_world,
  empty_world-IsValid, ramp, struct_mem,
}

get_nullable-IsValid_example : IsValid (get_nullable layout bins int_name 4 0).1
get_nullable-IsValid_example =
    get_nullable-IsValid layout int_name 4 0 bins-IsValid (omega arith) tt

get_nullable_at : (get_nullable layout bins int_name 4 0).0 ≡ some 0
unfolding get_nullable
get_nullable_at = refl

get_nullable_twice_example :
    get_nullable layout (get_nullable layout bins int_name 4 0).1 int_name 8 900
    ≡ (some 0, (get_nullable layout bins int_name 4 0).1)
get_nullable_twice_example =
    get_nullable_twice layout int_name 4 0 8 900 0 bins-IsValid (omega arith) tt get_nullable_at

property_get_at : (property_get bins int_name none).0 ≡ some 0
unfolding property_get
property_get_at = refl

property_get_twice_test :
    property_get (property_get bins int_name none).1 int_name (some 3)
    ≡ (some 0, (property_get bins int_name none).1)
property_get_twice_test = property_get_twice int_name none (some 3) 0 bins-IsSized property_get_at

abbrev full_bins : Bins
full_bins = record bins { null_head = 65536 + 4096; mem = ramp }

get_nullable_template_overrun_example :
    ((get_nullable_template layout full_bins 8 10).0 ≡ 65536 + 4096)
    × ((k : ℕ)
        → k < 8
        → (get_nullable_template layout full_bins 8 10).1.mem (65536 + 4096 + k) ≡ ramp (10 + k))
get_nullable_template_overrun_example =
    get_nullable_template_overrun layout full_bins 8 10 (omega arith) (omega arith) (omega arith)
      (inr (omega arith))

get_extensions-IsValid_example : Registry.IsValid (get_extensions empty_world 1 1 2).1
get_extensions-IsValid_example = get_extensions-IsValid 1 1 2 empty_world-IsValid

get_extensions_at : (get_extensions empty_world 1 1 2).0 ≡ entry_ptr (some 0)
unfolding get_extensions
get_extensions_at = refl

get_extensions_twice_example :
    (get_elem? (get_extensions empty_world 1 1 2).1.extensions 0 ≡ some int_extensions)
    × (get_extensions (get_extensions empty_world 1 1 2).1 1 1 2
        ≡ (entry_ptr (some 0), (get_extensions empty_world 1 1 2).1))
get_extensions_twice_example = get_extensions_twice 1 1 2 empty_world-IsValid 0 get_extensions_at

free : lock_of struct_mem 3000 ≡ 0
unfolding load32
free = refl

request-release_test :
    (m' : Mem) × (request struct_mem 3000 ≡ done m')
    × (request m' 3000 ≡ spins)
    × (lock_of (release m' 3000) 3000 ≡ 0)
    × ((b : ℕ) → Apart (3000 + 12) 4 b 1 → release m' 3000 b ≡ struct_mem b)
request-release_test = request-release struct_mem 3000 free

-- Of three threads the second gets in, and the first and the third wait.
abbrev schedule : List ℕ
schedule = 0 ∷ 1 ∷ 1 ∷ 0 ∷ 2 ∷ 2 ∷ []

second_inside : get_elem? (run_schedule (start 3) schedule).phases 1 ≡ some inside
unfolding run_schedule
second_inside = refl

mutual_exclusion_example : get_elem? (run_schedule (start 3) schedule).phases 2 ≢ some inside
mutual_exclusion_example = mutual_exclusion 3 schedule 1 2 (omega arith) second_inside

-- The second thread leaves, and the first, which waited, gets in.
abbrev left_schedule : List ℕ
left_schedule = 0 ∷ 1 ∷ 1 ∷ 0 ∷ 1 ∷ []

abbrev left_phases : List Phase
left_phases = waiting ∷ outside ∷ outside ∷ []

left : (run_schedule (start 3) left_schedule).phases ≡ left_phases
unfolding run_schedule
left = refl

nobody : (j : ℕ) → get_elem? left_phases j ≢ some inside
nobody zero e = absurd (ground arith)
nobody (suc zero) e = absurd (ground arith)
nobody (suc (suc zero)) e = absurd (ground arith)
nobody (suc (suc (suc j))) e = absurd (ground arith)

step-progress_example :
    get_elem? (step (run_schedule (start 3) left_schedule) 0).phases 0 ≡ some inside
step-progress_example = step-progress 3 left_schedule 0 (λ j. rw left (nobody j)) (rw left refl)
