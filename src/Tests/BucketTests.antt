-- ===== src/Tests/BucketTests.antt =====
-- A bucket of three units of four bytes.
use barrel_test.Base.{
  get_or, set, replicate, ℕ, ◌+◌, ◌-◌, ◌*◌, ◌≤◌, ◌≡◌, refl, true, some, ◌∷◌, arith,
}
use barrel_test.Base.Run.{done}
use barrel_test.Enums.{mem_flag_code, fixed_size, iterate}
use barrel_test.Helpers.{Request}
use barrel_test.Memory.Words.{Apart, load32}
use barrel_test.TypeInfo.{Bins, get}
use barrel_test.Collection.{
  World, get_extensions, extensions_of, count_of, lock_of, bucket_methods_ptr,
}
use barrel_test.Bucket.{
  Reply, Bucket, get_ptr, iterate_bucket, fill_loop, created_flags, store_bucket, ctor, chunk_head,
  chunk_size,
}
use barrel_test.Bucket.Access.{get_ptr_lem, iterate_lem}
use barrel_test.Bucket.Create.{created_flags_lem, store_bucket_lem, fill_loop_lem, ctor_lem}
use barrel_test.Tests.Fixtures.{
  world, empty_world, layout, int_name, int_type, three_units, ramp, struct_mem, zero_mem,
}

get_ptr_lem_test :
    (get_ptr world 1000 2 ≡ done (chunk_head struct_mem 1000 + 2 * 4))
    × (2 * 4 + 4 ≤ chunk_size struct_mem 1000)
unfolding load32
get_ptr_lem_test = get_ptr_lem three_units 2 (omega arith)

-- Slot tSRC has the bucket, and slot Ix_TRG the index 1.
abbrev next_request : Request
next_request = record { type = iterate; params = 0 ∷ 0 ∷ 1000 ∷ 1 ∷ replicate 13 0 }

iterate_lem_test :
    (r : Reply) × (iterate_bucket world next_request ≡ done r)
    × (r.answer ≡ true)
    × (get_or r.params 1 0 ≡ chunk_head struct_mem 1000 + 1 * 4)
    × (get_or r.params 3 0 ≡ 1 + 1)
unfolding load32
iterate_lem_test =
    iterate_lem three_units next_request refl (omega arith) (omega arith) (omega arith)

created_flags_lem_test : created_flags 31 ≡ mem_flag_code fixed_size
created_flags_lem_test = created_flags_lem 31

abbrev small_bucket : Bucket
small_bucket = record { extensions = 1; count = 3; head = 2000; size = 12 }

store_bucket_lem_test :
    (extensions_of (store_bucket ramp 1000 small_bucket) 1000 ≡ 1)
    × (count_of (store_bucket ramp 1000 small_bucket) 1000 ≡ 3)
    × (lock_of (store_bucket ramp 1000 small_bucket) 1000 ≡ 0)
    × (chunk_head (store_bucket ramp 1000 small_bucket) 1000 ≡ 2000)
    × (chunk_size (store_bucket ramp 1000 small_bucket) 1000 ≡ 12)
    × ((a : ℕ) → Apart 1000 32 a 1 → store_bucket ramp 1000 small_bucket a ≡ ramp a)
store_bucket_lem_test =
    store_bucket_lem ramp 1000 small_bucket (omega arith) (omega arith) (omega arith) (omega arith)

fill_loop_lem_test : fill_loop (3 - 1) 1 ramp 10 4 (10 + 2 * 4 + 3) ≡ ramp (10 + 3)
fill_loop_lem_test =
    fill_loop_lem ramp 10 4 3 (omega arith) (omega arith) 2 3 (omega arith) (omega arith)

-- The bins with the type added, and the world with its extensions.
abbrev typed_bins : Bins
typed_bins = record empty_world.bins {
  types = set empty_world.bins.types 0 int_type;
  type_count = 1;
}

abbrev typed_world : World
typed_world = record empty_world {
  bins = typed_bins;
  extensions =
      set empty_world.extensions 0
        (record { type = 1; methods = bucket_methods_ptr; mem_flags = 2 });
  extension_count = 1;
}

typed : get layout empty_world.bins int_name 4 ≡ (some 0, typed_bins)
unfolding get barrel_test.TypeInfo.get_nullable_template
typed = refl

shared :
    get_extensions (record empty_world { bins = typed_bins }) 1 bucket_methods_ptr 2
    ≡ (1, typed_world)
unfolding get_extensions
shared = refl

ctor_lem_example :
    (v : World) × (ctor layout empty_world int_name 4 1000 2000 0 3 ≡ done (1000, v))
    × (extensions_of v.bins.mem 1000 ≡ 1)
    × (count_of v.bins.mem 1000 ≡ 3)
    × (lock_of v.bins.mem 1000 ≡ 0)
    × (chunk_head v.bins.mem 1000 ≡ 2000)
    × (chunk_size v.bins.mem 1000 ≡ 4 * 3)
    × ((a : ℕ) → Apart 1000 32 a 1 → v.bins.mem a ≡ zero_mem a)
ctor_lem_example =
    ctor_lem layout empty_world int_name 4 1000 2000 0 3 0 0 typed refl shared refl (omega arith)
      (omega arith) (omega arith) (omega arith)
