-- ===== src/Tests/UserTests.antt =====
-- What a user asks of the bucket at 1000.
use barrel_test.Base.{◌+◌, ◌*◌, ◌≡◌, refl, inl, true, arith}
use barrel_test.Base.Run.{done, spins}
use barrel_test.Memory.Copy.{blit}
use barrel_test.Memory.Words.{load32, load64, store32}
use barrel_test.Chunk.{Chunk}
use barrel_test.Collection.{extensions_at, count_of, transcribe_compare}
use barrel_test.Barrel.{put_mem}
use barrel_test.User.{capacity, count, transcribe, transcribe_loop}
use barrel_test.User.Queries.{HasBucketMethods, capacity_lem, count_lem}
use barrel_test.User.Transcribe.{HasUnits, transcribe_loop_lem, transcribe-spins}
use barrel_test.Tests.Fixtures.{service, layout, frame, struct_mem, ramp, int_extensions}

bucket_extensions : extensions_at service.world 1000 ≡ done int_extensions
unfolding extensions_at load64
bucket_extensions = refl

is_bucket : HasBucketMethods service 1000
is_bucket = (int_extensions, bucket_extensions, refl)

count_lem_test :
    count 1 layout frame service 1000
    ≡ done (
      count_of struct_mem 1000,
      put_mem service (store32 struct_mem 4000 (count_of struct_mem 1000)),
    )
unfolding load32
count_lem_test = count_lem 1 layout frame service 1000 is_bucket (omega arith)

capacity_lem_test : capacity 1 layout frame service 1000 ≡ done (load32 struct_mem 4000, service)
capacity_lem_test = capacity_lem 1 layout frame service 1000 is_bucket

same_type : transcribe_compare service.world int_extensions int_extensions ≡ done true
unfolding transcribe_compare barrel_test.TypeInfo.type_info_compare
    barrel_test.Helpers.default_string_compare
same_type = refl

transcribe-spins_example : transcribe 1 layout frame service 1000 1000 0 1 2 ≡ spins
unfolding load32
transcribe-spins_example =
    transcribe-spins 1 layout frame service 1000 0 1 2 int_extensions (omega arith) refl
      bucket_extensions same_type

abbrev to_chunk : Chunk
to_chunk = record { head = 2000; size = 12 }

abbrev from_chunk : Chunk
from_chunk = record { head = 5000; size = 40 }

to : HasUnits to_chunk 1 2 4
to = record { indices = omega arith; inside = omega arith; room = omega arith }

from : HasUnits from_chunk 3 2 4
from = record { indices = omega arith; inside = omega arith; room = omega arith }

transcribe_loop_lem_test :
    transcribe_loop 2 0 ramp to_chunk 0 1 from_chunk 0 3 4
    ≡ blit ramp (2000 + 1 * 4) (5000 + 3 * 4) (2 * 4)
transcribe_loop_lem_test =
    transcribe_loop_lem to from (omega arith) (omega arith)
      (record { round = inl refl; fits = omega arith })
      (record { round = inl refl; fits = omega arith }) ramp (inl (omega arith))
