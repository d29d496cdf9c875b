-- ===== src/Tests/SpanTests.antt =====
-- Units that move between the bucket at 1000, whose chunk is at 2000, and memory at 5000.
use barrel_test.Base.{ℕ, ◌+◌, ◌*◌, ◌≤◌, ◌<◌, ◌≡◌, refl, inl, inr, true, arith}
use barrel_test.Base.Run.{done}
use barrel_test.Memory.{Mem}
use barrel_test.Memory.Words.{Apart}
use barrel_test.Chunk.{Chunk}
use barrel_test.Collection.{lock_of, extensions_at}
use barrel_test.Barrel.{mem, put_mem}
use barrel_test.User.{transcribe, write_span, read_span}
use barrel_test.User.Transcribe.{HasUnits}
use barrel_test.User.Units.{units, copy_span}
use barrel_test.User.Buckets.{BucketAt, bucket-ChunkAt}
use barrel_test.User.RawBuckets.{IsRegistered, raw_chunk}
use barrel_test.User.Spans.{IsClear, IsPlaced, transcribe-copy_span}
use barrel_test.User.RoundTrip.{write_span-read_span}
use barrel_test.User.Writing.{
  IsSpanCall, with_raw, still_at, raw_at, still_unlocked, raw_unlocked, transcribe_compare_to,
  HasUnits-raw, write_span-copy_span, read_span-copy_span,
}
use barrel_test.Tests.Fixtures.{service, layout, frame, struct_mem, int_type, int_extensions}

abbrev bucket_chunk : Chunk
bucket_chunk = record { head = 2000; size = 12 }

at_bucket : BucketAt service 1000 int_extensions int_type bucket_chunk
unfolding extensions_at barrel_test.Memory.Words.load64
at_bucket = record {
  some_bucket = omega arith;
  extensions = refl;
  methods = refl;
  type = refl;
  head = refl;
  size = refl;
  small_head = omega arith;
  small_size = omega arith;
}

is_registered : IsRegistered service 0 int_extensions
is_registered = record {
  valid = record {
    slots = refl;
    room = omega arith;
    distinct = λ i j lt lt'. absurd (omega arith);
  };
  used = omega arith;
  entry = refl;
}

clear :
    (x n : ℕ)
    → Apart 1012 4 x n
    → Apart 4112 4 x n
    → Apart 4200 16 x n
    → Apart 4300 16 x n
    → IsClear 1000 4100 frame x n
clear x n a b c d = record { lock_p = a; lock_q = b; local_trg = c; local_src = d }

is_placed :
    (head : ℕ)
    → 5000 ≤ head
    → head ≤ 6000
    → IsPlaced 1000 4100 frame bucket_chunk (raw_chunk int_type head 2)
is_placed head lo hi = record {
  apart = omega arith;
  front_p = clear 1000 8 (omega arith) (omega arith) (omega arith) (omega arith);
  back_p = clear 1016 16 (omega arith) (omega arith) (omega arith) (omega arith);
  front_q = clear 4100 8 (omega arith) (omega arith) (omega arith) (omega arith);
  back_q = clear 4116 16 (omega arith) (omega arith) (omega arith) (omega arith);
  trg_units = clear 2000 12 (omega arith) (omega arith) (omega arith) (omega arith);
  src_units = clear head 8 (omega arith) (omega arith) (omega arith) (omega arith);
}

call_at :
    (head : ℕ)
    → 5000 ≤ head
    → head ≤ 6000
    → IsSpanCall 1 layout service frame 1000 int_extensions int_type bucket_chunk 0 0 head 2
unfolding barrel_test.Memory.Words.load32
call_at head lo hi = record {
  at = bucket-ChunkAt at_bucket 1 layout;
  known = is_registered;
  writable = refl;
  unlocked = refl;
  placed = is_placed head lo hi;
  raw_units = omega arith;
  raw_memory = omega arith;
  some_raw = omega arith;
  some_head = omega arith;
  room = omega arith;
  some_chunk = omega arith;
  some_unit = omega arith;
  few = omega arith;
}

abbrev span_call :
    IsSpanCall 1 layout service frame 1000 int_extensions int_type bucket_chunk 0 0 5000 2
span_call = call_at 5000 (omega arith) (omega arith)

two_of_three : HasUnits bucket_chunk 1 2 4
two_of_three = record { indices = omega arith; inside = omega arith; room = omega arith }

write_span-copy_span_example :
    (m' : Mem) × (write_span 1 layout frame service 1000 5000 1 2 ≡ done (true, put_mem service m'))
    × (lock_of m' 1000 ≡ 0)
    × ((j k : ℕ)
        → (j + 1) * 4 ≤ 12
        → k < 4
        → units m' bucket_chunk 4 j k
          ≡ copy_span
              (units struct_mem bucket_chunk 4)
              1
              (units struct_mem (raw_chunk int_type 5000 2) 4)
              0
              2
              j
              k)
    × ((b : ℕ)
        → IsClear 1000 4100 frame b 1
        → Apart 4100 32 b 1
        → Apart (2000 + 1 * 4) (2 * 4) b 1
        → m' b ≡ struct_mem b)
write_span-copy_span_example = write_span-copy_span span_call 1 two_of_three (inl (omega arith))

read_span-copy_span_example :
    (m' : Mem) × (read_span 1 layout frame service 1000 5000 1 2 ≡ done (true, put_mem service m'))
    × (lock_of m' 1000 ≡ 0)
    × ((j k : ℕ)
        → j < 2
        → k < 4
        → units m' (raw_chunk int_type 5000 2) 4 j k ≡ units struct_mem bucket_chunk 4 (1 + j) k)
read_span-copy_span_example = read_span-copy_span span_call 1 two_of_three (inr (omega arith))

transcribe-copy_span_example :
    (m' : Mem) × (transcribe 1 layout frame (with_raw span_call) 1000 4100 1 0 2
      ≡ done (true, put_mem (with_raw span_call) m'))
    × ((lock_of m' 1000 ≡ 0) × (lock_of m' 4100 ≡ 0))
    × ((i k : ℕ)
        → (i + 1) * 4 ≤ 12
        → k < 4
        → units m' bucket_chunk 4 i k
          ≡ copy_span
              (units (mem (with_raw span_call)) bucket_chunk 4)
              1
              (units (mem (with_raw span_call)) (raw_chunk int_type 5000 2) 4)
              0
              2
              i
              k)
    × ((b : ℕ)
        → IsClear 1000 4100 frame b 1
        → Apart (2000 + 1 * 4) (2 * 4) b 1
        → m' b ≡ mem (with_raw span_call) b)
transcribe-copy_span_example =
    transcribe-copy_span (still_at span_call) (raw_at span_call)
      (is_placed 5000 (omega arith) (omega arith)) 1 0 2 (still_unlocked span_call)
      (raw_unlocked span_call) (transcribe_compare_to span_call) two_of_three
      (HasUnits-raw span_call) (omega arith) (omega arith) (inl (omega arith))

write_span-read_span_example :
    (m' m'' : Mem) × (write_span 1 layout frame service 1000 5000 1 2
      ≡ done (true, put_mem service m'))
    × (read_span 1 layout frame (put_mem service m') 1000 6000 1 2
        ≡ done (true, put_mem service m''))
    × ((j k : ℕ)
        → j < 2
        → k < 4
        → units m'' (raw_chunk int_type 6000 2) 4 j k
          ≡ units struct_mem (raw_chunk int_type 5000 2) 4 j k)
write_span-read_span_example =
    write_span-read_span span_call (call_at 6000 (omega arith) (omega arith)) (omega arith) 1
      two_of_three (inl (omega arith)) (inr (omega arith))
