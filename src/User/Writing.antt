-- ===== src/User/Writing.antt =====
-- Collection_Write and Collection_Read of spans of a collection against an array of units.
use barrel_test.Base.{ℕ, ◌+◌, ◌*◌, ◌≤◌, ◌<◌, ◌≡◌, refl, ◌∙◌, ◌≢◌, true, false, arith}
use barrel_test.Base.Int.{u32_mod, u64_mod}
use barrel_test.Base.Run.{done}
use barrel_test.Enums.{mem_flag_code, read_only}
use barrel_test.Helpers.{Word}
use barrel_test.Helpers.Text.{default_string_compare_self}
use barrel_test.Memory.{Mem}
use barrel_test.Memory.Copy.{Movable}
use barrel_test.Memory.Words.{Apart, SameAt, load32-SameAt}
use barrel_test.TypeInfo.{Layout, TypeInfo, type_info_compare}
use barrel_test.Chunk.{Chunk}
use barrel_test.Collection.{CollectionExtensions, lock_of, has_flag, transcribe_compare}
use barrel_test.Barrel.{Service, mem, put_mem}
use barrel_test.User.{Frame, write_span, read_span}
use barrel_test.User.Transcribe.{HasUnits}
use barrel_test.User.Spans.{transcribe-copy_span, one_byte, IsClear, IsPlaced}
use barrel_test.User.RawBuckets.{
  raw_bucket-store, raw_extensions, IsRegistered, raw_chunk, raw_memory, raw_struct,
  raw_bucket-BucketAt, byte-store_bucket, lock-store_bucket,
}
use barrel_test.User.Units.{Units, copy_span, copy_span-same, span-le, units, unit-lt}
use barrel_test.User.Buckets.{bucket-ChunkAt}
use barrel_test.User.Chunks.{ChunkAt, ChunkAt-SameAt}

-- A call that moves `n` units between the collection at `p` and the caller's memory at `head`: the
-- collection may be written and is free, the extensions of its raw buckets are registered, and the
-- caller's memory, the collection and the locals of the call lie apart in memory.
pub record IsSpanCall (fuel : ℕ) (layout : Layout) (s : Service) (frame : Frame) (p : Word)
    (e : CollectionExtensions) (t : TypeInfo) (chunk : Chunk) (off i : ℕ) (head : Word) (n : ℕ)
    : Type 0 where
  pub at : ChunkAt fuel layout s p e t chunk off
  pub known : IsRegistered s i e
  pub writable : has_flag e.mem_flags (mem_flag_code read_only) ≡ false
  pub unlocked : lock_of (mem s) p ≡ 0
  pub placed : IsPlaced p frame.raw_bucket frame chunk (raw_chunk t head n)
  pub raw_units : Apart frame.raw_bucket 32 chunk.head chunk.size
  pub raw_memory : Apart frame.raw_bucket 32 head (t.size * n)
  pub some_raw : frame.raw_bucket ≢ 0
  pub some_head : head ≢ 0
  pub room : head + t.size * n < u64_mod
  pub some_chunk : chunk.head ≢ 0
  pub some_unit : 0 < t.size
  pub few : n < u32_mod

IsClear-swap :
    {p q : Word} {frame : Frame} {x n : ℕ} → IsClear p q frame x n → IsClear q p frame x n
IsClear-swap c = record {
  lock_p = c.lock_q;
  lock_q = c.lock_p;
  local_trg = c.local_trg;
  local_src = c.local_src;
}

IsPlaced-swap :
    {p q : Word} {frame : Frame} {trg src : Chunk}
    → IsPlaced p q frame trg src
    → IsPlaced q p frame src trg
IsPlaced-swap a = record {
  apart = (let x = a.apart in omega arith);
  front_p = IsClear-swap a.front_q;
  back_p = IsClear-swap a.back_q;
  front_q = IsClear-swap a.front_p;
  back_q = IsClear-swap a.back_p;
  trg_units = IsClear-swap a.src_units;
  src_units = IsClear-swap a.trg_units;
}

unit-le : (size n j : ℕ) → j < n → (0 + j + 1) * size ≤ size * n
unit-le size n j lt = grind (arith, span-le size 0 j n lt)

copy_span-front :
    (trg src : Units) (start n j k : ℕ)
    → j < n
    → copy_span trg 0 src start n j k ≡ src (start + j) k
copy_span-front trg src start n j k lt = ground arith

module _ {fuel : ℕ} {layout : Layout} {s : Service} {frame : Frame} {p : Word}
    {e : CollectionExtensions} {t : TypeInfo} {chunk : Chunk} {off i : ℕ} {head : Word} {n : ℕ}
    (c : IsSpanCall fuel layout s frame p e t chunk off i head n) where
  abbrev raw : Chunk
  raw = raw_chunk t head n

  -- The service behind Collection_RawBucket.
  abbrev pub with_raw : Service
  with_raw = put_mem s (raw_memory (mem s) frame.raw_bucket i raw n)

  kept_raw : (x : ℕ) → Apart frame.raw_bucket 32 x 1 → mem with_raw x ≡ mem s x
  kept_raw = byte-store_bucket (mem s) frame.raw_bucket (raw_struct i raw n)

  pub still_at : ChunkAt fuel layout with_raw p e t chunk off
  still_at =
      let a = c.placed.apart in
      ChunkAt-SameAt c.at (mem with_raw) (λ b lo hi. kept_raw b (omega arith))
        (λ b lo hi. kept_raw b (omega arith))

  pub still_unlocked : lock_of (mem with_raw) p ≡ 0
  still_unlocked =
      let a = c.placed.apart in
      load32-SameAt (mem s) (mem with_raw) (p + 12) (λ b lo hi. kept_raw b (omega arith))
      ∙ c.unlocked

  pub raw_at : ChunkAt fuel layout with_raw frame.raw_bucket (raw_extensions e) t raw 0
  raw_at =
      bucket-ChunkAt
        (raw_bucket-BucketAt c.at c.known frame.raw_bucket head n c.some_raw
          (omega (arith, c.room)))
        fuel layout

  pub raw_unlocked : lock_of (mem with_raw) frame.raw_bucket ≡ 0
  raw_unlocked = lock-store_bucket (mem s) frame.raw_bucket (raw_struct i raw n)

  pub transcribe_compare_to : transcribe_compare with_raw.world e (raw_extensions e) ≡ done true
  unfolding transcribe_compare type_info_compare
  transcribe_compare_to = rw (c.writable, c.at.type, default_string_compare_self t.name.text) refl

  transcribe_compare_from : transcribe_compare with_raw.world (raw_extensions e) e ≡ done true
  unfolding transcribe_compare type_info_compare
  transcribe_compare_from = rw (c.writable, c.at.type, default_string_compare_self t.name.text) refl

  raw_size : raw.size ≡ t.size * n
  raw_size = omega (arith, c.room)

  pub HasUnits-raw : HasUnits raw 0 n t.size
  HasUnits-raw = record {
    indices = omega (arith, c.few);
    inside = (let e = c.room in grind (arith, raw_size));
    room = omega (arith, raw_size, c.room);
  }

  kept_chunk :
      (j k : ℕ)
      → (j + 1) * t.size ≤ chunk.size
      → k < t.size
      → units (mem with_raw) chunk t.size j k ≡ units (mem s) chunk t.size j k
  kept_chunk j k le low =
      let lt = unit-lt t.size chunk.size j k le low in
      let a = c.raw_units in kept_raw (chunk.head + j * t.size + k) (omega arith)

  kept_head :
      (j k : ℕ)
      → (j + 1) * t.size ≤ t.size * n
      → k < t.size
      → units (mem with_raw) raw t.size j k ≡ units (mem s) raw t.size j k
  kept_head j k le low =
      let lt = unit-lt t.size (t.size * n) j k le low in
      let a = c.raw_memory in kept_raw (head + j * t.size + k) (omega arith)

  module _ (start : ℕ) (has : HasUnits chunk start n t.size) where
    -- Collection_WriteSpan implements the copying of the caller's units into the collection's
    -- array. The collection, a bucket or a node, answers a request for its chunk by the chunk and an
    -- offset that is 0 or the chunk's size, may be written and is free, the extensions of its raw
    -- buckets are registered, the caller's memory, the collection and the locals lie apart, the
    -- span lies in the chunk, and the caller's memory ends before the span or does not start
    -- before it. Then the call answers true, the lock is free, every unit of the collection is the
    -- caller's, for an index in the span, or what it was, and no byte outside the span, the locks
    -- and the locals has changed.
    pub write_span-copy_span :
        Movable (chunk.head + start * t.size) head (n * t.size)
        → (m' : Mem) × (write_span fuel layout frame s p head start n ≡ done (true, put_mem s m'))
          × (lock_of m' p ≡ 0)
          × ((j k : ℕ)
              → (j + 1) * t.size ≤ chunk.size
              → k < t.size
              → units m' chunk t.size j k
                ≡ copy_span (units (mem s) chunk t.size) start (units (mem s) raw t.size) 0 n j k)
          × ((b : ℕ)
              → IsClear p frame.raw_bucket frame b 1
              → Apart frame.raw_bucket 32 b 1
              → Apart (chunk.head + start * t.size) (n * t.size) b 1
              → m' b ≡ mem s b)
    unfolding write_span
    write_span-copy_span ord =
        let z : 0 * t.size ≡ 0 = grind arith in
        let (m', is, free, copied, rest) =
          transcribe-copy_span still_at raw_at c.placed start 0 n still_unlocked raw_unlocked
            transcribe_compare_to has HasUnits-raw c.some_unit c.some_head
            (omega (arith, z, ord)) in
        (
          m',
          rw (raw_bucket-store c.at c.known frame.raw_bucket head n) is,
          free.0,
          λ j k le low.
              copied j k le low
              ∙ copy_span-same (units (mem s) chunk t.size) (units (mem with_raw) chunk t.size)
                  (units (mem s) raw t.size) (units (mem with_raw) raw t.size) start 0 n j k
                  (kept_chunk j k le low) (λ a lt. kept_head (0 + a) k (unit-le t.size n a lt) low),
          λ b clear apart_raw apart. rest b clear apart ∙ kept_raw b apart_raw,
        )

    -- Where the struct lies apart from its chunk, the call keeps what makes it a collection.
    pub struct-SameAt :
        (m' : Mem)
        → Apart p 32 chunk.head chunk.size
        → ((b : ℕ)
            → IsClear p frame.raw_bucket frame b 1
            → Apart frame.raw_bucket 32 b 1
            → Apart (chunk.head + start * t.size) (n * t.size) b 1
            → m' b ≡ mem s b)
        → SameAt p 8 (mem s) m' × SameAt (p + 16) 16 (mem s) m'
    struct-SameAt m' own rest =
        let a = c.placed.apart in
        let span : start * t.size + n * t.size ≤ chunk.size = grind (arith, has.inside) in
        (
          λ b lo hi.
              rest b (one_byte b c.placed.front_p lo hi) (omega arith) (omega (arith, own, span)),
          λ b lo hi.
              rest b (one_byte b c.placed.back_p lo hi) (omega arith) (omega (arith, own, span)),
        )

    -- Collection_ReadSpan implements the copying of units of the collection's array to the caller.
    -- Under the conditions of a span call, with the span in the chunk and the span ending before
    -- the caller's memory or not starting before it, the call answers true, the lock is free, and
    -- the caller's memory holds the units of the span in their order.
    pub read_span-copy_span :
        Movable head (chunk.head + start * t.size) (n * t.size)
        → (m' : Mem) × (read_span fuel layout frame s p head start n ≡ done (true, put_mem s m'))
          × (lock_of m' p ≡ 0)
          × ((j k : ℕ)
              → j < n
              → k < t.size
              → units m' raw t.size j k ≡ units (mem s) chunk t.size (start + j) k)
    unfolding read_span
    read_span-copy_span ord =
        let z : 0 * t.size ≡ 0 = grind arith in
        let (m', is, free, copied, rest) =
          transcribe-copy_span raw_at still_at (IsPlaced-swap c.placed) 0 start n raw_unlocked
            still_unlocked transcribe_compare_from HasUnits-raw has c.some_unit c.some_chunk
            (omega (arith, z, ord)) in
        (
          m',
          rw (raw_bucket-store c.at c.known frame.raw_bucket head n) is,
          free.1,
          λ j k lt low.
              copied j k (omega (arith, raw_size, unit-le t.size n j lt)) low
              ∙ copy_span-front (units (mem with_raw) raw t.size)
                  (units (mem with_raw) chunk t.size) start n j k lt
              ∙ kept_chunk (start + j) k (omega (arith, span-le t.size start j n lt, has.inside))
                  low,
        )
