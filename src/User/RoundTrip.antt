-- ===== src/User/RoundTrip.antt =====
-- Collection_WriteSpan followed by Collection_ReadSpan on the same span of a collection.
use barrel_test.Base.{ℕ, ◌+◌, ◌*◌, ◌<◌, ◌≡◌, ◌∙◌, true, arith}
use barrel_test.Base.Run.{done}
use barrel_test.Helpers.{Word}
use barrel_test.Memory.{Mem}
use barrel_test.Memory.Copy.{Movable}
use barrel_test.Memory.Words.{Apart, SameAt}
use barrel_test.TypeInfo.{Layout, TypeInfo}
use barrel_test.Chunk.{Chunk}
use barrel_test.Collection.{CollectionExtensions, lock_of}
use barrel_test.Barrel.{Service, mem, put_mem}
use barrel_test.User.{Frame, write_span, read_span}
use barrel_test.User.Transcribe.{HasUnits}
use barrel_test.User.Units.{units, copy_span-in, span-le}
use barrel_test.User.Chunks.{ChunkAt-SameAt}
use barrel_test.User.RawBuckets.{IsRegistered, raw_chunk}
use barrel_test.User.Writing.{IsSpanCall, write_span-copy_span, read_span-copy_span, struct-SameAt}

-- What is registered does not lie in memory.
IsRegistered-put_mem :
    {s : Service} {i : ℕ} {e : CollectionExtensions} (m : Mem)
    → IsRegistered s i e
    → IsRegistered (put_mem s m) i e
IsRegistered-put_mem m known = record {
  valid = (let v = known.valid in record { slots = v.slots; room = v.room; distinct = v.distinct });
  used = known.used;
  entry = known.entry;
}

module _ {fuel : ℕ} {layout : Layout} {s : Service} {frame : Frame} {p : Word}
    {e : CollectionExtensions} {t : TypeInfo} {chunk : Chunk} {off i : ℕ} {head head' : Word}
    {n : ℕ} (to : IsSpanCall fuel layout s frame p e t chunk off i head n)
    (from : IsSpanCall fuel layout s frame p e t chunk off i head' n)
    (own : Apart p 32 chunk.head chunk.size) where
  -- Such a call, in memory where the collection and its lock have not changed.
  IsSpanCall-put_mem :
      (m : Mem)
      → lock_of m p ≡ 0
      → SameAt p 8 (mem s) m
      → SameAt (p + 16) 16 (mem s) m
      → IsSpanCall fuel layout (put_mem s m) frame p e t chunk off i head' n
  IsSpanCall-put_mem m free front back = record {
    at = ChunkAt-SameAt from.at m front back;
    known = IsRegistered-put_mem m from.known;
    writable = from.writable;
    unlocked = free;
    placed = from.placed;
    raw_units = from.raw_units;
    raw_memory = from.raw_memory;
    some_raw = from.some_raw;
    some_head = from.some_head;
    room = from.room;
    some_chunk = from.some_chunk;
    some_unit = from.some_unit;
    few = from.few;
  }

  -- What Collection_WriteSpan writes Collection_ReadSpan reads back: after both, the memory that
  -- was read into holds the units that the memory written from held. Both are calls on the same
  -- span of the same collection, a bucket or a node, under the conditions of a span call, with the
  -- collection's struct apart from its chunk; the memory written from ends before the span or does not start before it, and
  -- the memory read into starts behind the span or does not start behind its start.
  pub write_span-read_span :
      (start : ℕ)
      → HasUnits chunk start n t.size
      → Movable (chunk.head + start * t.size) head (n * t.size)
      → Movable head' (chunk.head + start * t.size) (n * t.size)
      → (m' m'' : Mem) × (write_span fuel layout frame s p head start n ≡ done (true, put_mem s m'))
        × (read_span fuel layout frame (put_mem s m') p head' start n ≡ done (true, put_mem s m''))
        × ((j k : ℕ)
            → j < n
            → k < t.size
            → units m'' (raw_chunk t head' n) t.size j k
              ≡ units (mem s) (raw_chunk t head n) t.size j k)
  write_span-read_span start has ord ord' =
      let (m', is, free, copied, rest) = write_span-copy_span to start has ord in
      let (front, back) = struct-SameAt to start has m' own rest in
      let (m'', is', free', read) =
        read_span-copy_span (IsSpanCall-put_mem m' free front back) start has ord' in
      (
        m',
        m'',
        is,
        is',
        λ j k lt low.
            read j k lt low
            ∙ copied (start + j) k (omega (arith, span-le t.size start j n lt, has.inside)) low
            ∙ copy_span-in (units (mem s) chunk t.size) (units (mem s) (raw_chunk t head n) t.size)
                start n j k lt,
      )
