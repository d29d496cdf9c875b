-- ===== src/User/Spans.antt =====
-- Collection_Transcribe between two collections, and the copying of a span of units.
use barrel_test.Collection.{release, CollectionExtensions, lock_of, transcribe_compare}
use barrel_test.Memory.Words.{
  load32-store32, Apart, SameAt, store32, byte-store32, load32-store32-Apart,
}
use barrel_test.Base.{ℕ, ◌+◌, ◌*◌, ◌≤◌, ◌<◌, ◌≡◌, refl, ◌∙◌, ◌≢◌, true, arith}
use barrel_test.Base.Run.{done}
use barrel_test.Helpers.{Word}
use barrel_test.Memory.{Mem}
use barrel_test.TypeInfo.{Layout, TypeInfo}
use barrel_test.Chunk
use barrel_test.Chunk.{Chunk}
use barrel_test.Barrel.{Service, mem, put_mem}
use barrel_test.Barrel.Rolling.{unlock}
use barrel_test.Barrel.Rolling.Branches.{lock-free}
use barrel_test.User.Transcribe.{HasUnits}
use barrel_test.User.Units.{units, copy_span, copy_span-same, blit-units, unit-lt, span-le, moved}
use barrel_test.Memory.Copy.{blit, Movable}
use barrel_test.User.Buckets.{byte-ctor, move_units-blit}
use barrel_test.User.Chunks.{ChunkAt, ChunkAt-SameAt, request_chunk-ChunkAt, unit_size-ChunkAt}
use barrel_test.User.{Frame, transcribe, move_units}

-- The `n` bytes at `x` hold none of the locals and the locks that Collection_Transcribe writes.
pub record IsClear (p q : Word) (frame : Frame) (x n : ℕ) : Type 0 where
  pub lock_p : Apart (p + 12) 4 x n
  pub lock_q : Apart (q + 12) 4 x n
  pub local_trg : Apart frame.trg_chunk 16 x n
  pub local_src : Apart frame.src_chunk 16 x n

-- The two memories agree wherever such a byte stands.
abbrev Kept : Word → Word → Frame → Mem → Mem → Type 0
Kept p q frame m m' = (b : ℕ) → IsClear p q frame b 1 → m' b ≡ m b

pub one_byte :
    {p q : Word} {frame : Frame} {x n : ℕ} (b : ℕ)
    → IsClear p q frame x n
    → x ≤ b
    → b < x + n
    → IsClear p q frame b 1
one_byte b c lo hi = record {
  lock_p = (let a = c.lock_p in omega arith);
  lock_q = (let a = c.lock_q in omega arith);
  local_trg = (let a = c.local_trg in omega arith);
  local_src = (let a = c.local_src in omega arith);
}

Kept-SameAt :
    {p q : Word} {frame : Frame} {m m' : Mem} {x n : ℕ}
    → Kept p q frame m m'
    → IsClear p q frame x n
    → SameAt x n m m'
Kept-SameAt kept c b lo hi = kept b (one_byte b c lo hi)

-- Where two collections and the locals of Collection_Transcribe lie: the structs but for their locks,
-- and the memory of both chunks, are clear of what is written.
pub record IsPlaced (p q : Word) (frame : Frame) (trg src : Chunk) : Type 0 where
  pub apart : Apart p 32 q 32
  pub front_p : IsClear p q frame p 8
  pub back_p : IsClear p q frame (p + 16) 16
  pub front_q : IsClear p q frame q 8
  pub back_q : IsClear p q frame (q + 16) 16
  pub trg_units : IsClear p q frame trg.head trg.size
  pub src_units : IsClear p q frame src.head src.size

-- The memory behind both locks, and at the loop of Collection_Transcribe.
abbrev locked : Mem → Word → Word → Mem
locked m p q = store32 (store32 m (p + 12) 1) (q + 12) 1

abbrev with_trg : Mem → Word → Word → Frame → Chunk → Mem
with_trg m p q frame trg = Chunk.ctor (locked m p q) frame.trg_chunk trg.head trg.size

abbrev before_loop : Mem → Word → Word → Frame → Chunk → Chunk → Mem
before_loop m p q frame trg src =
    Chunk.ctor (with_trg m p q frame trg) frame.src_chunk src.head src.size

module _ (m : Mem) (p q : Word) (frame : Frame) (trg src : Chunk) where
  lock-Kept : Kept p q frame m (store32 m (p + 12) 1)
  lock-Kept b c = byte-store32 m (p + 12) 1 b c.lock_p

  locked-Kept : Kept p q frame m (locked m p q)
  locked-Kept b c = byte-store32 (store32 m (p + 12) 1) (q + 12) 1 b c.lock_q ∙ lock-Kept b c

  with_trg-Kept : Kept p q frame m (with_trg m p q frame trg)
  with_trg-Kept b c =
      byte-ctor (locked m p q) frame.trg_chunk trg.head trg.size b c.local_trg ∙ locked-Kept b c

  before_loop-Kept : Kept p q frame m (before_loop m p q frame trg src)
  before_loop-Kept b c =
      byte-ctor (with_trg m p q frame trg) frame.src_chunk src.head src.size b c.local_src
      ∙ with_trg-Kept b c

module _ {fuel : ℕ} {layout : Layout} {frame : Frame} {s : Service} {p q : Word}
    {e f : CollectionExtensions} {t u : TypeInfo} {trg src : Chunk} {trg_off src_off : ℕ}
    (to : ChunkAt fuel layout s p e t trg trg_off) (from : ChunkAt fuel layout s q f u src src_off)
    (placed : IsPlaced p q frame trg src) where
  still_to :
      (m : Mem) → Kept p q frame (mem s) m → ChunkAt fuel layout (put_mem s m) p e t trg trg_off
  still_to m kept =
      ChunkAt-SameAt to m (Kept-SameAt kept placed.front_p) (Kept-SameAt kept placed.back_p)

  still_from :
      (m : Mem) → Kept p q frame (mem s) m → ChunkAt fuel layout (put_mem s m) q f u src src_off
  still_from m kept =
      ChunkAt-SameAt from m (Kept-SameAt kept placed.front_q) (Kept-SameAt kept placed.back_q)

  still_free : lock_of (mem s) q ≡ 0 → lock_of (store32 (mem s) (p + 12) 1) q ≡ 0
  still_free free =
      let a = placed.apart in load32-store32-Apart (mem s) (p + 12) (q + 12) 1 (omega arith) ∙ free

  -- Everything of Collection_Transcribe but its loop.
  transcribe-loop :
      (s3 : Service) (trg_start src_start n : ℕ)
      → lock_of (mem s) p ≡ 0
      → lock_of (mem s) q ≡ 0
      → transcribe_compare s.world e f ≡ done true
      → move_units
          (put_mem s (before_loop (mem s) p q frame trg src))
          trg
          trg_off
          trg_start
          src
          src_off
          src_start
          t.size
          n
        ≡ done s3
      → transcribe fuel layout frame s p q trg_start src_start n
        ≡ done (true, unlock (unlock s3 p) q)
  unfolding transcribe
  transcribe-loop s3 trg_start src_start n free_p free_q ok loop =
      let m = mem s in
      let m1 = store32 m (p + 12) 1 in
      let m2 = locked m p q in
      let m3 = with_trg m p q frame trg in
      let m4 = before_loop m p q frame trg src in
      let s2 = put_mem s m2 in
      rw
        (
          to.extensions,
          from.extensions,
          ok,
          lock-free s p to.some_collection free_p,
          lock-free (put_mem s m1) q from.some_collection (still_free free_q),
          request_chunk-ChunkAt (still_to m2 (locked-Kept m p q frame trg src)) frame.trg_chunk,
          request_chunk-ChunkAt (still_from m3 (with_trg-Kept m p q frame trg src)) frame.src_chunk,
          unit_size-ChunkAt (still_to m4 (before_loop-Kept m p q frame trg src)),
          loop,
        )
        refl

  -- The byte of a clear place behind the loop and the two stores that free the locks.
  unlocked-byte :
      (m : Mem) (b : ℕ) → IsClear p q frame b 1 → store32 (store32 m (p + 12) 0) (q + 12) 0 b ≡ m b
  unlocked-byte m b c =
      byte-store32 (store32 m (p + 12) 0) (q + 12) 0 b c.lock_q
      ∙ byte-store32 m (p + 12) 0 b c.lock_p

  unlocked_p : (m : Mem) → lock_of (store32 (store32 m (p + 12) 0) (q + 12) 0) p ≡ 0
  unlocked_p m =
      let a = placed.apart in
      load32-store32-Apart (store32 m (p + 12) 0) (q + 12) (p + 12) 0 (omega arith)
      ∙ load32-store32 m (p + 12) 0 (omega arith)

  trg_unit-IsClear :
      (i k : ℕ)
      → (i + 1) * t.size ≤ trg.size
      → k < t.size
      → IsClear p q frame (trg.head + i * t.size + k) 1
  trg_unit-IsClear i k le low =
      let lt = unit-lt t.size trg.size i k le low in
      one_byte (trg.head + i * t.size + k) placed.trg_units (omega arith) (omega arith)

  src_unit-IsClear :
      (i k : ℕ)
      → (i + 1) * t.size ≤ src.size
      → k < t.size
      → IsClear p q frame (src.head + i * t.size + k) 1
  src_unit-IsClear i k le low =
      let lt = unit-lt t.size src.size i k le low in
      one_byte (src.head + i * t.size + k) placed.src_units (omega arith) (omega arith)

  -- The array of the target after a block move in memory that was kept.
  units-moved :
      (m : Mem) (ts ss n i k : ℕ)
      → Kept p q frame (mem s) m
      → (ss + n) * t.size ≤ src.size
      → (i + 1) * t.size ≤ trg.size
      → k < t.size
      → units (moved m trg src t.size ts ss n) trg t.size i k
        ≡ copy_span (units (mem s) trg t.size) ts (units (mem s) src t.size) ss n i k
  units-moved m ts ss n i k kept has le low =
      blit-units m trg src t.size ts ss n i k low
      ∙ copy_span-same (units (mem s) trg t.size) (units m trg t.size) (units (mem s) src t.size)
          (units m src t.size) ts ss n i k (kept _ (trg_unit-IsClear i k le low))
          (λ a lt.
            let fits = span-le t.size ss a n lt in
            kept _ (src_unit-IsClear (ss + a) k (omega arith) low))

  outside_moved :
      (m : Mem) (ts ss n b : ℕ)
      → Apart (trg.head + ts * t.size) (n * t.size) b 1
      → moved m trg src t.size ts ss n b ≡ m b
  unfolding blit
  outside_moved m ts ss n b apart = ground arith

  module _ (ts ss n : ℕ) where
    -- Collection_Transcribe between two collections implements the copying of a span of units,
    -- from one array into another. The collections answer a request for their chunk by the chunk
    -- and an offset that is 0 or the chunk's size, have free locks and pass the comparison of their
    -- extensions; their structs, their chunks and the locals of the call lie apart; units have at
    -- least one byte; both spans lie in their chunks, and these in memory; the source chunk is not
    -- at NULL; and the source span ends before the target span, or the target span does not lie
    -- behind the source span's start. Then the call answers true, both locks are free again, every
    -- unit of the target's array is what the copying makes of the two arrays, and no byte outside
    -- the target span, the locks and the two local chunks has changed.
    pub transcribe-copy_span :
        lock_of (mem s) p ≡ 0
        → lock_of (mem s) q ≡ 0
        → transcribe_compare s.world e f ≡ done true
        → HasUnits trg ts n t.size
        → HasUnits src ss n t.size
        → 0 < t.size
        → src.head ≢ 0
        → Movable (trg.head + ts * t.size) (src.head + ss * t.size) (n * t.size)
        → (m' : Mem) × (transcribe fuel layout frame s p q ts ss n ≡ done (true, put_mem s m'))
          × ((lock_of m' p ≡ 0) × (lock_of m' q ≡ 0))
          × ((i k : ℕ)
              → (i + 1) * t.size ≤ trg.size
              → k < t.size
              → units m' trg t.size i k
                ≡ copy_span (units (mem s) trg t.size) ts (units (mem s) src t.size) ss n i k)
          × ((b : ℕ)
              → IsClear p q frame b 1
              → Apart (trg.head + ts * t.size) (n * t.size) b 1
              → m' b ≡ mem s b)
    unfolding unlock release
    transcribe-copy_span free_p free_q ok has_trg has_src positive ne ord =
        let m4 = before_loop (mem s) p q frame trg src in
        let kept = before_loop-Kept (mem s) p q frame trg src in
        let m5 = moved m4 trg src t.size ts ss n in
        let m' = store32 (store32 m5 (p + 12) 0) (q + 12) 0 in
        (
          m',
          transcribe-loop (put_mem s m5) ts ss n free_p free_q ok (
              move_units-blit n (put_mem s m4) to.round from.round has_trg has_src positive ne ord),
          (unlocked_p m5, load32-store32 (store32 m5 (p + 12) 0) (q + 12) 0 (omega arith)),
          λ i k le low.
              unlocked-byte m5 _ (trg_unit-IsClear i k le low)
              ∙ units-moved m4 ts ss n i k kept has_src.inside le low,
          λ b c apart. unlocked-byte m5 b c ∙ outside_moved m4 ts ss n b apart ∙ kept b c,
        )
