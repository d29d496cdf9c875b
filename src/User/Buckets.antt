-- ===== src/User/Buckets.antt =====
-- A bucket as a collection that answers chunk requests, and the loop of Collection_Transcribe.
use barrel_test.Base.{
  ◌==◌, ==_false, ℕ, zero, suc, ◌+◌, ◌*◌, ◌≤◌, ◌<◌, ◌≡◌, refl, sym, ap, ◌∙◌, ◌≢◌, inl, false, arith,
}
use barrel_test.Base.Int.{u64_mod}
use barrel_test.Base.Run.{done}
use barrel_test.Helpers.{Word}
use barrel_test.Memory.{Mem}
use barrel_test.Memory.Copy.{blit, Movable, blit-zero}
use barrel_test.Memory.Words.{Apart, SameAt, store64, byte-store64, load64-SameAt}
use barrel_test.TypeInfo.{Layout, TypeInfo}
use barrel_test.Chunk
use barrel_test.Chunk.{Chunk, read-ctor}
use barrel_test.Collection.{CollectionExtensions, bucket_methods_ptr, extensions_at, deref}
use barrel_test.Bucket
use barrel_test.Bucket.{chunk_head, chunk_size}
use barrel_test.Barrel.{Service, mem, put_mem}
use barrel_test.User.{request_chunk, bucket_reply, move_units}
use barrel_test.User.Chunks.{ChunkAt, extensions-SameAt}
use barrel_test.User.Queries.{call-bucket}
use barrel_test.User.Transcribe.{HasUnits, IsRound, transcribe_loop_lem}

-- At `p` is a bucket with extensions `e` and a chunk, whose type is in the registry; its lock may
-- be free or taken.
pub record BucketAt (s : Service) (p : Word) (e : CollectionExtensions) (t : TypeInfo)
    (chunk : Chunk) : Type 0 where
  pub some_bucket : p ≢ 0
  pub extensions : extensions_at s.world p ≡ done e
  pub methods : e.methods ≡ bucket_methods_ptr
  pub type : deref s.world.bins.types e.type ≡ done t
  pub head : chunk_head (mem s) p ≡ chunk.head
  pub size : chunk_size (mem s) p ≡ chunk.size
  pub small_head : chunk.head < u64_mod
  pub small_size : chunk.size < u64_mod

module _ {s : Service} {p : Word} {e : CollectionExtensions} {t : TypeInfo} {chunk : Chunk}
    (b : BucketAt s p e t chunk) where
  request_chunk-bucket :
      (fuel : ℕ) (layout : Layout) (m : Mem)
      → SameAt p 8 (mem s) m
      → SameAt (p + 16) 16 (mem s) m
      → (loc : Word)
      → request_chunk fuel layout (put_mem s m) p loc
        ≡ done (chunk, 0, put_mem s (Chunk.ctor m loc chunk.head chunk.size))
  unfolding request_chunk bucket_reply Bucket.methods Bucket.manage_bucket Bucket.get_chunk
      Chunk.create Chunk.ctor
  request_chunk-bucket fuel layout m front back loc =
      let at = extensions-SameAt s m front b.extensions in
      let head : chunk_head m p ≡ chunk.head =
        load64-SameAt (mem s) m (p + 16) (λ x lo hi. back x (omega arith) (omega arith)) ∙ b.head in
      let size : chunk_size m p ≡ chunk.size =
        load64-SameAt (mem s) m (p + 24) (λ x lo hi. back x (omega arith) (omega arith)) ∙ b.size in
      rw (call-bucket fuel layout (put_mem s m) p _ (e, at, b.methods), head, size)
        (rw (read-ctor m loc chunk.head chunk.size b.small_head b.small_size) refl)

  -- A bucket answers a chunk request by its chunk, from the start.
  pub bucket-ChunkAt : (fuel : ℕ) (layout : Layout) → ChunkAt fuel layout s p e t chunk 0
  bucket-ChunkAt fuel layout = record {
    some_collection = b.some_bucket;
    extensions = b.extensions;
    type = b.type;
    round = record { round = inl refl; fits = omega (arith, b.small_size) };
    request = request_chunk-bucket fuel layout;
  }

-- Chunk_ctor changes the 16 bytes at its place.
pub byte-ctor :
    (m : Mem) (loc head size x : ℕ) → Apart loc 16 x 1 → Chunk.ctor m loc head size x ≡ m x
unfolding Chunk.ctor Chunk.create
byte-ctor m loc head size x apart =
    byte-store64 (store64 m loc head) (loc + 8) size x (omega arith)
    ∙ byte-store64 m loc head x (omega arith)

some_size :
    {chunk : Chunk} {start n size : ℕ}
    → HasUnits chunk start (suc n) size
    → 0 < size
    → chunk.size == 0 ≡ false
some_size {chunk} {start} {n} {size} has positive =
    let le : size ≤ (start + suc n) * size = grind arith in
    ==_false chunk.size 0 (omega (arith, has.inside))

-- The loop of Collection_Transcribe as one block move.
pub move_units-blit :
    (n : ℕ) (s : Service) {trg src : Chunk} {trg_off src_off trg_start src_start size : ℕ}
    → IsRound trg trg_off
    → IsRound src src_off
    → HasUnits trg trg_start n size
    → HasUnits src src_start n size
    → 0 < size
    → src.head ≢ 0
    → Movable (trg.head + trg_start * size) (src.head + src_start * size) (n * size)
    → move_units s trg trg_off trg_start src src_off src_start size n
      ≡ done (
          put_mem s
            (blit (mem s) (trg.head + trg_start * size) (src.head + src_start * size) (n * size)))
unfolding move_units
move_units-blit zero s {trg = trg} {src = src} {trg_start = trg_start} {src_start = src_start}
      {size = size} trg_round src_round to from pos_size ne ok =
    let none_yet : 0 ≡ 0 * size = grind arith in
    let from_place = src.head + src_start * size in
    let to_place = trg.head + trg_start * size in
    let e : mem s ≡ blit (mem s) to_place from_place (0 * size) =
      sym (blit-zero (mem s) to_place from_place)
      ∙ ap (blit (mem s) to_place from_place) none_yet in
    ap (λ m. done (put_mem s m)) e
move_units-blit (suc n) s trg_round src_round to from pos_size ne ok =
    rw (some_size to pos_size, some_size from pos_size)
      (ap (λ m. done (put_mem s m))
        (transcribe_loop_lem to from pos_size ne trg_round src_round (mem s) ok))
