-- ===== src/User/RawBuckets.antt =====
-- Collection_RawBucket: a bucket around memory of the caller.
use barrel_test.Base.{get_elem?, ℕ, suc, ◌+◌, ◌<◌, ◌≡◌, refl, ap, ◌∙◌, ◌≢◌, some, arith}
use barrel_test.Base.Int.{u64_mod, mul64}
use barrel_test.Base.Run.{done}
use barrel_test.Helpers.{Word}
use barrel_test.Memory.{Mem}
use barrel_test.Memory.Words.{
  Apart, load64, store32, store64, byte-store32, byte-store64, load32-store32, load64-store64,
  load64-store64-Apart, load32-store64-Apart, load64-store32-Apart,
}
use barrel_test.TypeInfo.{Layout, TypeInfo}
use barrel_test.Chunk.{Chunk}
use barrel_test.Collection.{
  CollectionExtensions, extensions_at, lock_of, get_raw_extensions, create, bucket_methods_ptr,
  deref,
}
use barrel_test.Collection.Registry.{IsValid, get_extensions_known}
use barrel_test.Bucket.{Bucket, store_bucket, chunk_head, chunk_size}
use barrel_test.Barrel.{Service, mem, put_mem}
use barrel_test.User.{raw_bucket}
use barrel_test.User.Buckets.{BucketAt}
use barrel_test.User.Chunks.{ChunkAt, unit_size-ChunkAt}

-- The struct of a bucket changes its 32 bytes and no other, and all its fields are read back.
module _ (m : Mem) (r : Word) (b : Bucket) where
  pub byte-store_bucket : (x : ℕ) → Apart r 32 x 1 → store_bucket m r b x ≡ m x
  unfolding store_bucket create
  byte-store_bucket x apart =
      let m1 = store64 m r b.extensions in
      let m2 = store32 m1 (r + 8) b.count in
      let m3 = store32 m2 (r + 12) 0 in
      byte-store64 (store64 m3 (r + 16) b.head) (r + 24) b.size x (omega arith)
      ∙ byte-store64 m3 (r + 16) b.head x (omega arith)
      ∙ byte-store32 m2 (r + 12) 0 x (omega arith)
      ∙ byte-store32 m1 (r + 8) b.count x (omega arith)
      ∙ byte-store64 m r b.extensions x (omega arith)

  pub extensions-store_bucket :
      b.extensions < u64_mod → load64 (store_bucket m r b) r ≡ b.extensions
  unfolding store_bucket create
  extensions-store_bucket small =
      let m1 = store64 m r b.extensions in
      let m2 = store32 m1 (r + 8) b.count in
      let m3 = store32 m2 (r + 12) 0 in
      load64-store64-Apart (store64 m3 (r + 16) b.head) (r + 24) r b.size (omega arith)
      ∙ load64-store64-Apart m3 (r + 16) r b.head (omega arith)
      ∙ load64-store32-Apart m2 (r + 12) r 0 (omega arith)
      ∙ load64-store32-Apart m1 (r + 8) r b.count (omega arith)
      ∙ load64-store64 m r b.extensions small

  pub lock-store_bucket : lock_of (store_bucket m r b) r ≡ 0
  unfolding store_bucket create
  lock-store_bucket =
      let m2 = store32 (store64 m r b.extensions) (r + 8) b.count in
      let m3 = store32 m2 (r + 12) 0 in
      load32-store64-Apart (store64 m3 (r + 16) b.head) (r + 24) (r + 12) b.size (omega arith)
      ∙ load32-store64-Apart m3 (r + 16) (r + 12) b.head (omega arith)
      ∙ load32-store32 m2 (r + 12) 0 (omega arith)

  pub head-store_bucket : b.head < u64_mod → chunk_head (store_bucket m r b) r ≡ b.head
  unfolding store_bucket create
  head-store_bucket small =
      let m3 = create m r b.extensions b.count in
      load64-store64-Apart (store64 m3 (r + 16) b.head) (r + 24) (r + 16) b.size (omega arith)
      ∙ load64-store64 m3 (r + 16) b.head small

  pub size-store_bucket : b.size < u64_mod → chunk_size (store_bucket m r b) r ≡ b.size
  unfolding store_bucket create
  size-store_bucket small =
      load64-store64 (store64 (create m r b.extensions b.count) (r + 16) b.head) (r + 24) b.size
        small

-- The extensions of the raw buckets of a collection, whatever methods it has itself.
abbrev pub raw_extensions : CollectionExtensions → CollectionExtensions
raw_extensions e = record e { methods = bucket_methods_ptr }

-- Entry `i` of a valid registry has the extensions of the raw buckets of a collection with
-- extensions `e`.
pub record IsRegistered (s : Service) (i : ℕ) (e : CollectionExtensions) : Type 0 where
  pub valid : IsValid s.world
  pub used : i < s.world.extension_count
  pub entry : get_elem? s.world.extensions i ≡ some (raw_extensions e)

-- The chunk of a raw bucket, and the memory behind Collection_RawBucket.
abbrev pub raw_chunk : TypeInfo → Word → ℕ → Chunk
raw_chunk t head n = record { head = head; size = mul64 t.size n }

abbrev pub raw_struct : ℕ → Chunk → ℕ → Bucket
raw_struct i chunk n = record {
  extensions = suc i;
  count = n;
  head = chunk.head;
  size = chunk.size;
}

abbrev pub raw_memory : Mem → Word → ℕ → Chunk → ℕ → Mem
raw_memory m loc i chunk n = store_bucket m loc (raw_struct i chunk n)

module _ {fuel : ℕ} {layout : Layout} {s : Service} {p : Word} {e : CollectionExtensions}
    {t : TypeInfo} {chunk : Chunk} {off : ℕ} (b : ChunkAt fuel layout s p e t chunk off) {i : ℕ}
    (known : IsRegistered s i e) (loc head : Word) (n : ℕ) where
  raw_extensions_lem : get_raw_extensions s.world e ≡ (suc i, s.world)
  unfolding get_raw_extensions
  raw_extensions_lem =
      get_extensions_known e.type bucket_methods_ptr e.mem_flags known.valid i known.used
        known.entry

  pub raw_bucket-store :
      raw_bucket s loc p head n ≡ done (put_mem s (raw_memory (mem s) loc i (raw_chunk t head n) n))
  unfolding raw_bucket
  raw_bucket-store = rw (b.extensions, raw_extensions_lem, unit_size-ChunkAt b) refl

  pub raw_bucket-BucketAt :
      loc ≢ 0
      → head < u64_mod
      → BucketAt
          (put_mem s (raw_memory (mem s) loc i (raw_chunk t head n) n))
          loc
          (raw_extensions e)
          t
          (raw_chunk t head n)
  unfolding extensions_at
  raw_bucket-BucketAt ne small = record {
    some_bucket = ne;
    extensions =
        ap (deref s.world.extensions) (
          extensions-store_bucket (mem s) loc (raw_struct i (raw_chunk t head n) n)
            (let v = known.valid in let le = v.room in let lt = known.used in omega arith))
        ∙ rw known.entry refl;
    methods = refl;
    type = b.type;
    head = head-store_bucket (mem s) loc (raw_struct i (raw_chunk t head n) n) small;
    size = size-store_bucket (mem s) loc (raw_struct i (raw_chunk t head n) n) (omega arith);
    small_head = small;
    small_size = omega arith;
  }
