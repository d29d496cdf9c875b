-- ===== src/User/Queries.antt =====
-- The queries of a user on a bucket: Collection_Capacity, Collection_Count, Collection_Resize.
use barrel_test.Collection.{CollectionExtensions, bucket_methods_ptr, extensions_at, count_of}
use barrel_test.User.{bucket_reply, Frame, capacity, count, resize, call_methods}
use barrel_test.Base.{ℕ, ◌<◌, ◌≡◌, refl, ap, false}
use barrel_test.Base.Int.{u32_mod}
use barrel_test.Base.Run.{done, ◌>>=◌}
use barrel_test.Helpers.{Word, Request}
use barrel_test.Memory.Words.{load32, load32-store32, store32}
use barrel_test.TypeInfo.{Layout}
use barrel_test.Bucket
use barrel_test.Barrel.{Service, mem, put_mem}

-- The collection at `p` is a bucket, by the methods that its extensions name.
abbrev pub HasBucketMethods : Service → Word → Type 0
HasBucketMethods s p =
    (e : CollectionExtensions) × (extensions_at s.world p ≡ done e)
    × (e.methods ≡ bucket_methods_ptr)

pub call-bucket :
    (fuel : ℕ) (layout : Layout) (s : Service) (p : Word) (r : Request)
    → HasBucketMethods s p
    → call_methods fuel layout s p r ≡ (do b ← Bucket.methods s.world r; done (bucket_reply s b))
unfolding call_methods
call-bucket fuel layout s p r (e, at, same) = rw (at, same) refl

-- Collection_Capacity names no variant: a bucket answers nothing, and the result is what stood in
-- the uninitialised local.
pub capacity_lem :
    (fuel : ℕ) (layout : Layout) (frame : Frame) (s : Service) (p : Word)
    → HasBucketMethods s p
    → capacity fuel layout frame s p ≡ done (load32 (mem s) frame.output, s)
unfolding capacity bucket_reply Bucket.methods Bucket.info_bucket
capacity_lem fuel layout frame s p is = rw (call-bucket fuel layout s p _ is) refl

-- Collection_Count of a bucket answers its count, and changes no memory but the local that it
-- reads the answer from.
pub count_lem :
    (fuel : ℕ) (layout : Layout) (frame : Frame) (s : Service) (p : Word)
    → HasBucketMethods s p
    → count_of (mem s) p < u32_mod
    → count fuel layout frame s p
      ≡ done (count_of (mem s) p, put_mem s (store32 (mem s) frame.output (count_of (mem s) p)))
unfolding count bucket_reply Bucket.methods Bucket.info_bucket
count_lem fuel layout frame s p is small = rw (call-bucket fuel layout s p _ is) (
    ap (λ c. done (c, put_mem s (store32 (mem s) frame.output (count_of (mem s) p))))
      (load32-store32 (mem s) frame.output (count_of (mem s) p) small))

-- Collection_Resize of a bucket answers false and changes nothing.
pub resize_lem :
    (fuel : ℕ) (layout : Layout) (s : Service) (p : Word) (n : ℕ)
    → HasBucketMethods s p
    → resize fuel layout s p n ≡ done (false, s)
unfolding resize bucket_reply Bucket.methods Bucket.manage_bucket
resize_lem fuel layout s p n is = rw (call-bucket fuel layout s p _ is) refl
