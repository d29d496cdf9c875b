-- ===== src/User.antt =====
-- The functions of tCollection.c that a user calls on any collection (tUserCollection.h): requests
-- go to the methods that the collection's extensions name. Local variables that are passed by
-- address lie at the addresses of a `Frame`.
pub mod Transcribe
pub mod Queries
pub mod Chunks
pub mod Nodes
pub mod Buckets
pub mod Spans
pub mod Units
pub mod RawBuckets
pub mod Writing
pub mod RoundTrip
pub mod NodeUnits
pub mod Made
use barrel_test.Base.{
  ltb, leb, ◌==◌, if◌then◌else◌, Bool-cases, ==_iff, ==_false, ==_refl, ltb→lt, lt→ltb, ltb-false,
  codes, length, get_elem?, get_or, set, replicate, All, length-append, length-set,
  length-replicate, get_or-set_self, get_or-set_ne, get_or-replicate, get_elem?-append_left,
  get_elem?-append_last, get_elem?-set_self, get_elem?-set_ne, get_elem?-set-some, ℕ, zero, suc,
  ◌+◌, ◌-◌, ◌*◌, ◌/◌, ◌%◌, ◌^◌, ◌≤◌, ◌<◌, ◌≡◌, refl, sym, ap, ◌∙◌, subst, ◌≢◌, ◌↔◌, ◌⊎◌, inl, inr,
  Bool, true, false, not, ◌&&◌, ◌||◌, Option, none, some, List, [], ◌∷◌, ◌++◌, map, append-nil,
  append_assoc, arith,
}
use barrel_test.Base.Int.{
  ℤ, pos, negsuc, pos_part, neg_part, sub_ℕ, ◌+ℤ◌, neg, ltb_ℤ, eqb_ℤ, ◌≤ℤ◌, u32_mod, u64_mod,
  wrap_word, to_int, sub32, sub64, add64, mul64,
}
use barrel_test.Base.Run.{Run, done, spins, faults, ◌>>=◌, of_option}
use barrel_test.Enums.{
  mem_flag_code, read_only, param_option_code, param_type_code, t_chunk, t_resize, RequestType,
  info, manage, null_end, t_variant, t_trg, t_src, t_size, t_count, t_capacity, ParamType,
}
use barrel_test.Helpers.{Word, Parameter, Request, slot_code, create_request}
use barrel_test.Memory.{Mem, raw_transcribe}
use barrel_test.Memory.Words.{load32}
use barrel_test.TypeInfo.{Layout}
use barrel_test.Chunk
use barrel_test.Chunk.{Chunk}
use barrel_test.Collection.{
  CollectionExtensions, bucket_methods_ptr, barrel_extensions_ptr, set_mem, has_flag, deref,
  transcribe_compare, get_raw_extensions, extensions_at, unit_size, request, release,
}
use barrel_test.Bucket.{Bucket, store_bucket}
use barrel_test.Bucket
use barrel_test.Barrel.{Service, mem, put_mem}
use barrel_test.Barrel.Rolling.{lock, unlock}
use barrel_test.Barrel.Methods
use barrel_test.Barrel.Methods.{Reply}

-- The addresses of the locals: the answer of a query, the struct of a raw bucket, and the two
-- chunks of Collection_Transcribe.
pub record Frame : Type 0 where
  pub output : Word
  pub raw_bucket : Word
  pub trg_chunk : Word
  pub src_chunk : Word

-- `P_(t, v)` and the end marker that the macro Request adds.
abbrev pub p_ : ParamType → Word → Parameter
p_ t v = record { type = param_type_code t; ptr = v }

abbrev pub null_param : Parameter
null_param = record { type = param_type_code null_end; ptr = 0 }

-- The macro Request, whose buffer starts out zeroed.
unfoldable pub make_request : RequestType → List Parameter → Run Request
unfolding create_request
make_request type params =
    of_option (create_request type (params ++ (null_param ∷ [])) (replicate 17 0))

unfoldable pub bucket_reply : Service → Bucket.Reply → Reply
bucket_reply s r = record {
  answer = r.answer;
  params = r.params;
  service = record s { world = r.world };
}

-- `collection->_extensions->_methods(request)`.
unfoldable pub call_methods : ℕ → Layout → Service → Word → Request → Run Reply
unfolding bucket_reply extensions_at Bucket.methods Methods.extensions
call_methods fuel layout s p r = do
  e ← extensions_at s.world p
  if e.methods == bucket_methods_ptr
      then (do b ← Bucket.methods s.world r; done (bucket_reply s b))
      else if e.methods == barrel_extensions_ptr
      then Methods.extensions fuel layout s r
      else faults

-- Collection_Capacity: what stands in the local, whether or not the call filled it.
unfoldable pub capacity : ℕ → Layout → Frame → Service → Word → Run (ℕ × Service)
unfolding call_methods make_request
capacity fuel layout frame s p = do
  r ← make_request info (p_ t_trg p ∷ p_ t_capacity frame.output ∷ [])
  a ← call_methods fuel layout s p r
  done (load32 (mem a.service) frame.output, a.service)

-- Collection_Count.
unfoldable pub count : ℕ → Layout → Frame → Service → Word → Run (ℕ × Service)
unfolding call_methods make_request
count fuel layout frame s p = do
  r ← make_request info (p_ t_variant (slot_code t_count) ∷ p_ t_src p ∷ p_ t_trg frame.output ∷ [])
  a ← call_methods fuel layout s p r
  done (load32 (mem a.service) frame.output, a.service)

-- Collection_Resize.
unfoldable pub resize : ℕ → Layout → Service → Word → ℕ → Run (Bool × Service)
unfolding call_methods make_request
resize fuel layout s p n = do
  r ←
      make_request manage
        (p_ t_variant (param_option_code t_resize) ∷ p_ t_trg p ∷ p_ t_count n ∷ [])
  a ← call_methods fuel layout s p r
  done (a.answer, a.service)

-- Collection_ReadOnly.
unfoldable pub is_read_only : Service → Word → Run Bool
unfolding extensions_at
is_read_only s p = do
  e ← extensions_at s.world p
  done (has_flag e.mem_flags (mem_flag_code read_only))

-- The place of unit `start + i` in a chunk, counted from `offset` on and round at its end.
unfoldable pub unit_place : Chunk → ℕ → ℕ → ℕ → ℕ → Word
unit_place chunk offset size start i =
    add64 chunk.head (add64 offset (mul64 size ((start + i) % u32_mod)) % chunk.size)

-- `for (i = 0; i < count; i++) rawTranscribe(...)`, with `n` rounds left.
unfoldable pub transcribe_loop : ℕ → ℕ → Mem → Chunk → ℕ → ℕ → Chunk → ℕ → ℕ → ℕ → Mem
unfolding unit_place
transcribe_loop zero i m trg trg_offset trg_start src src_offset src_start size = m
transcribe_loop (suc n) i m trg trg_offset trg_start src src_offset src_start size =
    transcribe_loop n (i + 1)
      (raw_transcribe m (unit_place trg trg_offset size trg_start i)
        (unit_place src src_offset size src_start i) size)
      trg trg_offset trg_start src src_offset src_start size

-- The request for a chunk: the chunk, the reported offset, and the service.
unfoldable pub request_chunk : ℕ → Layout → Service → Word → Word → Run (Chunk × ℕ × Service)
unfolding call_methods make_request Chunk.read
request_chunk fuel layout s p loc = do
  r ←
      make_request manage
        (p_ t_variant (param_option_code t_chunk) ∷ p_ t_src p ∷ p_ t_trg loc ∷ [])
  a ← call_methods fuel layout s p r
  done (Chunk.read (mem a.service) loc, get_or a.params (slot_code t_size) 0, a.service)

-- The loop of Collection_Transcribe, which divides by the size of both chunks.
unfoldable pub move_units : Service → Chunk → ℕ → ℕ → Chunk → ℕ → ℕ → ℕ → ℕ → Run Service
unfolding transcribe_loop
move_units s trg trg_offset trg_start src src_offset src_start size zero = done s
move_units s trg trg_offset trg_start src src_offset src_start size (suc n) =
    if trg.size == 0 || src.size == 0
    then faults
    else done (
        put_mem s (
          transcribe_loop (suc n) 0 (mem s) trg trg_offset trg_start src src_offset src_start size))

-- Collection_Transcribe.
unfoldable pub transcribe :
    ℕ → Layout → Frame → Service → Word → Word → ℕ → ℕ → ℕ → Run (Bool × Service)
unfolding transcribe_compare lock request_chunk move_units unlock unit_size
transcribe fuel layout frame s trg src trg_start src_start n = do
  a ← extensions_at s.world trg
  b ← extensions_at s.world src
  ok ← transcribe_compare s.world a b
  if ok
      then (do
        s1 ← lock s trg
        s2 ← lock s1 src
        t ← request_chunk fuel layout s2 trg frame.trg_chunk
        c ← request_chunk fuel layout t.2 src frame.src_chunk
        size ← unit_size c.2.world trg
        s3 ← move_units c.2 t.0 t.1 trg_start c.0 c.1 src_start size n
        done (true, unlock (unlock s3 trg) src))
      else done (false, s)

-- Collection_RawBucket, stored in its local.
unfoldable pub raw_bucket : Service → Word → Word → Word → ℕ → Run Service
unfolding get_raw_extensions store_bucket unit_size
raw_bucket s loc p head n = do
  e ← extensions_at s.world p
  let (ext, w) = get_raw_extensions s.world e
  size ← unit_size w p
  done (record s {
    world = set_mem w (
        store_bucket w.bins.mem loc
          (record { extensions = ext; count = n; head = head; size = mul64 size n }));
  })

-- Collection_ReadSpan and Collection_Read.
unfoldable pub read_span : ℕ → Layout → Frame → Service → Word → Word → ℕ → ℕ → Run (Bool × Service)
unfolding raw_bucket transcribe
read_span fuel layout frame s src trg start n = do
  s1 ← raw_bucket s frame.raw_bucket src trg n
  transcribe fuel layout frame s1 frame.raw_bucket src 0 start n

unfoldable pub read : ℕ → Layout → Frame → Service → Word → Word → ℕ → Run (Bool × Service)
unfolding read_span
read fuel layout frame s src trg index = read_span fuel layout frame s src trg index 1

-- Collection_WriteSpan and Collection_Write.
unfoldable pub write_span :
    ℕ → Layout → Frame → Service → Word → Word → ℕ → ℕ → Run (Bool × Service)
unfolding raw_bucket transcribe
write_span fuel layout frame s trg src start n = do
  s1 ← raw_bucket s frame.raw_bucket trg src n
  transcribe fuel layout frame s1 trg frame.raw_bucket start 0 n

unfoldable pub write : ℕ → Layout → Frame → Service → Word → Word → ℕ → Run (Bool × Service)
unfolding write_span
write fuel layout frame s trg src index = write_span fuel layout frame s trg src index 1
