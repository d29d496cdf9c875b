-- ===== src/Bucket.antt =====
-- tBucket.c: a fixed chunk of memory as a collection. A Bucket at `p` is its Collection followed by
-- the head and the size of its chunk, 8 bytes each.
pub mod Create
pub mod Access
use barrel_test.Base.{
  ltb, leb, ◌==◌, if◌then◌else◌, Bool-cases, ==_iff, ==_false, ==_refl, ltb→lt, lt→ltb, ltb-false,
  codes, length, get_elem?, get_or, set, replicate, All, length-append, length-set,
  length-replicate, get_or-set_self, get_or-set_ne, get_or-replicate, get_elem?-append_left,
  get_elem?-append_last, ℕ, zero, suc, ◌+◌, ◌-◌, ◌*◌, ◌/◌, ◌%◌, ◌^◌, ◌≤◌, ◌<◌, ◌≡◌, refl, sym, ap,
  ◌∙◌, subst, ◌≢◌, ◌↔◌, ◌⊎◌, inl, inr, Bool, true, false, not, ◌&&◌, ◌||◌, Option, none, some, List,
  [], ◌∷◌, ◌++◌, map, append-nil, append_assoc, arith,
}
use barrel_test.Base.Int.{
  ℤ, pos, negsuc, pos_part, neg_part, sub_ℕ, ◌+ℤ◌, neg, ltb_ℤ, eqb_ℤ, ◌≤ℤ◌, u32_mod, u64_mod,
  wrap_word, to_int, sub32, sub64, add64, mul64,
}
use barrel_test.Base.Run.{Run, done, spins, faults, ◌>>=◌, divide}
use barrel_test.Enums.{
  mem_flag_code, fixed_size, empty, fill, param_option_code, t_chunk, RequestType, info, manage,
  iterate, t_variant, t_trg, t_src, ix_trg, t_size, t_count, t_capacity, t_name, ParamType,
}
use barrel_test.Helpers.{Word, Request, slot, slot_code}
use barrel_test.Memory.{Mem, raw_transcribe}
use barrel_test.Memory.Words.{load64, store64, store32}
use barrel_test.TypeInfo.{Name, Layout, TypeInfo, get, get_info, Store}
use barrel_test.Chunk
use barrel_test.Collection.{
  World, set_mem, entry_ptr, deref, has_flag, get_extensions, bucket_methods_ptr, unit_size,
  count_of, create,
}

abbrev pub chunk_head : Mem → Word → Word
chunk_head m p = load64 m (p + 16)

abbrev pub chunk_size : Mem → Word → ℕ
chunk_size m p = load64 m (p + 24)

-- Bucket_GetPtr. The type is read only where the index is in range.
unfoldable pub get_ptr : World → Word → ℕ → Run Word
unfolding unit_size
get_ptr w bucket index = if leb (count_of w.bins.mem bucket) index then done 0 else (do
  size ← unit_size w bucket
  done (add64 (chunk_head w.bins.mem bucket) (mul64 index size)))

-- Bucket_GetChunk.
unfoldable pub get_chunk : Mem → Word → Word → Mem
unfolding Chunk.ctor
get_chunk m bucket loc = Chunk.ctor m loc (chunk_head m bucket) (chunk_size m bucket)

-- Bucket_Capacity.
unfoldable pub capacity : World → Word → Run ℕ
unfolding unit_size
capacity w bucket = do
  size ← unit_size w bucket
  n ← divide (chunk_size w.bins.mem bucket) size
  done (n % u32_mod)

-- What a method leaves: its answer, the slots of its request, and the world.
pub record Reply : Type 0 where
  pub answer : Bool
  pub params : List Word
  pub world : World

abbrev pub reply : Bool → Request → World → Reply
reply b request w = record { answer = b; params = request.params; world = w }

-- Bucket_Iterate: the pointer goes to slot tTRG, and the index in slot Ix_TRG goes up by one.
unfoldable pub iterate_bucket : World → Request → Run Reply
unfolding get_ptr
iterate_bucket w request = do
  ptr ← get_ptr w (slot request t_src) (slot request ix_trg % u32_mod)
  done (record {
    answer = true;
    params =
        set (set request.params (slot_code t_trg) ptr) (slot_code ix_trg)
          (add64 (slot request ix_trg) 1);
    world = w;
  })

-- Bucket_Manage: a chunk request also reports the offset 0; all else, tRESIZE included, fails.
unfoldable pub manage_bucket : World → Request → Reply
unfolding get_chunk
manage_bucket w request =
    if slot request t_variant % u32_mod == param_option_code t_chunk
    then (record {
      answer = true;
      params = set request.params (slot_code t_size) 0;
      world = set_mem w (get_chunk w.bins.mem (slot request t_src) (slot request t_trg));
    })
    else reply false request w

-- The store of TypeInfo_GetInfo.
unfoldable pub store_info : World → Request → Bool × Store → Reply
store_info w request (answer, none) = reply answer request w
store_info w request (answer, some (loc, word)) =
    reply answer request (set_mem w (store64 w.bins.mem loc word))

-- Bucket_Info. For a name or a size TypeInfo_GetInfo takes the bucket itself for a TypeInfo.
unfoldable pub info_bucket : World → Request → Run Reply
unfolding capacity get_info store_info
info_bucket w request =
    if var == slot_code t_count
    then done (
        reply true request
          (set_mem w (store32 w.bins.mem (slot request t_trg) (count_of w.bins.mem bucket))))
    else if var == slot_code t_capacity
    then (do
      n ← capacity w bucket
      done (reply true request (set_mem w (store32 w.bins.mem (slot request t_trg) n))))
    else if var == slot_code t_name || var == slot_code t_size
    then done (
        store_info w request
          (get_info (load64 w.bins.mem bucket) (load64 w.bins.mem (bucket + 8)) request))
    else done (reply false request w)
  where
    var : ℕ
    var = slot request t_variant % u32_mod

    bucket : Word
    bucket = slot request t_src

-- Bucket_Methods.
unfoldable pub methods : World → Request → Run Reply
unfolding info_bucket manage_bucket iterate_bucket
methods w request = elim request.type [
  | info ↦ info_bucket w request
  | manage ↦ done (manage_bucket w request)
  | iterate ↦ iterate_bucket w request
  | _ ↦ done (reply false request w)
]

-- `!e` of C on a number.
abbrev pub logical_not : ℕ → ℕ
logical_not e = if e == 0 then 1 else 0

-- `flags & e` for an `e` that is 0 or 1.
abbrev pub and_low : ℕ → ℕ → ℕ
and_low flags e = flags % 2 * e

-- `flags | e` for a flag that is a power of two.
abbrev pub or_flag : ℕ → ℕ → ℕ
or_flag flags e = if has_flag flags e then flags else flags + e

-- The flags that a constructor registers: `&= !(EMPTY)`, `&= !(FILL)`, `|= FIXED_SIZE`.
unfoldable pub created_flags : ℕ → ℕ
created_flags mem_flags =
    or_flag
      (and_low (and_low mem_flags (logical_not (mem_flag_code empty)))
        (logical_not (mem_flag_code fill)))
      (mem_flag_code fixed_size)

-- `for (i = 1; i < capacity; i++) rawTranscribe(&head[i * unitSize], head, unitSize)`, with `n`
-- rounds left.
unfoldable pub fill_loop : ℕ → ℕ → Mem → Word → ℕ → Mem
fill_loop zero i m head size = m
fill_loop (suc n) i m head size =
    fill_loop n (i + 1) (raw_transcribe m (head + i * size) head size) head size

-- The Bucket that Bucket_Create returns, as a value.
pub record Bucket : Type 0 where
  pub extensions : Word
  pub count : ℕ
  pub head : Word
  pub size : ℕ

-- Bucket_Create behind the lookup of its type.
unfoldable pub create_typed : World → Option ℕ → ℕ → Word → ℕ → ℕ → Run (Bucket × World)
unfolding created_flags fill_loop
create_typed w type size head mem_flags cap = do
  type_info ← deref w.bins.types (entry_ptr type)
  let (ext, w') = get_extensions w (entry_ptr type) bucket_methods_ptr (created_flags mem_flags)
  done (
    record {
      extensions = ext;
      count = (if has_flag mem_flags (mem_flag_code empty) then 0 else cap);
      head = head;
      size = mul64 type_info.size cap;
    },
    (if has_flag mem_flags (mem_flag_code fill)
        then set_mem w' (fill_loop (cap - 1) 1 w'.bins.mem head size)
        else w'),
  )

unfoldable pub create_bucket : Layout → World → Name → ℕ → Word → ℕ → ℕ → Run (Bucket × World)
unfolding create_typed
create_bucket layout w name size head mem_flags cap =
    let (type, bins) = get layout w.bins name size in
    create_typed (record w { bins = bins }) type size head mem_flags cap

-- The struct of a Bucket stored at `loc`.
unfoldable pub store_bucket : Mem → Word → Bucket → Mem
store_bucket m loc b =
    store64 (store64 (create m loc b.extensions b.count) (loc + 16) b.head) (loc + 24) b.size

-- Bucket_ctor.
unfoldable pub ctor : Layout → World → Name → ℕ → Word → Word → ℕ → ℕ → Run (Word × World)
unfolding create_bucket store_bucket
ctor layout w name size loc head mem_flags cap = do
  (b, w') ← create_bucket layout w name size head mem_flags cap
  done (loc, set_mem w' (store_bucket w'.bins.mem loc b))
