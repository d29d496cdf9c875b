-- ===== src/Barrel/Methods.antt =====
-- The answers of a barrel node to requests (Barrel_GetChunk, Barrel_Manage, Barrel_Info,
-- Barrel_Extensions).
use barrel_test.Base.{◌==◌, if◌then◌else◌, set, ℕ, ◌+◌, ◌*◌, ◌%◌, Bool, true, false, ◌||◌, List}
use barrel_test.Base.Int.{u32_mod}
use barrel_test.Base.Run.{Run, done, ◌>>=◌}
use barrel_test.Enums.{
  param_option_code, t_chunk, t_use, t_release, delta_size, t_resize, info, manage, transcribe,
  t_variant, t_trg, t_src, t_size, t_count, t_capacity, t_name,
}
use barrel_test.Helpers.{Word, Request, slot, slot_code}
use barrel_test.Memory.{barrel_size}
use barrel_test.Memory.Words.{load64, store32}
use barrel_test.TypeInfo.{Layout, get_info}
use barrel_test.Chunk
use barrel_test.Collection.{count_of}
use barrel_test.Bucket
use barrel_test.Barrel.{Service, mem, put_mem, barrel_count, get_head, get_size, capacity}
use barrel_test.Barrel.Rolling.{lock, unlock}
use barrel_test.Barrel.Sizing.{delta_size_request, resize_request}

-- What a method of a barrel leaves: its answer, the slots of its request, and the service.
pub record Reply : Type 0 where
  pub answer : Bool
  pub params : List Word
  pub service : Service

abbrev pub reply : Bool → Request → Service → Reply
reply b r s = record { answer = b; params = r.params; service = s }

abbrev of_pair : Request → Bool × Service → Reply
of_pair r (b, s) = reply b r s

-- Barrel_GetChunk: the node's whole memory.
unfoldable pub get_chunk : Service → Word → Word → Service
unfolding Chunk.ctor get_head get_size
get_chunk s node loc = put_mem s (Chunk.ctor (mem s) loc (get_head s node) (get_size s node))

-- Barrel_Manage. A chunk request reports the size of the chunk as the offset.
unfoldable pub manage_barrel : ℕ → Layout → Service → Request → Run Reply
unfolding get_chunk lock unlock delta_size_request resize_request
manage_barrel fuel layout s r =
    let var = slot r t_variant % u32_mod in
    let node = slot r t_src in
    if var == param_option_code t_chunk
    then done (record {
      answer = true;
      params = set r.params (slot_code t_size) (barrel_count (mem s) node * barrel_size);
      service = get_chunk s node (slot r t_trg);
    })
    else if var == param_option_code t_use
    then (do s' ← lock s node; done (reply true r s'))
    else if var == param_option_code t_release
    then done (reply true r (unlock s node))
    else if var == param_option_code delta_size
    then (do p ← delta_size_request fuel layout s r; done (of_pair r p))
    else if var == param_option_code t_resize
    then (do p ← resize_request fuel layout s r; done (of_pair r p))
    else done (reply false r s)

-- Barrel_Info.
unfoldable pub info_barrel : Service → Request → Run Reply
unfolding capacity get_info Bucket.store_info
info_barrel s r =
    let var = slot r t_variant % u32_mod in
    let node = slot r t_src in
    if var == slot_code t_count
    then done (reply true r (put_mem s (store32 (mem s) (slot r t_trg) (count_of (mem s) node))))
    else if var == slot_code t_capacity
    then (do
      n ← capacity s node
      done (reply true r (put_mem s (store32 (mem s) (slot r t_trg) n))))
    else if var == slot_code t_name || var == slot_code t_size
    then (let b =
          Bucket.store_info s.world r
            (get_info (load64 (mem s) node) (load64 (mem s) (node + 8)) r) in
        done (reply b.answer r (record s { world = b.world })))
    else done (reply false r s)

-- Barrel_Extensions. Barrel_Transcribe answers false.
unfoldable pub extensions : ℕ → Layout → Service → Request → Run Reply
unfolding manage_barrel info_barrel
extensions fuel layout s r = elim r.type [
  | info ↦ info_barrel s r
  | transcribe ↦ done (reply false r s)
  | manage ↦ manage_barrel fuel layout s r
  | _ ↦ done (reply false r s)
]
