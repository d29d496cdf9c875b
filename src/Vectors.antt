-- ===== src/Vectors.antt =====
-- tVector.c: the copying of a span of units between two chunks that are read round, and the request
-- that asks two collections for their chunks first.
pub mod Rolled
use barrel_test.Base.{
  ltb, leb, ◌==◌, if◌then◌else◌, Bool-cases, ==_iff, ==_false, ==_refl, ltb→lt, lt→ltb, ltb-false,
  codes, length, get_elem?, get_or, drop, set, replicate, All, length-append, length-set,
  length-replicate, get_or-set_self, get_or-set_ne, get_or-replicate, get_elem?-append_left,
  get_elem?-append_last, get_elem?-set_self, get_elem?-set_ne, get_elem?-set-some, ℕ, zero, suc,
  ◌+◌, ◌-◌, ◌*◌, ◌/◌, ◌%◌, ◌^◌, ◌≤◌, ◌<◌, ◌≡◌, refl, sym, ap, ◌∙◌, subst, ◌≢◌, ◌↔◌, ◌⊎◌, inl, inr,
  Bool, true, false, not, ◌&&◌, ◌||◌, Option, none, some, List, [], ◌∷◌, ◌++◌, map, append-nil,
  append_assoc, arith,
}
use barrel_test.Base.Int.{
  ℤ, pos, negsuc, pos_part, neg_part, sub_ℕ, ◌+ℤ◌, neg, ltb_ℤ, eqb_ℤ, ◌≤ℤ◌, u32_mod, u64_mod,
  wrap_word, to_int, sub32, sub64, add64, mul64,
}
use barrel_test.Base.Run.{Run, done, spins, faults, starves, ◌>>=◌}
use barrel_test.Enums.{
  param_option_code, t_chunk, t_write, t_raw, t_collection, manage, t_variant, t_trg, t_src, ix_trg,
  ix_src, t_direction, t_size, t_count, ParamType,
}
use barrel_test.Helpers.{Word, Request, slot, slot_code}
use barrel_test.Memory.{Mem, write}
use barrel_test.TypeInfo.{Layout}
use barrel_test.Chunk
use barrel_test.Chunk.{Chunk}
use barrel_test.Collection.{unit_size}
use barrel_test.Barrel.{Service, mem, put_mem}
use barrel_test.Barrel.Methods.{Reply}
use barrel_test.User.{p_, make_request, call_methods}

-- `((ptr + i) % chunk._size) + chunk._head`.
unfoldable pub round_place : Chunk → ℕ → ℕ → Word
round_place chunk ptr i = add64 (add64 ptr i % chunk.size) chunk.head

-- `for (i = 0; i < span; i++)`, with `n` rounds left.
unfoldable pub span_loop : ℕ → ℕ → Mem → Chunk → ℕ → Chunk → ℕ → Mem
unfolding round_place
span_loop zero i m trg trg_ptr src src_ptr = m
span_loop (suc n) i m trg trg_ptr src src_ptr =
    span_loop n (i + 1) (write m (round_place trg trg_ptr i) (m (round_place src src_ptr i))) trg
      trg_ptr src src_ptr

-- Vector_Transcribe behind the reading of its parameters. A chunk of no bytes divides by zero.
unfoldable pub move_span : ℕ → Mem → Chunk → ℕ → Chunk → ℕ → Run Mem
unfolding span_loop
move_span zero m trg trg_ptr src src_ptr = done m
move_span (suc n) m trg trg_ptr src src_ptr =
    if trg.size == 0 || src.size == 0
    then faults
    else done (span_loop (suc n) 0 m trg trg_ptr src src_ptr)

-- Vector_Transcribe. The start in the source counts the head of the source in.
unfoldable pub vector_transcribe : Mem → Request → Run Mem
unfolding move_span Chunk.read
vector_transcribe m request =
    let trg = Chunk.read m (slot request t_trg) in
    let src = Chunk.read m (slot request t_src) in
    let unit = slot request t_size in
    let span = mul64 unit (slot request t_count) in
    move_span span m trg (mul64 unit (slot request ix_trg)) src
      (add64 src.head (mul64 unit (slot request ix_src)))

-- The addresses of the two chunks that a call of Vector_Transcribe0 has as locals.
pub record Locals : Type 0 where
  pub host : Word
  pub aggr : Word

abbrev pub set_slot : Request → ParamType → Word → Request
set_slot request t v = record request { params = set request.params (slot_code t) v }

-- The request for the chunk of a collection, into a local.
unfoldable pub ask_chunk : ℕ → Layout → Service → Word → Word → Run Reply
unfolding make_request call_methods
ask_chunk fuel layout s p loc = do
  r ←
      make_request manage
        (p_ t_variant (param_option_code t_chunk) ∷ p_ t_src p ∷ p_ t_trg loc ∷ [])
  call_methods fuel layout s p r

-- The switch of Vector_Transcribe0: whether the second chunk is there.
unfoldable pub aggregate : ℕ → Layout → Locals → Service → Request → ℕ → Word → Run (Bool × Service)
unfolding ask_chunk Chunk.ctor
aggregate fuel layout locals s request var p =
    let size = slot request t_size in
    if var == param_option_code t_raw
    then done
        (true, put_mem s (Chunk.ctor (mem s) locals.aggr p (mul64 size (slot request t_count))))
    else if var == param_option_code t_collection
    then (do
      other ← unit_size s.world p
      if other == size
          then (do a ← ask_chunk fuel layout s p locals.aggr; done (a.answer, a.service))
          else done (false, s))
    else done (false, s)

-- The slots of the host and of the other side, by the direction.
abbrev pub host_slot : Request → ParamType
host_slot request =
    if slot request t_direction % u32_mod == param_option_code t_write then t_trg else t_src

abbrev pub aggr_slot : Request → ParamType
aggr_slot request =
    if slot request t_direction % u32_mod == param_option_code t_write then t_src else t_trg

-- Vector_Transcribe0, whose calls of itself have the locals of the list. Such a call has the chunks
-- in the slots of the collections: it follows the head of a chunk as a pointer to extensions, which
-- faults here unless it is an index of the registry; the code reads what lies there.
unfoldable pub vector_transcribe0 :
    ℕ → Layout → List Locals → Service → Request → Run (Bool × Service)
unfolding aggregate ask_chunk
vector_transcribe0 fuel layout [] s request = starves
vector_transcribe0 fuel layout (locals ∷ stack) s request = do
  let host = host_slot request
  let aggr = aggr_slot request
  size ← unit_size s.world (slot request host)
  let sized = set_slot request t_size size
  a ← ask_chunk fuel layout s (slot request host) locals.host
  (ok, s') ←
      (if a.answer
        then aggregate fuel layout locals a.service sized (slot request t_variant % u32_mod)
            (slot request aggr)
        else done (false, a.service))
  if ok
      then (do
        (b, s'') ←
            vector_transcribe0 fuel layout stack s'
              (set_slot (set_slot sized host locals.host) aggr locals.aggr)
        done (true, s''))
      else done (false, s')
