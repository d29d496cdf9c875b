-- ===== src/Ques.antt =====
-- tQues.c: a queue that goes round in the 32 units of a bucket. A RollingQue at `p` is its Bucket, of
-- 32 bytes, followed by the index of its first unit and the index behind its last one, four bytes
-- each. RollingQue_Append and RollingQue_PullNext do nothing and answer false.
pub mod Advancing
use barrel_test.Base.{
  ltb, leb, ◌==◌, if◌then◌else◌, Bool-cases, ==_iff, ==_false, ==_refl, ltb→lt, lt→ltb, ltb-false,
  codes, length, get_elem?, get_or, set, replicate, All, length-append, length-set,
  length-replicate, get_or-set_self, get_or-set_ne, get_or-replicate, get_elem?-append_left,
  get_elem?-append_last, get_elem?-set_self, get_elem?-set_ne, get_elem?-set-some, ℕ, zero, suc,
  ◌+◌, ◌-◌, ◌*◌, ◌/◌, ◌%◌, ◌^◌, ◌≤◌, ◌<◌, ◌≡◌, refl, sym, ap, ◌∙◌, subst, ◌≢◌, ◌↔◌, ◌⊎◌, inl, inr,
  Bool, true, false, not, ◌&&◌, ◌||◌, Option, none, some, List, [], ◌∷◌, ◌++◌, map, append-nil,
  append_assoc, arith,
}
use barrel_test.Base.Int.{
  ℤ, pos, negsuc, pos_part, neg_part, sub_ℕ, ◌+ℤ◌, neg, ltb_ℤ, eqb_ℤ, ◌≤ℤ◌, u32_mod, u64_mod,
  wrap_word, to_int, sub32, sub64, add64, mul64,
}
use barrel_test.Base.Run.{Run, done, ◌>>=◌}
use barrel_test.Enums.{max_que_count}
use barrel_test.Helpers.{Word}
use barrel_test.Memory.{Mem}
use barrel_test.Memory.Words.{load32, store32}
use barrel_test.TypeInfo.{Layout}
use barrel_test.Bucket.{Bucket, store_bucket}
use barrel_test.Barrel.{Service, mem, put_mem}
use barrel_test.User.{Frame}
use barrel_test.User

abbrev pub que_start : Mem → Word → ℕ
que_start m p = load32 m (p + 32)

abbrev pub que_next : Mem → Word → ℕ
que_next m p = load32 m (p + 36)

-- RollingQue_Clear: a write from NULL.
unfoldable pub clear_unit : ℕ → Layout → Frame → Service → Word → ℕ → Run Service
unfolding User.write
clear_unit fuel layout frame s que index = do
  r ← User.write fuel layout frame s que 0 index
  done r.1

-- `for (i = 0; i < MaxQueCount; i++) RollingQue_Clear(que, i)`, with `n` rounds left.
unfoldable pub clear_loop : ℕ → ℕ → ℕ → Layout → Frame → Service → Word → Run Service
unfolding clear_unit
clear_loop zero i fuel layout frame s que = done s
clear_loop (suc n) i fuel layout frame s que = do
  s' ← clear_unit fuel layout frame s que i
  clear_loop n (i + 1) fuel layout frame s' que

-- RollingQue_ClearAll.
unfoldable pub clear_all : ℕ → Layout → Frame → Service → Word → Run Service
unfolding clear_loop
clear_all fuel layout frame s que = do
  s' ← clear_loop max_que_count 0 fuel layout frame s que
  done (put_mem s' (store32 (store32 (mem s') (que + 36) 0) (que + 32) 0))

-- RollingQue_ctor, whose local queue lies at `loc`.
unfoldable pub ctor : ℕ → Layout → Frame → Service → Word → Bucket → Run Service
unfolding clear_all store_bucket
ctor fuel layout frame s loc bucket =
    let m = store32 (store32 (store_bucket (mem s) loc bucket) (loc + 32) 0) (loc + 36) 0 in
    clear_all fuel layout frame (put_mem s m) loc

-- Advance: the old index, and the memory with the new one.
unfoldable pub advance_index : Mem → Word → ℕ × Mem
advance_index m index =
    let new = (load32 m index + 1) % u32_mod in
    (load32 m index, store32 m index (if leb max_que_count new then 0 else new))

-- RollingQue_HasQue.
unfoldable pub has_que : Mem → Word → Bool
has_que m que = not (que_start m que == que_next m que)

-- RollingQue_SeeNext.
unfoldable pub see_next : ℕ → Layout → Frame → Service → Word → Word → Run (Bool × Service)
unfolding User.read
see_next fuel layout frame s que trg =
    if que_start (mem s) que == que_next (mem s) que
    then done (false, s)
    else User.read fuel layout frame s que trg (que_start (mem s) que)
