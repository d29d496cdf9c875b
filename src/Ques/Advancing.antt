-- ===== src/Ques/Advancing.antt =====
-- The indices of a rolling queue.
use barrel_test.Base.{leb, if◌then◌else◌, ℕ, ◌+◌, ◌%◌, ◌<◌, ◌≡◌, refl, ◌∙◌, false, arith}
use barrel_test.Base.Int.{u32_mod}
use barrel_test.Base.Run.{done}
use barrel_test.Enums.{max_que_count}
use barrel_test.Helpers.{Word}
use barrel_test.Memory.{Mem}
use barrel_test.Memory.Words.{load32, load32-store32}
use barrel_test.TypeInfo.{Layout}
use barrel_test.Barrel.{Service, mem}
use barrel_test.User.{Frame}
use barrel_test.Ques.{advance_index, has_que, see_next}

-- From an index below 32 Advance answers the old index and leaves the next one round the ring.
pub advance_index_lem :
    (m : Mem) (index : Word)
    → load32 m index < max_que_count
    → ((advance_index m index).0 ≡ load32 m index)
      × (load32 (advance_index m index).1 index ≡ (load32 m index + 1) % max_que_count)
unfolding advance_index
advance_index_lem m index small =
    let old = load32 m index in
    let new = if leb max_que_count ((old + 1) % u32_mod) then 0 else (old + 1) % u32_mod in
    let below : new < u32_mod = ground arith in
    (refl, load32-store32 m index new below ∙ ground arith)

-- A queue that holds nothing shows nothing, and nothing changes.
pub see_next-has_que :
    (fuel : ℕ) (layout : Layout) (frame : Frame) (s : Service) (que trg : Word)
    → has_que (mem s) que ≡ false
    → see_next fuel layout frame s que trg ≡ done (false, s)
unfolding has_que see_next
see_next-has_que fuel layout frame s que trg empty = ground arith
