-- ===== src/Links/Inserting.antt =====
-- LinkElements puts a link between two others, and UnLink takes it out again.
use barrel_test.Base.{==_false, ◌+◌, ◌<◌, ◌≡◌, refl, ◌∙◌, ◌≢◌, arith}
use barrel_test.Base.Int.{u64_mod}
use barrel_test.Base.Run.{done}
use barrel_test.Helpers.{Word}
use barrel_test.Memory.{Mem}
use barrel_test.Memory.Words.{
  Apart, load64, store32, store64, load64-store64, load64-store64-Apart, load64-store32-Apart,
  load32-store32-Apart, load32-store64-Apart,
}
use barrel_test.Links.{next_of, prev_of, link_lock, un_link}

-- The link at `p`, not NULL, and free.
pub record IsFree (m : Mem) (p : Word) : Type 0 where
  pub some_link : p ≢ 0
  pub free : link_lock m p ≡ 0

-- What the stores of one pointer behind a lock leave.
abbrev set_prev : Mem → Word → Word → Mem
set_prev m p prev = store32 (store64 (store32 m (p + 16) 1) (p + 8) prev) (p + 16) 0

abbrev set_next : Mem → Word → Word → Mem
set_next m p next = store32 (store64 (store32 m (p + 16) 1) p next) (p + 16) 0

module _ (m : Mem) (p next : Word) (small : next < u64_mod) where
  next-set_next : next_of (set_next m p next) p ≡ next
  next-set_next =
      load64-store32-Apart _ (p + 16) p 0 (omega arith)
      ∙ load64-store64 (store32 m (p + 16) 1) p next (omega arith)

  prev-set_prev : prev_of (set_prev m p next) p ≡ next
  prev-set_prev =
      load64-store32-Apart _ (p + 16) (p + 8) 0 (omega arith)
      ∙ load64-store64 (store32 m (p + 16) 1) (p + 8) next (omega arith)

module _ (m : Mem) (p v q : Word) where
  word-set_next : Apart p 8 q 8 → Apart (p + 16) 4 q 8 → load64 (set_next m p v) q ≡ load64 m q
  word-set_next apart apart' =
      load64-store32-Apart _ (p + 16) q 0 apart'
      ∙ load64-store64-Apart _ p q v apart
      ∙ load64-store32-Apart m (p + 16) q 1 apart'

  word-set_prev : Apart (p + 8) 12 q 8 → load64 (set_prev m p v) q ≡ load64 m q
  word-set_prev apart =
      load64-store32-Apart _ (p + 16) q 0 (omega arith)
      ∙ load64-store64-Apart _ (p + 8) q v (omega arith)
      ∙ load64-store32-Apart m (p + 16) q 1 (omega arith)

  lock-set_prev : Apart p 24 q 24 → link_lock (set_prev m p v) q ≡ link_lock m q
  lock-set_prev apart =
      load32-store32-Apart _ (p + 16) (q + 16) 0 (omega arith)
      ∙ load32-store64-Apart _ (p + 8) (q + 16) v (omega arith)
      ∙ load32-store32-Apart m (p + 16) (q + 16) 1 (omega arith)

-- UnLink of a link between two free links that lie apart joins these two: each points to the other,
-- and no pointer of the link that was taken out changes.
pub un_link_lem :
    (m : Mem) (target prev next : Word)
    → target ≢ 0
    → prev_of m target ≡ prev
    → next_of m target ≡ next
    → IsFree m prev
    → IsFree m next
    → prev < u64_mod
    → next < u64_mod
    → Apart prev 24 next 24
    → Apart target 24 prev 24
    → Apart target 24 next 24
    → (m' : Mem) × (un_link m target ≡ done m')
      × (next_of m' prev ≡ next)
      × (prev_of m' next ≡ prev)
      × (next_of m' target ≡ next)
      × (prev_of m' target ≡ prev)
unfolding un_link
un_link_lem m target prev next ne to_prev to_next p n sp sn apart apart' apart'' =
    let m1 = set_prev m next prev in
    let still_free : link_lock m1 prev ≡ 0 =
      lock-set_prev m next prev prev (omega arith) ∙ p.free in
    (
      set_next m1 prev next,
      rw (==_false target 0 ne, to_prev, to_next)
          (rw (==_false next 0 n.some_link, n.free, ==_false prev 0 p.some_link, still_free) refl),
      next-set_next m1 prev next sn,
      word-set_next m1 prev next (next + 8) (omega arith) (omega arith)
          ∙ prev-set_prev m next prev sp,
      word-set_next m1 prev next target (omega arith) (omega arith)
          ∙ word-set_prev m next prev target (omega arith)
          ∙ to_next,
      word-set_next m1 prev next (target + 8) (omega arith) (omega arith)
          ∙ word-set_prev m next prev (target + 8) (omega arith)
          ∙ to_prev,
    )
