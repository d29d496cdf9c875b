-- ===== src/Links.antt =====
-- tLink.c: doubly linked records. A Link at `p` is the pointer to the next one, the pointer to the
-- one before, and a lock of four bytes.
pub mod Inserting
use barrel_test.Base.{
  ltb, leb, ◌==◌, if◌then◌else◌, Bool-cases, ==_iff, ==_false, ==_refl, ltb→lt, lt→ltb, ltb-false,
  codes, length, get_elem?, get_or, set, replicate, All, length-append, length-set,
  length-replicate, get_or-set_self, get_or-set_ne, get_or-replicate, get_elem?-append_left,
  get_elem?-append_last, get_elem?-set_self, get_elem?-set_ne, get_elem?-set-some, ℕ, zero, suc,
  ◌+◌, ◌-◌, ◌*◌, ◌/◌, ◌%◌, ◌^◌, ◌≤◌, ◌<◌, ◌≡◌, refl, sym, ap, ◌∙◌, subst, ◌≢◌, ◌↔◌, ◌⊎◌, inl, inr,
  Bool, true, false, not, ◌&&◌, ◌||◌, Option, none, some, List, [], ◌∷◌, ◌++◌, map, append-nil,
  append_assoc, arith,
}
use barrel_test.Base.Run.{Run, done, spins, faults, ◌>>=◌}
use barrel_test.Helpers.{Word}
use barrel_test.Memory.{Mem}
use barrel_test.Memory.Words.{load32, load64, store32, store64}

abbrev pub next_of : Mem → Word → Word
next_of m p = load64 m p

abbrev pub prev_of : Mem → Word → Word
prev_of m p = load64 m (p + 8)

abbrev pub link_lock : Mem → Word → ℕ
link_lock m p = load32 m (p + 16)

-- `while (p->_lock) {}`, the increment of the lock, the stores of `f`, and the decrement. A link
-- that is NULL is passed over.
unfoldable pub locked : Mem → Word → (Mem → Mem) → Run Mem
locked m p f =
    if p == 0
    then done m
    else if link_lock m p == 0
    then done (store32 (f (store32 m (p + 16) 1)) (p + 16) 0)
    else spins

-- `target ? target : other`.
abbrev pub or_else : Word → Word → Word
or_else target other = if target == 0 then other else target

-- LinkElements.
unfoldable pub link_elements : Mem → Word → Word → Word → Run Mem
unfolding locked
link_elements m target prev next = do
  m1 ← locked m target (λ g. store64 (store64 g target next) (target + 8) prev)
  m2 ← locked m1 next (λ g. store64 g (next + 8) (or_else target prev))
  locked m2 prev (λ g. store64 g prev (or_else target next))

-- UnLink; a NULL target faults.
unfoldable pub un_link : Mem → Word → Run Mem
unfolding link_elements
un_link m target =
    if target == 0 then faults else link_elements m 0 (prev_of m target) (next_of m target)

-- RemoveAndNext.
unfoldable pub remove_and_next : Mem → Word → Run (Word × Mem)
unfolding un_link
remove_and_next m target = do m' ← un_link m target; done (next_of m target, m')
