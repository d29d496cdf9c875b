-- ===== src/Barrel/Rolling/Chains.antt =====
-- Barrel_Roll over a whole chain of nodes, for barrels to be added.
use barrel_test.Barrel.Rolling.Branches.{roll-last, lock-free, up-not-zero, before_next-up}
use barrel_test.Base.{
  ltb, if◌then◌else◌, Bool-cases, length, All, ℕ, zero, suc, ◌+◌, ◌*◌, ◌<◌, ◌≡◌, refl, ap, ◌∙◌, ◌≢◌,
  inl, inr, Bool, true, false, List, [], ◌∷◌, arith,
}
use barrel_test.Base.Int.{ℤ, pos, ltb_ℤ, to_int}
use barrel_test.Base.Run.{Run, done, ◌>>=◌}
use barrel_test.Helpers.{Word}
use barrel_test.Memory.{barrel_size}
use barrel_test.Memory.Words.{Apart, store32, load32-store32-Apart}
use barrel_test.TypeInfo.{Layout}
use barrel_test.Heap.{remaining}
use barrel_test.Collection.{lock_of, count_of}
use barrel_test.Barrel.{Service, mem, put_mem, next_node, get_node, omega_index}
use barrel_test.Barrel.Rolling.{roll, finish, after_next}

-- A node with its lock taken, and then all nodes of a list.
abbrev pub taken : Service → Word → Service
taken s p = put_mem s (store32 (mem s) (p + 12) 1)

abbrev pub take_all : Service → List Word → Service
take_all s [] = s
take_all s (p ∷ ps) = take_all (taken s p) ps

-- The last moves of a list of nodes, from its end to its front.
abbrev pub finish_all : Service → List Word → ℤ → Service
finish_all s [] delta = s
finish_all s (p ∷ ps) delta = after_next (finish_all s ps delta) p delta

-- A node that is not NULL and whose lock is free, and where it lies: apart from nodes `ps`, and its
-- lock apart from the count of Omegus.
pub record IsFree (layout : Layout) (s : Service) (p : Word) (ps : List Word) : Type 0 where
  pub some_node : p ≢ 0
  pub unlocked : lock_of (mem s) p ≡ 0
  pub apart : All (λ q. Apart p 32 q 32) ps
  pub outside : Apart (p + 12) 4 (layout.omegus + 8) 4

-- From `p` on, the indices of next nodes lead over free nodes `ps` to the node `z`.
pub data Walk (layout : Layout) (s : Service) : Word → List Word → Word → Type 0 where
  one : {p : Word} → IsFree layout s p [] → Walk layout s p [] p
  more :
      {p q z : Word} {ps : List Word}
      → IsFree layout s p (q ∷ ps)
      → ltb_ℤ omega_index (next_node (mem s) p) ≡ true
      → get_node layout s (next_node (mem s) p) ≡ q
      → Walk layout s q ps z
      → Walk layout s p (q ∷ ps) z

pub Walk-front :
    {layout : Layout} {s : Service} {p z : Word} {ps : List Word} → Walk layout s p ps z → p ≢ 0
Walk-front (one f) = f.some_node
Walk-front (more f next at walk) = f.some_node

Walk-last :
    {layout : Layout} {s : Service} {p z : Word} {ps : List Word} (P : Word → Type 0)
    → Walk layout s p ps z
    → All P (p ∷ ps)
    → P z
Walk-last P (one f) (h, rest) = h
Walk-last P (more f next at walk) (h, rest) = Walk-last P walk rest

-- What a lock that is taken leaves as it was.
pub next-taken :
    (s : Service) (x p : Word)
    → Apart x 32 p 32
    → next_node (mem (taken s x)) p ≡ next_node (mem s) p
next-taken s x p apart = ap to_int (load32-store32-Apart (mem s) (x + 12) (p + 28) 1 (omega arith))

pub next-taken_self : (s : Service) (p : Word) → next_node (mem (taken s p)) p ≡ next_node (mem s) p
next-taken_self s p = ap to_int (load32-store32-Apart (mem s) (p + 12) (p + 28) 1 (omega arith))

pub lock-taken_other :
    (s : Service) (x p : Word) → Apart x 32 p 32 → lock_of (mem (taken s x)) p ≡ lock_of (mem s) p
lock-taken_other s x p apart = load32-store32-Apart (mem s) (x + 12) (p + 12) 1 (omega arith)

pub get_node-taken :
    (layout : Layout) (s : Service) (x : Word) (i : ℤ)
    → Apart (x + 12) 4 (layout.omegus + 8) 4
    → get_node layout (taken s x) i ≡ get_node layout s i
unfolding get_node
get_node-taken layout s x i apart =
    let e : count_of (mem (taken s x)) layout.omegus ≡ count_of (mem s) layout.omegus =
      load32-store32-Apart (mem s) (x + 12) (layout.omegus + 8) 1 apart in
    rw e refl

IsFree-taken :
    {layout : Layout} {s : Service} {p : Word} {ps : List Word} (x : Word)
    → Apart x 32 p 32
    → IsFree layout s p ps
    → IsFree layout (taken s x) p ps
IsFree-taken {s = s} {p = p} x apart f = record {
  some_node = f.some_node;
  unlocked = lock-taken_other s x p apart ∙ f.unlocked;
  apart = f.apart;
  outside = f.outside;
}

pub Walk-taken :
    {layout : Layout} {s : Service} {p z : Word} {ps : List Word} (x : Word)
    → All (λ q. Apart x 32 q 32) (p ∷ ps)
    → Apart (x + 12) 4 (layout.omegus + 8) 4
    → Walk layout s p ps z
    → Walk layout (taken s x) p ps z
Walk-taken x (apart, rest) out (one f) = one (IsFree-taken x apart f)
Walk-taken {layout} {s = s} x (apart, rest) out (more {p} f next at walk) =
    more (IsFree-taken x apart f) (ap (ltb_ℤ omega_index) (next-taken s x p apart) ∙ next)
      (ap (get_node layout (taken s x)) (next-taken s x p apart)
        ∙ get_node-taken layout s x (next_node (mem s) p) out
        ∙ at)
      (Walk-taken x rest out walk)

-- The rest of a walk behind its first lock, and the next node of its end.
module _ {layout : Layout} {s : Service} {p q z : Word} {ps : List Word}
    (f : IsFree layout s p (q ∷ ps)) (walk : Walk layout s q ps z) where
  pub Walk-rest : Walk layout (taken s p) q ps z
  Walk-rest = Walk-taken p f.apart f.outside walk

  pub next-rest : next_node (mem (taken s p)) z ≡ next_node (mem s) z
  next-rest = next-taken s p z (Walk-last (λ x. Apart p 32 x 32) walk f.apart)

-- Behind the lock of a node that is not the last, the roll goes on with the next node.
pub roll-more :
    (fuel : ℕ) (layout : Layout) (s : Service) (p q : Word) (ps : List Word) (k : ℕ)
    (r : Run (Bool × Service))
    → IsFree layout s p ps
    → ltb_ℤ omega_index (next_node (mem s) p) ≡ true
    → get_node layout s (next_node (mem s) p) ≡ q
    → roll fuel layout (taken s p) q (pos (suc k)) ≡ r
    → roll (suc fuel) layout s p (pos (suc k)) ≡ (r >>= finish p (pos (suc k)))
unfolding roll
roll-more fuel layout s p q ps k r f next at rest =
    let e : get_node layout (taken s p) (next_node (mem (taken s p)) p) ≡ q =
      ap (get_node layout (taken s p)) (next-taken_self s p)
      ∙ get_node-taken layout s p (next_node (mem s) p) f.outside
      ∙ at in
    let up = ap (ltb_ℤ omega_index) (next-taken_self s p) ∙ next in
    rw
      (
        up-not-zero k,
        lock-free s p f.some_node f.unlocked,
        before_next-up (taken s p) p k,
        e,
        up,
        rest,
      )
      refl

-- Where a chain lacks room, its locks are taken; where it has room, its nodes make their last moves
-- from the end to the front.
abbrev pub rolled : Service → Word → List Word → ℕ → Bool × Service
rolled s p ps k =
    if ltb (remaining s.heap) (suc k * barrel_size)
    then (false, take_all s (p ∷ ps))
    else (true, finish_all (take_all s (p ∷ ps)) (p ∷ ps) (pos (suc k)))

finish-rolled :
    (s : Service) (p q : Word) (ps : List Word) (k : ℕ)
    → finish p (pos (suc k)) (rolled (taken s p) q ps k) ≡ done (rolled s p (q ∷ ps) k)
unfolding finish
finish-rolled s p q ps k = elim (Bool-cases (ltb (remaining s.heap) (suc k * barrel_size))) [
  | inl e ↦ rw e refl
  | inr e ↦ rw e refl
]

roll-end :
    (fuel : ℕ) {layout : Layout} {s : Service} {p : Word} (k : ℕ)
    → IsFree layout s p []
    → ltb_ℤ omega_index (next_node (mem s) p) ≡ false
    → roll (suc fuel) layout s p (pos (suc k)) ≡ done (rolled s p [] k)
roll-end fuel {layout} {s} {p} k f end =
    roll-last fuel layout s (taken s p) p k (lock-free s p f.some_node f.unlocked)
      (ap (ltb_ℤ omega_index) (next-taken_self s p) ∙ end)
    ∙ elim (Bool-cases (ltb (remaining s.heap) (suc k * barrel_size))) [
      | inl e ↦ rw e refl
      | inr e ↦ rw e refl
    ]

-- Barrel_Roll of a whole chain of free nodes, for a positive number of barrels, on fuel for every
-- node of it. The nodes lie apart from each other, and their locks apart from the count of Omegus.
-- Where the heap lacks room for the barrels the answer is false, and the locks of all nodes stay
-- taken; else it is true, after the last moves of the nodes from the end of the chain to its front.
pub roll-rolled :
    (fuel : ℕ) {layout : Layout} {s : Service} {p z : Word} {ps : List Word} (k : ℕ)
    → Walk layout s p ps z
    → ltb_ℤ omega_index (next_node (mem s) z) ≡ false
    → length ps < fuel
    → roll fuel layout s p (pos (suc k)) ≡ done (rolled s p ps k)
roll-rolled zero k walk end enough = absurd (omega arith)
roll-rolled (suc fuel) {layout} {s} {p} k (one f) end enough = roll-end fuel k f end
roll-rolled (suc fuel) {layout} {s} {p} k (more {q = q} {ps = ps} f next at walk) end enough =
    roll-more fuel layout s p q (q ∷ ps) k (done (rolled (taken s p) q ps k)) f next at (
      roll-rolled fuel k (Walk-rest f walk) (ap (ltb_ℤ omega_index) (next-rest f walk) ∙ end)
        (omega arith))
    ∙ finish-rolled s p q ps k
