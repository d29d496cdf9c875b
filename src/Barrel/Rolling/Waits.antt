-- ===== src/Barrel/Rolling/Waits.antt =====
-- Where Barrel_Roll waits for ever: behind a roll that failed, and on a chain that closes.
use barrel_test.Barrel.Rolling.Chains.{
  more, one, Walk, Walk-front, Walk-rest, next-rest, get_node-taken, lock-taken_other, taken,
  take_all, roll-rolled, roll-more,
}
use barrel_test.Base.{
  lt→ltb, length, get_elem?, All, ℕ, zero, suc, ◌+◌, ◌*◌, ◌<◌, ◌≡◌, refl, ap, ◌∙◌, subst, ◌≢◌, true,
  false, some, List, [], ◌∷◌, arith,
}
use barrel_test.Base.Int.{ℤ, pos, ltb_ℤ, eqb_ℤ}
use mathlib.Core.Option.{none-ne-some, some-injective}
use barrel_test.Base.Run.{done, spins}
use barrel_test.Helpers.{Word}
use barrel_test.Memory.{barrel_size}
use barrel_test.Memory.Words.{Apart, load32-store32}
use barrel_test.TypeInfo.{Layout}
use barrel_test.Heap.{remaining}
use barrel_test.Collection.{lock_of}
use barrel_test.Barrel.{Service, mem, next_node, get_node, omega_index}
use barrel_test.Barrel.Rolling.{roll}
use barrel_test.Barrel.Rolling.Branches.{lock-taken, roll-spins, up-not-zero}

-- A lock that is taken stays so while the locks of other nodes are taken.
take_all-keeps :
    (s : Service) (x : Word) (ps : List Word)
    → All (λ q. Apart x 32 q 32) ps
    → lock_of (mem s) x ≡ 1
    → lock_of (mem (take_all s ps)) x ≡ 1
take_all-keeps s x [] apart one_now = one_now
take_all-keeps s x (p ∷ ps) (apart, rest) one_now =
    take_all-keeps (taken s p) x ps rest (lock-taken_other s p x (omega arith) ∙ one_now)

take_all-locked :
    (ps : List Word) {layout : Layout} {s : Service} {p z : Word}
    → Walk layout s p ps z
    → All (λ q. lock_of (mem (take_all s (p ∷ ps))) q ≡ 1) (p ∷ ps)
take_all-locked [] {s = s} {p = p} (one f) = (load32-store32 (mem s) (p + 12) 1 (omega arith), tt)
take_all-locked (q ∷ ps) {s = s} {p = p} (more f next at walk) = (
  take_all-keeps (taken s p) p (q ∷ ps) f.apart (load32-store32 (mem s) (p + 12) 1 (omega arith)),
  take_all-locked ps (Walk-rest f walk),
)

-- Where the heap lacks room for the barrels, Barrel_Roll of a whole chain of free nodes, on fuel
-- for every node of it, answers false and leaves the lock of every node of the chain taken, and
-- every later roll of its first node, by a number other than 0, waits for ever. The nodes lie
-- apart, and their locks apart from the count of Omegus.
pub roll-leaks_chain :
    (fuel fuel' : ℕ) {layout : Layout} {s : Service} {p z : Word} {ps : List Word} (k : ℕ)
    (delta' : ℤ)
    → Walk layout s p ps z
    → ltb_ℤ omega_index (next_node (mem s) z) ≡ false
    → length ps < fuel
    → remaining s.heap < suc k * barrel_size
    → eqb_ℤ delta' (pos 0) ≡ false
    → (s' : Service) × (roll fuel layout s p (pos (suc k)) ≡ done (false, s'))
      × All (λ q. lock_of (mem s') q ≡ 1) (p ∷ ps)
      × (roll (suc fuel') layout s' p delta' ≡ spins)
roll-leaks_chain fuel fuel' {layout} {s} {p} {ps = ps} k delta' walk end enough full other =
    let all = take_all-locked ps walk in
    let s' = take_all s (p ∷ ps) in
    let taken_now : lock_of (mem s') p ≡ 1 = all.0 in
    (
      s',
      roll-rolled fuel k walk end enough ∙ rw (lt→ltb _ _ full) refl,
      all,
      roll-spins fuel' layout s' p delta'
          (lock-taken s' p (Walk-front walk) (omega (arith, taken_now))) other,
    )

roll-held :
    (fuel : ℕ) (layout : Layout) (s : Service) (x : Word) (k : ℕ)
    → x ≢ 0
    → lock_of (mem s) x ≢ 0
    → roll (suc fuel) layout s x (pos (suc k)) ≡ spins
roll-held fuel layout s x k ne held =
    roll-spins fuel layout s x (pos (suc k)) (lock-taken s x ne held) (up-not-zero k)

-- A walk that leads to a node whose lock is then taken.
roll-waits :
    (fuel : ℕ) {layout : Layout} {s : Service} {p z : Word} {ps : List Word} (x : Word) (k : ℕ)
    → Walk layout s p ps z
    → ltb_ℤ omega_index (next_node (mem s) z) ≡ true
    → get_node layout s (next_node (mem s) z) ≡ x
    → x ≢ 0
    → lock_of (mem (take_all s (p ∷ ps))) x ≢ 0
    → suc (length ps) < fuel
    → roll fuel layout s p (pos (suc k)) ≡ spins
roll-waits zero x k walk next at ne held enough = absurd (omega (arith, enough))
roll-waits (suc zero) x k walk next at ne held enough = absurd (omega (arith, enough))
roll-waits (suc (suc fuel)) {layout} {s} {p} x k (one f) next at ne held enough =
    roll-more (suc fuel) layout s p x [] k spins f next at
      (roll-held fuel layout (taken s p) x k ne held)
roll-waits (suc (suc fuel)) {layout} {s} {p} {z} x k (more {q = q} {ps = ps} f next' at' walk) next
      at ne held enough =
    let same = next-rest f walk in
    let at_rest : get_node layout (taken s p) (next_node (mem (taken s p)) z) ≡ x =
      ap (get_node layout (taken s p)) same
      ∙ get_node-taken layout s p (next_node (mem s) z) f.outside
      ∙ at in
    roll-more (suc fuel) layout s p q (q ∷ ps) k spins f next' at' (
      roll-waits (suc fuel) x k (Walk-rest f walk) (ap (ltb_ℤ omega_index) same ∙ next) at_rest ne
        held (omega (arith, enough)))

All-get :
    (P : Word → Type 0) (xs : List Word) (i : ℕ) (x : Word)
    → get_elem? xs i ≡ some x
    → All P xs
    → P x
All-get P [] i x e all = absurd (none-ne-some x e)
All-get P (y ∷ xs) zero x e (h, rest) = subst P (some-injective y x e) h
All-get P (y ∷ xs) (suc i) x e (h, rest) = All-get P xs i x e rest

Walk-nodes :
    (ps : List Word) {layout : Layout} {s : Service} {p z : Word}
    → Walk layout s p ps z
    → All (λ q. q ≢ 0) (p ∷ ps)
Walk-nodes [] (one f) = (f.some_node, tt)
Walk-nodes (q ∷ ps) (more f next at walk) = (f.some_node, Walk-nodes ps walk)

-- Barrel_Roll on a chain that closes, for a positive number of barrels, waits for ever: the next
-- node of the last of a walk over free nodes, which lie apart from each other and whose locks lie
-- apart from the count of Omegus, is a node of the walk.
-- The fuel allows two calls more than the walk has nodes behind its first, so that the wait is no
-- want of fuel.
pub roll-cycle :
    (fuel : ℕ) {layout : Layout} {s : Service} {p z : Word} {ps : List Word} (i k : ℕ) (x : Word)
    → Walk layout s p ps z
    → ltb_ℤ omega_index (next_node (mem s) z) ≡ true
    → get_node layout s (next_node (mem s) z) ≡ x
    → get_elem? (p ∷ ps) i ≡ some x
    → suc (length ps) < fuel
    → roll fuel layout s p (pos (suc k)) ≡ spins
roll-cycle fuel {layout} {s} {p} {ps = ps} i k x walk next at member enough =
    let held =
      All-get (λ q. lock_of (mem (take_all s (p ∷ ps))) q ≡ 1) (p ∷ ps) i x member
        (take_all-locked ps walk) in
    roll-waits fuel x k walk next at (All-get (λ q. q ≢ 0) (p ∷ ps) i x member (Walk-nodes ps walk))
      (omega (arith, held)) enough
