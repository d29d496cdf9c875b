-- ===== src/Barrel/Rolling/Keeps.antt =====
-- Barrel_Roll of a whole chain by one barrel keeps what its nodes hold.
use barrel_test.Barrel.Rolling.Chains.{roll-rolled, Walk, taken, take_all, finish_all}
use barrel_test.Barrel.{done, remaining, next_node, omega_index, Layout, Service, mem, put_mem}
use barrel_test.Barrel.Rolling.{roll, after_next}
use barrel_test.Memory.Words.{byte-store32, Apart, SameAt, load32-SameAt}
use native.Mathlib.Nat.{mod-lt}
use barrel_test.Base.{
  ltb-false, length, All, ℕ, suc, ◌+◌, ◌*◌, ◌%◌, ◌≤◌, ◌<◌, ◌≡◌, refl, ap, ◌∙◌, ◌⊎◌, inl, inr, true,
  false, List, [], ◌∷◌, map, arith,
}
use barrel_test.Base.Int.{pos, ltb_ℤ}
use barrel_test.Helpers.{Word}
use barrel_test.Memory.{Mem, barrel_size}
use barrel_test.Barrel.Rolling.Places.{
  Node, Reads, rolled_node, Clear, Fits, Held, Reads-SameAt, after_next-Held,
}

pub All-map :
    {P Q R : Node → Type 0} (ns : List Node)
    → ((q : Node) → P q → Q q → R q)
    → All P ns
    → All Q ns
    → All R ns
All-map [] f ps qs = tt
All-map (n ∷ ns) f (p, ps) (q, qs) = (f n p q, All-map ns f ps qs)

-- Two nodes of a chain, the second behind the first: its barrels lie behind those of the first, and
-- each node apart from the other and from the other's barrels, with the one behind them.
pub record Before (heap_start : Word) (n q : Node) : Type 0 where
  pub structs : Apart n.ptr 32 q.ptr 32
  pub first_out : Apart n.ptr 32 (heap_start + q.start * 32) ((q.count + 1) * 32)
  pub second_out : Apart q.ptr 32 (heap_start + n.start * 32) ((n.count + 1) * 32)
  pub order : n.start + n.count ≤ q.start

-- The nodes of a chain, of which each fits and lies before those behind it.
abbrev pub Placed : Word → List Node → Type 0
Placed heap_start [] = Unit
Placed heap_start (n ∷ ns) = Fits heap_start n × All (Before heap_start n) ns × Placed heap_start ns

-- What a roll leaves of a node, in memory that keeps the node and its barrels.
pub Held-SameAt :
    (h : Word) (m m' m'' : Mem) (q : Node)
    → SameAt q.ptr 32 m' m''
    → SameAt (h + (q.start + 1) * 32) (q.count * 32) m' m''
    → Held h m m' q
    → Held h m m'' q
Held-SameAt h m m' m'' q node barrels held = record {
  reads = Reads-SameAt held.reads (λ b lo hi. node b (omega arith) (omega arith));
  unlocked =
      load32-SameAt m' m'' (q.ptr + 12) (λ b lo hi. node b (omega arith) (omega arith))
      ∙ held.unlocked;
  bytes = λ x inside.
      let r = (x + (rolled_node q).offset * 32) % (q.count * 32) in
      let lt : r < q.count * 32 = mod-lt _ (omega arith) in
      barrels (h + (q.start + 1) * 32 + r) (omega arith) (omega (arith, lt)) ∙ held.bytes x inside;
}

-- What the roll of a node in front of it leaves of a node.
Held-front :
    (h : Word) (m m' m'' : Mem) (n q : Node)
    → Before h n q
    → ((b : ℕ) → Clear h n b → m'' b ≡ m' b)
    → Held h m m' q
    → Held h m m'' q
Held-front h m m' m'' n q before frame held =
    Held-SameAt h m m' m'' q
      (λ b lo hi. frame b (omega (arith, before.structs), omega (arith, before.second_out)))
      (λ b lo hi. frame b (omega (arith, before.first_out), omega (arith, before.order))) held

-- The bytes of a node are clear of the nodes behind it.
Clear-struct :
    (h : Word) (n q : Node) (b : ℕ) → n.ptr ≤ b → b < n.ptr + 32 → Before h n q → Clear h q b
Clear-struct h n q b lo hi before = (omega (arith, before.structs), omega (arith, before.first_out))

Clear-barrels :
    (h : Word) (n q : Node) (b : ℕ)
    → h + n.start * 32 ≤ b
    → b < h + (n.start + n.count) * 32
    → Before h n q
    → Clear h q b
Clear-barrels h n q b lo hi before = (omega (arith, before.second_out), omega (arith, before.order))

-- The last moves of the nodes of a chain.
finish_all-Held :
    (ns : List Node) (s : Service)
    → All (Reads (mem s)) ns
    → Placed s.heap.heap_start ns
    → (m' : Mem) × (finish_all s (map (λ n. n.ptr) ns) (pos 1) ≡ put_mem s m')
      × ((b : ℕ) → All (λ n. Clear s.heap.heap_start n b) ns → m' b ≡ mem s b)
      × All (Held s.heap.heap_start (mem s) m') ns
finish_all-Held [] s reads placed = (mem s, refl, λ b clear. refl, tt)
finish_all-Held (n ∷ ns) s (read, reads) (fits, before, placed) =
    let h = s.heap.heap_start in
    let (m', is, frame, held) = finish_all-Held ns s reads placed in
    let clear_of : (b : ℕ) → ((q : Node) → Before h n q → Clear h q b) → m' b ≡ mem s b =
      λ b f. frame b (All-map ns (λ q x y. f q x) before before) in
    let read' =
      Reads-SameAt read
        (λ b lo hi. clear_of b (λ q. Clear-struct h n q b (omega arith) (omega arith))) in
    let (m'', is', frame', held') = after_next-Held (put_mem s m') read' fits in
    (
      m'',
      ap (λ s'. after_next s' n.ptr (pos 1)) is ∙ is',
      λ b clear. frame' b clear.0 ∙ frame b clear.1,
      (
        record {
          reads = held'.reads;
          unlocked = held'.unlocked;
          bytes = λ x inside.
              let r = (x + n.offset * 32) % (n.count * 32) in
              let lt : r < n.count * 32 = mod-lt _ (omega arith) in
              held'.bytes x inside
              ∙ clear_of (h + n.start * 32 + r) (λ q.
                Clear-barrels h n q (h + n.start * 32 + r) (omega arith) (omega (arith, lt)));
        },
        All-map ns (λ q x y. Held-front h (mem s) m' m'' n q x frame' y) before held,
      ),
    )

-- A byte of a node behind its lock, or of its barrels.
abbrev Own : Word → Node → ℕ → Type 0
Own h q b =
    ((q.ptr + 16 ≤ b) × (b < q.ptr + 32))
    ⊎ ((h + q.start * 32 ≤ b) × (b < h + (q.start + q.count) * 32))

locks_clear :
    (h : Word) (ns : List Node)
    → Placed h ns
    → All (λ q. (b : ℕ) → Own h q b → All (λ n. Apart (n.ptr + 12) 4 b 1) ns) ns
locks_clear h [] placed = tt
locks_clear h (n ∷ ns) (fits, before, placed) = (
  λ b own. (
    omega (arith, own, fits.own),
    All-map ns (λ q x y. let a = x.structs in let c = x.second_out in omega (arith, own, a, c))
        before before,
  ),
  All-map ns
      (λ q x rest b own.
        (let a = x.structs in let c = x.first_out in omega (arith, own, a, c), rest b own))
      before (locks_clear h ns placed),
)

take_all-mem :
    (ns : List Node) (s : Service)
    → (m' : Mem) × (take_all s (map (λ n. n.ptr) ns) ≡ put_mem s m')
      × ((b : ℕ) → All (λ n. Apart (n.ptr + 12) 4 b 1) ns → m' b ≡ mem s b)
take_all-mem [] s = (mem s, refl, λ b clear. refl)
take_all-mem (n ∷ ns) s =
    let (m', is, frame) = take_all-mem ns (taken s n.ptr) in
    (m', is, λ b clear. frame b clear.1 ∙ byte-store32 (mem s) (n.ptr + 12) 1 b clear.0)

length-map_ptr : (ns : List Node) → length (map (λ n. n.ptr) ns) ≡ length ns
length-map_ptr [] = refl
length-map_ptr (n ∷ ns) = ap suc (length-map_ptr ns)

-- Barrel_Roll of a whole chain of free nodes by one barrel keeps what the chain holds: where the
-- heap has room for a barrel, and the fuel suffices for the nodes, the answer is true, and every
-- node starts one barrel further on, is free again, and holds byte for byte what it held, counted
-- from its offset; no byte outside the nodes and the barrels that they take has changed. The nodes, which a walk finds, have an offset from 1 to their number of barrels,
-- the barrels of each lie behind those of the nodes in front of it, and nodes and barrels lie apart.
pub roll-Held :
    (fuel : ℕ) {layout : Layout} {s : Service} (n : Node) (ns : List Node) {z : Word}
    → Walk layout s n.ptr (map (λ q. q.ptr) ns) z
    → ltb_ℤ omega_index (next_node (mem s) z) ≡ false
    → length ns < fuel
    → barrel_size ≤ remaining s.heap
    → All (Reads (mem s)) (n ∷ ns)
    → Placed s.heap.heap_start (n ∷ ns)
    → (m' : Mem) × (roll fuel layout s n.ptr (pos 1) ≡ done (true, put_mem s m'))
      × All (Held s.heap.heap_start (mem s) m') (n ∷ ns)
      × ((b : ℕ) → All (λ q. Clear s.heap.heap_start q b) (n ∷ ns) → m' b ≡ mem s b)
roll-Held fuel {s = s} n ns walk end enough some_room reads placed =
    let h = s.heap.heap_start in
    let (ml, is, frame) = take_all-mem (n ∷ ns) s in
    let kept : All (λ q. (b : ℕ) → Own h q b → ml b ≡ mem s b) (n ∷ ns) =
      All-map (n ∷ ns) (λ q x y b own. frame b (x b own)) (locks_clear h (n ∷ ns) placed) reads in
    let (m', is', frame', held) =
      finish_all-Held (n ∷ ns) (put_mem s ml)
        (All-map (n ∷ ns)
          (λ q x read. Reads-SameAt read (λ b lo hi. x b (inl (omega arith, omega arith)))) kept
          reads)
        placed in
    (
      m',
      roll-rolled fuel 0 walk end (omega (arith, length-map_ptr ns, enough))
          ∙ rw (ltb-false _ _ some_room) (
              ap (λ s'. done (true, finish_all s' (map (λ q. q.ptr) (n ∷ ns)) (pos 1))) is
              ∙ ap (λ s'. done (true, s')) is'),
      All-map (n ∷ ns)
          (λ q x y. record {
            reads = y.reads;
            unlocked = y.unlocked;
            bytes = λ a inside.
                let r = (a + q.offset * 32) % (q.count * 32) in
                let lt : r < q.count * 32 = mod-lt _ (omega arith) in
                y.bytes a inside ∙ x (h + q.start * 32 + r) (inr (omega arith, omega (arith, lt)));
          })
          kept held,
      λ b clear.
          frame' b clear
          ∙ frame b (All-map (n ∷ ns) (λ q x y. let a = x.0 in omega arith) clear clear),
    )
