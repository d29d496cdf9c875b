-- ===== src/Barrel/Making/Filling.antt =====
-- Barrel_NodeCtor of a node with units from an array of the caller.
use native.Mathlib.Decide.{dec_lt}
use native.Mathlib.Nat.{mod-eq_of_lt, add-mod_right, mul-div_cancel_left}
use barrel_test.Base.{
  ltb, leb, if◌then◌else◌, Bool-cases, ==_false, ℕ, suc, ◌+◌, ◌*◌, ◌/◌, ◌%◌, ◌^◌, ◌≤◌, ◌<◌, ◌≡◌,
  refl, ap, ◌∙◌, ◌≢◌, ◌⊎◌, inl, inr, false, Option, none, some, arith,
}
use barrel_test.Base.Int.{u32_mod, u64_mod, to_int, mul64}
use barrel_test.Base.Run.{done}
use barrel_test.Enums.{mem_flag_code, empty}
use barrel_test.Helpers.{Word}
use barrel_test.Memory.{Mem, barrel_size}
use barrel_test.Memory.Copy.{blit, Movable}
use barrel_test.Memory.Words.{Apart, SameAt, load64, load32, load32-SameAt, load64-SameAt}
use barrel_test.TypeInfo.{test_type_bin_count, TypeInfo}
use barrel_test.Heap.{remaining}
use barrel_test.Bucket.{created_flags}
use barrel_test.Collection.{
  World, CollectionExtensions, barrel_extensions_ptr, entry_ptr, deref, has_flag, get_extensions,
  answer_extensions, extensions_create, extensions_at, unit_size, type_at, lock_of, set_mem,
}
use barrel_test.Collection.Registry.{IsValid, get_extensions_twice}
use barrel_test.Barrel.{
  Service, mem, put_mem, barrel_count, barrel_start, barrel_offset, next_node, none_index,
  get_unit_ptr, get_barrel_ptr,
}
use barrel_test.Barrel.Moves.Effects.{byte-blit, barrel_ptr}
use barrel_test.Barrel.Moves.Units.{unit_ptr_at, blit-in}
use barrel_test.Barrel.Making.{node_ctor, store_node, double_loop, copy_loop}
use barrel_test.Barrel.Making.Doubling.{Enough, double_loop_total}
use barrel_test.Barrel.Making.Fields.{
  start-store_node, count-store_node, offset-store_node, next-store_node, lock-store_node,
  extensions-store_node, byte-store_node, copy_loop-blit,
}

-- The lookup of extensions leaves the bins as they are.
answer-bins :
    (w : World) (asked : CollectionExtensions) (o : Option ℕ)
    → (answer_extensions w asked o).1.bins ≡ w.bins
unfolding answer_extensions
answer-bins w asked (some i) = refl
answer-bins w asked none = elim (Bool-cases (leb test_type_bin_count w.extension_count)) [
  | inl e ↦ rw e refl
  | inr e ↦ rw e refl
]

pub in_units : (j cap size k : ℕ) → j < cap → k < size → j * size + k < cap * size
in_units j cap size k lt low = grind arith

-- The doubling loop stops at no more than twice the barrels needed.
few_barrels :
    (n needed left : ℕ)
    → needed ≤ 2 ^ 34
    → (n ≡ 1) ⊎ ((x : ℕ) × (n ≡ x * 2) × ¬ Enough x needed left)
    → n ≤ 2 ^ 30
few_barrels n needed left small least = elim least [
  | inl one ↦ omega arith
  | inr (x, e, more) ↦ elim (dec_lt (x * barrel_size) needed) [
    | yes lt ↦ omega arith
    | no ge ↦ absurd (more (inl (omega arith)))
  ]
]

-- A call of Barrel_NodeCtor for `cap` units of type `t` from the array at `src`, not under EMPTY:
-- the type is at `type`, entry `i` of the registry of extensions is found or made, the units fit on
-- the heap and take at most 2 ^ 34 bytes, and the node at `loc`, the array and the units' place in
-- the barrels lie in memory below 2 ^ 64, the node apart from both others.
pub record CanMake (s : Service) (t : TypeInfo) (type loc src : Word) (flags cap start i : ℕ)
    : Type 0 where
  pub typed : deref s.world.bins.types type ≡ done t
  pub some_size : 0 < t.size
  pub filled : has_flag flags (mem_flag_code empty) ≡ false
  pub valid : IsValid s.world
  pub slot : i < 32
  pub known :
      (get_extensions s.world type barrel_extensions_ptr (created_flags flags)).0
      ≡ entry_ptr (some i)
  pub some_source : src ≢ 0
  pub few : cap < u32_mod
  pub fits : t.size * cap ≤ remaining s.heap
  pub small : t.size * cap ≤ 2 ^ 34
  pub early : start < 2 ^ 31
  pub low : s.heap.heap_start < 2 ^ 63
  pub node_out : Apart loc 32 (s.heap.heap_start + start * 32) (cap * t.size)
  pub source_out : Apart loc 32 src (cap * t.size)
  pub order : Movable (s.heap.heap_start + start * 32) src (cap * t.size)

module _ {s : Service} {t : TypeInfo} {type loc src : Word} {flags cap start i : ℕ}
    (can : CanMake s t type loc src flags cap start i) (n : ℕ) (enough : t.size * cap ≤ n * 32)
    (few : n ≤ 2 ^ 30) where
  abbrev pub world : World
  world = (get_extensions s.world type barrel_extensions_ptr (created_flags flags)).1

  abbrev pub first : Word
  first = s.heap.heap_start + start * 32

  abbrev pub stored : Mem
  stored = store_node world.bins.mem loc start n (suc i) cap

  abbrev pub made : Service
  made = put_mem (record s { world = world }) (blit stored first src (cap * t.size))

  bins-world : world.bins ≡ s.world.bins
  unfolding get_extensions
  bins-world = answer-bins s.world _ _

  exact : mul64 t.size cap ≡ t.size * cap
  exact = omega (arith, can.small)

  capacity_lem :
      (if ltb (mul64 t.size cap) (n * barrel_size) then mul64 t.size cap else n * barrel_size)
        / t.size
      ≡ cap
  capacity_lem =
      ap (λ x. x / t.size)
        (let e : (if ltb (mul64 t.size cap) (n * barrel_size)
                then mul64 t.size cap
                else n * barrel_size)
              ≡ t.size * cap =
            ground (arith, exact) in
          e)
      ∙ mul-div_cancel_left cap can.some_size

  pub node_ctor-made :
      (fuel : ℕ)
      → double_loop fuel 1 (mul64 t.size cap) (remaining s.heap) ≡ some n
      → node_ctor fuel s type loc src flags cap start ≡ done made
  unfolding node_ctor
  node_ctor-made fuel found =
      let small_cap : cap % u32_mod ≡ cap = mod-eq_of_lt can.few in
      let s' = record s { world = set_mem world stored } in
      let at : get_barrel_ptr s' start ≡ first =
        barrel_ptr s' start (omega (arith, can.early, can.low)) in
      rw
        (
          can.typed,
          found,
          ==_false t.size 0 (let p = can.some_size in omega arith),
          capacity_lem,
          small_cap,
          can.filled,
          can.known,
          ==_false src 0 can.some_source,
        )
        (ap (λ g. done (put_mem (record s { world = world }) g))
          (ap (λ a. copy_loop cap 0 stored a src t.size) at
            ∙ copy_loop-blit stored first src t.size can.some_source cap can.order))

  made-SameAt : SameAt loc 32 stored (mem made)
  made-SameAt b lo hi =
      byte-blit stored first src (cap * t.size) b (let a = can.node_out in omega arith)

  small_start : start < u32_mod
  small_start = omega (arith, can.early)

  pub small_n : n < u32_mod
  small_n = omega (arith, few)

  small_ext : suc i < u64_mod
  small_ext = omega (arith, can.slot)

  pub made-fields :
      (barrel_start (mem made) loc ≡ start)
      × (barrel_count (mem made) loc ≡ n)
      × (barrel_offset (mem made) loc ≡ n)
      × (next_node (mem made) loc ≡ none_index)
      × (lock_of (mem made) loc ≡ 0)
  made-fields =
      let word : (d : ℕ) → d ≤ 28 → load32 (mem made) (loc + d) ≡ load32 stored (loc + d) = λ d le.
        load32-SameAt stored (mem made) (loc + d)
          (λ b lo hi. made-SameAt b (omega arith) (omega arith)) in
      let m = world.bins.mem in
      (
        word 24 (omega arith)
            ∙ start-store_node m loc start n (suc i) cap small_start small_n small_ext,
        word 16 (omega arith)
            ∙ count-store_node m loc start n (suc i) cap small_start small_n small_ext,
        word 20 (omega arith)
            ∙ offset-store_node m loc start n (suc i) cap small_start small_n small_ext,
        ap to_int (word 28 (omega arith))
            ∙ next-store_node m loc start n (suc i) cap small_start small_n small_ext,
        word 12 (omega arith)
            ∙ lock-store_node m loc start n (suc i) cap small_start small_n small_ext,
      )

  pub made-byte : (j : ℕ) → j < cap * t.size → mem made (first + j) ≡ mem s (src + j)
  made-byte j lt =
      blit-in stored first src (cap * t.size) j lt
      ∙ byte-store_node world.bins.mem loc start n (suc i) cap small_start small_n small_ext
          (src + j) (let a = can.source_out in omega arith)
      ∙ ap (λ b. b.mem (src + j)) bins-world

  pub made-frame :
      (b : ℕ) → Apart loc 32 b 1 → Apart first (cap * t.size) b 1 → mem made b ≡ mem s b
  made-frame b node barrels =
      byte-blit stored first src (cap * t.size) b barrels
      ∙ byte-store_node world.bins.mem loc start n (suc i) cap small_start small_n small_ext b node
      ∙ ap (λ c. c.mem b) bins-world

  -- The extensions that the node asked for.
  abbrev pub asked : CollectionExtensions
  asked = record { type = type; methods = barrel_extensions_ptr; mem_flags = created_flags flags }

  pub extensions-made : extensions_at made.world loc ≡ done asked
  unfolding extensions_at extensions_create
  extensions-made =
      let ext : load64 (mem made) loc ≡ suc i =
        load64-SameAt stored (mem made) loc (λ b lo hi. made-SameAt b lo (omega arith))
        ∙ extensions-store_node world.bins.mem loc start n (suc i) cap small_start small_n
            small_ext in
      let entry =
        get_extensions_twice type barrel_extensions_ptr (created_flags flags) can.valid i
          can.known in
      rw (ext, entry.0) refl

  pub type-made : deref made.world.bins.types type ≡ done t
  type-made = rw bins-world can.typed

  unit_size-made : unit_size made.world loc ≡ done t.size
  unfolding unit_size type_at
  unit_size-made = rw (extensions-made, type-made) refl

  get_unit_ptr-made : (j : ℕ) → j < cap → get_unit_ptr made loc j ≡ done (first + j * t.size)
  get_unit_ptr-made j lt =
      let (start_now, count_now, offset_now, next_now, lock_now) = made-fields in
      let inside : j * t.size < n * 32 =
        let a = in_units j cap t.size 0 lt can.some_size in
        let swap : t.size * cap ≡ cap * t.size = grind arith in omega (arith, a, swap, enough) in
      unit_ptr_at made loc j t.size start n n unit_size-made start_now count_now offset_now inside
        (omega arith) small_n (omega (arith, can.early, can.low, few))
      ∙ ap (λ x. done (first + x)) (add-mod_right (j * t.size) (n * 32) ∙ mod-eq_of_lt inside)

module _ {s : Service} {t : TypeInfo} {type loc src : Word} {flags cap start i : ℕ}
    (can : CanMake s t type loc src flags cap start i) where
  -- The call returns, with enough barrels.
  pub node_ctor-total :
      (fuel : ℕ)
      → remaining s.heap ≤ fuel
      → (n : ℕ) × (enough : t.size * cap ≤ n * 32) × (few : n ≤ 2 ^ 30) × (node_ctor
            (suc fuel)
            s
            type
            loc
            src
            flags
            cap
            start
          ≡ done (made can n enough few))
  node_ctor-total fuel bound =
      let needed : mul64 t.size cap ≡ t.size * cap = omega (arith, can.small) in
      let (n, found, stops, least) =
        double_loop_total fuel 1 (mul64 t.size cap) (remaining s.heap) (omega arith)
          (omega (arith, bound)) in
      let enough : t.size * cap ≤ n * 32 = omega (arith, needed, stops, can.fits) in
      let few =
        few_barrels n (mul64 t.size cap) (remaining s.heap) (omega (arith, needed, can.small))
          least in
      (n, enough, few, node_ctor-made can n enough few (suc fuel) found)

  -- The units of the array, where Barrel_GetUnitPtr finds them.
  pub units-made :
      (n : ℕ) (enough : t.size * cap ≤ n * 32) (few : n ≤ 2 ^ 30) (j k : ℕ)
      → j < cap
      → k < t.size
      → (q : Word) × (get_unit_ptr (made can n enough few) loc j ≡ done q)
        × (mem (made can n enough few) (q + k) ≡ mem s (src + j * t.size + k))
  units-made n enough few j k lt low = (
    s.heap.heap_start + start * 32 + j * t.size,
    get_unit_ptr-made can n enough few j lt,
    ap (mem (made can n enough few)) (omega arith)
        ∙ made-byte can n enough few (j * t.size + k) (in_units j cap t.size k lt low)
        ∙ ap (mem s) (omega arith),
  )

  -- Barrel_NodeCtor makes a node whose units are those of the caller's array. With a round of its
  -- doubling loop for each byte left on the heap it returns: the node starts at the barrel asked
  -- for, with barrels for all units, an offset of as many, a free lock and no next node, and
  -- Barrel_GetUnitPtr finds in it each unit of the array. The call can make the node.
  pub node_ctor-get_unit_ptr :
      (fuel : ℕ)
      → remaining s.heap ≤ fuel
      → (n : ℕ) × (s' : Service) × (node_ctor (suc fuel) s type loc src flags cap start ≡ done s')
        × (t.size * cap ≤ n * barrel_size)
        × ((barrel_start (mem s') loc ≡ start)
            × (barrel_count (mem s') loc ≡ n)
            × (barrel_offset (mem s') loc ≡ n)
            × (next_node (mem s') loc ≡ none_index)
            × (lock_of (mem s') loc ≡ 0))
        × ((j k : ℕ)
            → j < cap
            → k < t.size
            → (q : Word) × (get_unit_ptr s' loc j ≡ done q)
              × (mem s' (q + k) ≡ mem s (src + j * t.size + k)))
  node_ctor-get_unit_ptr fuel bound =
      let (n, enough, few, is) = node_ctor-total fuel bound in
      (
        n,
        made can n enough few,
        is,
        enough,
        made-fields can n enough few,
        λ j k lt low. units-made n enough few j k lt low,
      )
