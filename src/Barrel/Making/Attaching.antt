-- ===== src/Barrel/Making/Attaching.antt =====
-- Barrel_Sourced behind the choice of an index: a new node at the end of the chain of nodes.
use barrel_test.Barrel.Making.Filling.{
  in_units, CanMake, made, made-fields, made-frame, node_ctor-total, units-made,
}
use barrel_test.Base.{
  ==_false, ℕ, suc, ◌+◌, ◌*◌, ◌%◌, ◌^◌, ◌≤◌, ◌<◌, ◌≡◌, refl, ap, ◌∙◌, ◌≢◌, arith,
}
use barrel_test.Base.Int.{ℤ, pos, u32_mod, wrap_word, to_int}
use barrel_test.Base.Run.{done}
use barrel_test.Enums.{mem_flag_code, managed}
use barrel_test.Helpers.{Word}
use barrel_test.Memory.{Mem}
use barrel_test.Memory.Words.{
  Apart, load32, store32, byte-store32, load32-SameAt, load32-store32, load32-store32-Apart,
}
use barrel_test.TypeInfo.{Layout, TypeInfo}
use barrel_test.Heap.{remaining}
use barrel_test.Bucket.{or_flag}
use barrel_test.Collection.{count_of}
use barrel_test.Barrel.{
  Service, mem, put_mem, barrel_count, barrel_start, next_node, set_next_node, get_node,
  get_unit_ptr, set_last_physical_node,
}
use barrel_test.Barrel.Making.{attach}

-- The state in which the node is made: the last node leads to it, and Omegus has one node more.
abbrev pub linked : Layout → Service → ℤ → Word → Service
linked layout s ix last =
    let s1 = put_mem s (set_next_node (mem s) last ix) in
    put_mem s1
      (store32 (mem s1) (layout.omegus + 8) ((count_of (mem s1) layout.omegus + 1) % u32_mod))

-- The barrel behind the last one of a node.
abbrev pub end_barrel : Service → Word → ℕ
end_barrel s last = (barrel_start (mem s) last + barrel_count (mem s) last) % u32_mod

abbrev pub new_node : Layout → Service → ℤ → Word → Word
new_node layout s ix last = get_node layout (linked layout s ix last) ix

module _ (layout : Layout) (s : Service) (last : Word) (m : ℕ)
    (apart : Apart (layout.omegus + 8) 4 (last + 16) 16) where
  abbrev next_mem : Mem
  next_mem = set_next_node (mem s) last (pos m)

  linked-word :
      (d : ℕ)
      → d ≤ 8
      → load32 (mem (linked layout s (pos m) last)) (last + 16 + d) ≡ load32 (mem s) (last + 16 + d)
  linked-word d le =
      load32-store32-Apart next_mem (layout.omegus + 8) (last + 16 + d)
        ((count_of next_mem layout.omegus + 1) % u32_mod) (omega arith)
      ∙ load32-store32-Apart (mem s) (last + 28) (last + 16 + d) (wrap_word u32_mod (pos m))
          (omega arith)

  linked-end : end_barrel (linked layout s (pos m) last) last ≡ end_barrel s last
  linked-end =
      let start : barrel_start (mem (linked layout s (pos m) last)) last
          ≡ barrel_start (mem s) last =
        ap (load32 (mem (linked layout s (pos m) last))) (omega arith)
        ∙ linked-word 8 (omega arith)
        ∙ ap (load32 (mem s)) (omega arith) in
      let count : barrel_count (mem (linked layout s (pos m) last)) last
          ≡ barrel_count (mem s) last =
        ap (load32 (mem (linked layout s (pos m) last))) (omega arith)
        ∙ linked-word 0 (omega arith)
        ∙ ap (load32 (mem s)) (omega arith) in
      omega (arith, start, count)

  linked-byte :
      (b : ℕ)
      → Apart (last + 28) 4 b 1
      → Apart (layout.omegus + 8) 4 b 1
      → mem (linked layout s (pos m) last) b ≡ mem s b
  linked-byte b last_out omegus_out =
      byte-store32 next_mem (layout.omegus + 8) ((count_of next_mem layout.omegus + 1) % u32_mod) b
        omegus_out
      ∙ byte-store32 (mem s) (last + 28) (wrap_word u32_mod (pos m)) b last_out

  linked-next : m < 2 ^ 31 → next_node (mem (linked layout s (pos m) last)) last ≡ pos m
  linked-next small =
      ap to_int (
        load32-store32-Apart next_mem (layout.omegus + 8) (last + 28)
          ((count_of next_mem layout.omegus + 1) % u32_mod) (omega arith)
        ∙ load32-store32 (mem s) (last + 28) (wrap_word u32_mod (pos m)) (omega arith))
      ∙ ground arith

  linked-count :
      count_of (mem s) layout.omegus + 1 < u32_mod
      → count_of (mem (linked layout s (pos m) last)) layout.omegus
        ≡ count_of (mem s) layout.omegus + 1
  linked-count small =
      let old : count_of next_mem layout.omegus ≡ count_of (mem s) layout.omegus =
        load32-store32-Apart (mem s) (last + 28) (layout.omegus + 8) (wrap_word u32_mod (pos m))
          (omega arith) in
      load32-store32 next_mem (layout.omegus + 8) ((count_of next_mem layout.omegus + 1) % u32_mod)
        (omega arith)
      ∙ omega (arith, old, small)

-- A call that can append the node of index `m`: the index gives a node, and the node can be made
-- once the last node leads to it; the words that the call changes, the last node's next index and
-- the count of Omegus, lie apart from each other, from the last node's other fields, from the new
-- node, from its new units and from the caller's array.
pub record CanAttach (layout : Layout) (s : Service) (t : TypeInfo) (type src last : Word)
    (flags cap i m : ℕ) : Type 0 where
  pub some_node : new_node layout s (pos m) last ≢ 0
  pub can :
      CanMake
        (linked layout s (pos m) last)
        t
        type
        (new_node layout s (pos m) last)
        src
        (or_flag flags (mem_flag_code managed))
        cap
        (end_barrel (linked layout s (pos m) last) last)
        i
  pub apart : Apart (layout.omegus + 8) 4 (last + 16) 16
  pub last_out : Apart (last + 28) 4 (new_node layout s (pos m) last) 32
  pub last_units :
      Apart
        (last + 28)
        4
        (s.heap.heap_start + end_barrel (linked layout s (pos m) last) last * 32)
        (cap * t.size)
  pub last_source : Apart (last + 28) 4 src (cap * t.size)
  pub omegus_out : Apart (layout.omegus + 8) 4 (new_node layout s (pos m) last) 32
  pub omegus_units :
      Apart
        (layout.omegus + 8)
        4
        (s.heap.heap_start + end_barrel (linked layout s (pos m) last) last * 32)
        (cap * t.size)
  pub omegus_source : Apart (layout.omegus + 8) 4 src (cap * t.size)
  pub few_nodes : count_of (mem s) layout.omegus + 1 < u32_mod
  pub small : m < 2 ^ 31

-- Barrel_Sourced, with the index `m` for the new node, appends a node to the chain: the node starts
-- at the barrel behind those of the last node, which then leads to it, and becomes the last node
-- itself; Omegus counts one node more, and Barrel_GetUnitPtr finds in the new node each unit of the
-- caller's array. The call can append the node, and the fuel has a round for each byte left on the
-- heap.
pub attach-get_unit_ptr :
    (layout : Layout) (s : Service) (last : Word) (flags m : ℕ) {t : TypeInfo} {type src : Word}
    {cap i : ℕ} (fuel : ℕ)
    → CanAttach layout s t type src last flags cap i m
    → remaining s.heap ≤ fuel
    → (s' : Service) × (attach (suc fuel) layout s type src flags cap (pos m) last
        ≡ done (new_node layout s (pos m) last, s'))
      × (s'.last_physical ≡ pos m)
      × (next_node (mem s') last ≡ pos m)
      × (barrel_start (mem s') (new_node layout s (pos m) last) ≡ end_barrel s last)
      × (count_of (mem s') layout.omegus ≡ count_of (mem s) layout.omegus + 1)
      × ((j k : ℕ)
          → j < cap
          → k < t.size
          → (q : Word) × (get_unit_ptr s' (new_node layout s (pos m) last) j ≡ done q)
            × (mem s' (q + k) ≡ mem s (src + j * t.size + k)))
unfolding attach set_last_physical_node get_unit_ptr
attach-get_unit_ptr layout s last flags m {t} {src = src} {cap = n_units} fuel c bound =
    let (n, enough, few, is) = node_ctor-total c.can fuel bound in
    let fields = made-fields c.can n enough few in
    let s2 = linked layout s (pos m) last in
    let s3 = made c.can n enough few in
    (
      set_last_physical_node s3 (pos m),
      rw (==_false (new_node layout s (pos m) last) 0 c.some_node, is) refl,
      refl,
      ap to_int (
            load32-SameAt (mem s2) (mem s3) (last + 28) (λ b lo hi.
              made-frame c.can n enough few b (let a = c.last_out in omega arith)
                (let a = c.last_units in omega arith)))
          ∙ linked-next layout s last m c.apart c.small,
      fields.0 ∙ linked-end layout s last m c.apart,
      load32-SameAt (mem s2) (mem s3) (layout.omegus + 8) (λ b lo hi.
            made-frame c.can n enough few b (let a = c.omegus_out in omega arith)
              (let a = c.omegus_units in omega arith))
          ∙ linked-count layout s last m c.apart c.few_nodes,
      λ j k lt low.
          let (q, at, same) = units-made c.can n enough few j k lt low in
          let inside = in_units j n_units t.size k lt low in
          (
            q,
            at,
            same
                ∙ linked-byte layout s last m c.apart (src + j * t.size + k)
                    (let a = c.last_source in omega arith) (let a = c.omegus_source in omega arith),
          ),
    )
