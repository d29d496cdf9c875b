-- ===== src/User/Nodes.antt =====
-- A barrel node as a collection that answers chunk requests: by all of its barrels, and by an
-- offset that is the size of this memory (Barrel_Manage, Barrel_GetChunk).
use native.Mathlib.Nat.{mod-eq_of_lt, div-add-mod', mul-add-mod_self_right}
use barrel_test.Base.{
  ==_false, ℕ, ◌+◌, ◌*◌, ◌/◌, ◌%◌, ◌≤◌, ◌<◌, ◌≡◌, refl, ap, ◌∙◌, ◌≢◌, inr, arith,
}
use barrel_test.Base.Int.{u32_mod, u64_mod, add64, mul64}
use barrel_test.Base.Run.{done}
use barrel_test.Helpers.{Word}
use barrel_test.Memory.{Mem, barrel_size}
use barrel_test.Memory.Words.{SameAt, load32-SameAt, load64-SameAt}
use barrel_test.TypeInfo.{Layout, TypeInfo}
use barrel_test.Chunk
use barrel_test.Chunk.{Chunk, read-ctor}
use barrel_test.Collection.{
  CollectionExtensions, barrel_extensions_ptr, extensions_at, unit_size, deref, type_at,
}
use barrel_test.Barrel.{
  Service, mem, put_mem, barrel_count, barrel_start, get_head, get_size, get_unit_ptr,
  barrel_offset,
}
use barrel_test.Barrel.Methods
use barrel_test.User.{request_chunk, call_methods}
use barrel_test.User.Chunks.{ChunkAt, extensions-SameAt}

-- At `p` is a barrel node whose type is in the registry.
pub record NodeAt (s : Service) (p : Word) (e : CollectionExtensions) (t : TypeInfo) : Type 0 where
  pub some_node : p ≢ 0
  pub extensions : extensions_at s.world p ≡ done e
  pub methods : e.methods ≡ barrel_extensions_ptr
  pub type : deref s.world.bins.types e.type ≡ done t
  pub small : barrel_count (mem s) p < u32_mod

-- All the barrels of the node.
abbrev pub node_chunk : Service → Word → Chunk
node_chunk s p = record { head = get_head s p; size = get_size s p }

-- A number of barrels that is a multiple of the node's is a number of full turns.
turn_mod : (a off count : ℕ) → off % count ≡ 0 → a < count * 32 → (a + off * 32) % (count * 32) ≡ a
turn_mod a off count turn lt =
    let q = off / count in
    let e : q * count + off % count ≡ off = div-add-mod' off count in
    let e' : q * count ≡ off = omega (arith, e, turn) in
    let sum : a + off * 32 ≡ q * (count * 32) + a = grind arith in
    ap (λ x. x % (count * 32)) sum ∙ mul-add-mod_self_right q (count * 32) a ∙ mod-eq_of_lt lt

module _ {s : Service} {p : Word} {e : CollectionExtensions} {t : TypeInfo}
    (b : NodeAt s p e t) where
  small_size : get_size s p + get_size s p ≤ u64_mod
  unfolding get_size
  small_size = omega (arith, b.small)

  request_chunk-node :
      (fuel : ℕ) (layout : Layout) (m : Mem)
      → SameAt p 8 (mem s) m
      → SameAt (p + 16) 16 (mem s) m
      → (loc : Word)
      → request_chunk fuel layout (put_mem s m) p loc
        ≡ done (
          node_chunk s p,
          get_size s p,
          put_mem s (Chunk.ctor m loc (get_head s p) (get_size s p)),
        )
  unfolding request_chunk call_methods Methods.extensions Methods.manage_barrel Methods.get_chunk
      Chunk.create Chunk.ctor get_head get_size
  request_chunk-node fuel layout m front back loc =
      let at = extensions-SameAt s m front b.extensions in
      let start : barrel_start m p ≡ barrel_start (mem s) p =
        load32-SameAt (mem s) m (p + 24) (λ x lo hi. back x (omega arith) (omega arith)) in
      let count : barrel_count m p ≡ barrel_count (mem s) p =
        load32-SameAt (mem s) m (p + 16) (λ x lo hi. back x (omega arith) (omega arith)) in
      rw (at, b.methods, start, count)
        (rw (read-ctor m loc (get_head s p) (get_size s p) (omega arith) (omega (arith, b.small)))
          refl)

  -- A node answers a chunk request by its barrels, once round.
  pub node-ChunkAt :
      (fuel : ℕ) (layout : Layout) → ChunkAt fuel layout s p e t (node_chunk s p) (get_size s p)
  node-ChunkAt fuel layout = record {
    some_collection = b.some_node;
    extensions = b.extensions;
    type = b.type;
    round = record { round = inr refl; fits = small_size };
    request = request_chunk-node fuel layout;
  }

  unit_size-node : unit_size s.world p ≡ done t.size
  unfolding unit_size type_at
  unit_size-node = rw (b.extensions, b.type) refl

  -- Where the offset is a multiple of the node's barrels, Barrel_GetUnitPtr finds unit `i` in the
  -- place that it has in the node's chunk.
  pub get_unit_ptr-node :
      (i : ℕ)
      → barrel_offset (mem s) p % barrel_count (mem s) p ≡ 0
      → barrel_offset (mem s) p < u32_mod
      → i * t.size < get_size s p
      → get_head s p + get_size s p < u64_mod
      → get_unit_ptr s p i ≡ done (get_head s p + i * t.size)
  unfolding get_unit_ptr get_head get_size
  get_unit_ptr-node i turn low inside room =
      let count = barrel_count (mem s) p in
      let off = barrel_offset (mem s) p in
      let swap : t.size * i ≡ i * t.size = grind arith in
      let a : add64 (mul64 t.size i) (off * barrel_size) ≡ i * t.size + off * barrel_size =
        omega (arith, swap, b.small) in
      rw
        (
          unit_size-node,
          a,
          ==_false (count * barrel_size) 0 (omega arith),
          turn_mod (i * t.size) off count turn inside,
        )
        (ap done (omega arith))

-- It reads the struct of the node but for its count and its lock.
pub get_unit_ptr-SameAt :
    (s : Service) (p : Word) (m : Mem) (i : ℕ)
    → SameAt p 8 (mem s) m
    → SameAt (p + 16) 16 (mem s) m
    → get_unit_ptr (put_mem s m) p i ≡ get_unit_ptr s p i
unfolding get_unit_ptr unit_size extensions_at
get_unit_ptr-SameAt s p m i front back =
    let ext = load64-SameAt (mem s) m p front in
    let count : barrel_count m p ≡ barrel_count (mem s) p =
      load32-SameAt (mem s) m (p + 16) (λ x lo hi. back x (omega arith) (omega arith)) in
    let off : barrel_offset m p ≡ barrel_offset (mem s) p =
      load32-SameAt (mem s) m (p + 20) (λ x lo hi. back x (omega arith) (omega arith)) in
    let start : barrel_start m p ≡ barrel_start (mem s) p =
      load32-SameAt (mem s) m (p + 24) (λ x lo hi. back x (omega arith) (omega arith)) in
    rw (ext, count, off, start) refl
