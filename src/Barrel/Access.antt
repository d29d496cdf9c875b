-- ===== src/Barrel/Access.antt =====
-- Where the units of a barrel node lie: Barrel_GetUnitPtr and Barrel_GetElementPtr.
use barrel_test.Barrel.{
  barrel_start, modulo, barrel_offset, barrel_size, Service, mem, barrel_count, get_head, get_size,
  get_unit_ptr, get_element_ptr,
}
use native.Mathlib.Nat.{mod-lt}
use mathlib.Core.Path.{ap₂, fun_ext}
use barrel_test.Base.Run.{◌>>=◌, done}
use barrel_test.Helpers.{Word}
use barrel_test.Collection.{unit_size}
use barrel_test.Base.{==_false, ℕ, ◌+◌, ◌*◌, ◌%◌, ◌≤◌, ◌<◌, ◌≡◌, ap, arith}
use barrel_test.Base.Int.{u64_mod, add64, mul64}

head_place : (a h t : ℕ) → add64 (add64 a h) t ≡ add64 (add64 t a) h
head_place a h t = omega arith

target_place : (size index off : ℕ) → add64 (mul64 size index) off ≡ add64 off (mul64 index size)
target_place size index off = grind arith

-- Barrel_GetUnitPtr and Barrel_GetElementPtr, written in different orders, always agree.
pub get_unit_ptr-get_element_ptr :
    (s : Service) (node : Word) (index : ℕ)
    → get_unit_ptr s node index ≡ get_element_ptr s node index
unfolding get_unit_ptr get_element_ptr
get_unit_ptr-get_element_ptr s node index =
    ap (λ f. unit_size s.world node >>= f)
      (fun_ext λ size.
        ap₂ (λ t f. modulo t (barrel_count (mem s) node * barrel_size) >>= f)
          (target_place size index (barrel_offset (mem s) node * barrel_size))
          (fun_ext λ t.
            ap done (head_place (barrel_start (mem s) node * barrel_size) s.heap.heap_start t)))

-- On a node of a known type with at least one barrel, whose barrels end below 2 ^ 64, a unit
-- starts inside the barrels, whatever its index.
pub get_unit_ptr_lem :
    (s : Service) (node : Word) (index size : ℕ)
    → unit_size s.world node ≡ done size
    → 0 < barrel_count (mem s) node
    → get_head s node + get_size s node < u64_mod
    → (p : ℕ) × (get_unit_ptr s node index ≡ done p)
      × (get_head s node ≤ p)
      × (p < get_head s node + get_size s node)
unfolding get_unit_ptr get_head get_size
get_unit_ptr_lem s node index size e positive room =
    let span = barrel_count (mem s) node * barrel_size in
    let r = add64 (mul64 size index) (barrel_offset (mem s) node * barrel_size) % span in
    let lt : r < span = mod-lt _ (omega (arith, positive)) in
    (
      get_head s node + r,
      rw (e, ==_false span 0 (omega (arith, positive))) (ap done (omega (arith, lt, room))),
      omega arith,
      omega (arith, lt),
    )
