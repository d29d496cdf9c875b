-- ===== src/Bucket/Create.antt =====
-- What Bucket_ctor leaves in memory.
use native.Mathlib.Decide.{dec_lt}
use barrel_test.Base.{
  if◌then◌else◌, get_elem?, ℕ, zero, suc, ◌+◌, ◌-◌, ◌*◌, ◌≤◌, ◌<◌, ◌≡◌, ap, ◌∙◌, ◌≢◌, inr, false,
  some, arith,
}
use barrel_test.Base.Int.{u32_mod, u64_mod}
use barrel_test.Base.Run.{done}
use barrel_test.Enums.{mem_flag_code, fixed_size, empty, fill}
use barrel_test.Helpers.{Word}
use barrel_test.Memory.{Mem, raw_transcribe}
use barrel_test.Memory.Copy.{blit, raw_transcribe-blit}
use barrel_test.Memory.Words.{
  store64, store32, load64-store64, load64-store64-Apart, load32-store32, load32-store32-Apart,
  load32-store64-Apart, load64-store32-Apart, byte-store32, byte-store64, Apart,
}
use barrel_test.TypeInfo.{Name, Layout, TypeInfo, Bins, get}
use barrel_test.Collection.{
  World, set_mem, extensions_of, count_of, lock_of, create, has_flag, get_extensions,
  bucket_methods_ptr,
}
use barrel_test.Bucket.{
  chunk_head, chunk_size, created_flags, fill_loop, Bucket, create_typed, create_bucket,
  store_bucket, ctor,
}

-- Whatever flags are asked for, the flags registered are FIXED_SIZE alone: `!(EMPTY)` is 0, and
-- `&=` with it clears them all.
pub created_flags_lem : (f : ℕ) → created_flags f ≡ mem_flag_code fixed_size
unfolding created_flags
created_flags_lem f = ground arith

module _ (m : Mem) (p : ℕ) (b : Bucket) where
  abbrev m1 : Mem
  m1 = store64 m p b.extensions

  abbrev m2 : Mem
  m2 = store32 m1 (p + 8) b.count

  abbrev m3 : Mem
  m3 = store32 m2 (p + 12) 0

  abbrev m4 : Mem
  m4 = store64 m3 (p + 16) b.head

  -- A struct whose values fit its fields is read back field by field as it was stored, its lock
  -- free, and no byte outside of its 32 changes.
  pub store_bucket_lem :
      b.extensions < u64_mod
      → b.count < u32_mod
      → b.head < u64_mod
      → b.size < u64_mod
      → let m' = store_bucket m p b in
        (extensions_of m' p ≡ b.extensions)
        × (count_of m' p ≡ b.count)
        × (lock_of m' p ≡ 0)
        × (chunk_head m' p ≡ b.head)
        × (chunk_size m' p ≡ b.size)
        × ((a : ℕ) → Apart p 32 a 1 → m' a ≡ m a)
  unfolding store_bucket create
  store_bucket_lem he hc hh hs = (
    load64-store64-Apart m4 (p + 24) p b.size (omega arith)
        ∙ load64-store64-Apart m3 (p + 16) p b.head (omega arith)
        ∙ load64-store32-Apart m2 (p + 12) p 0 (omega arith)
        ∙ load64-store32-Apart m1 (p + 8) p b.count (omega arith)
        ∙ load64-store64 m p b.extensions he,
    load32-store64-Apart m4 (p + 24) (p + 8) b.size (omega arith)
        ∙ load32-store64-Apart m3 (p + 16) (p + 8) b.head (omega arith)
        ∙ load32-store32-Apart m2 (p + 12) (p + 8) 0 (omega arith)
        ∙ load32-store32 m1 (p + 8) b.count hc,
    load32-store64-Apart m4 (p + 24) (p + 12) b.size (omega arith)
        ∙ load32-store64-Apart m3 (p + 16) (p + 12) b.head (omega arith)
        ∙ load32-store32 m2 (p + 12) 0 (omega arith),
    load64-store64-Apart m4 (p + 24) (p + 16) b.size (omega arith)
        ∙ load64-store64 m3 (p + 16) b.head hh,
    load64-store64 m4 (p + 24) b.size hs,
    λ a apart.
        byte-store64 m4 (p + 24) b.size a (omega arith)
        ∙ byte-store64 m3 (p + 16) b.head a (omega arith)
        ∙ byte-store32 m2 (p + 12) 0 a (omega arith)
        ∙ byte-store32 m1 (p + 8) b.count a (omega arith)
        ∙ byte-store64 m p b.extensions a (omega arith),
  )

-- A unit below unit `i` ends where unit `i` begins or before.
unit_below : (i j u : ℕ) → j < i → j * u + u ≤ i * u
unit_below i j u lt = grind arith

module _ (g : Mem) (head unit i : ℕ) (ne : head ≢ 0) (lower : 1 ≤ i) where
  fill_unit-blit : raw_transcribe g (head + i * unit) head unit ≡ blit g (head + i * unit) head unit
  fill_unit-blit =
      raw_transcribe-blit g (head + i * unit) head unit ne
        (inr (omega (arith, unit_below i 0 unit lower)))

  fill_unit_self :
      (k : ℕ)
      → k < unit
      → raw_transcribe g (head + i * unit) head unit (head + i * unit + k) ≡ g (head + k)
  unfolding blit
  fill_unit_self k lt = rw fill_unit-blit (ground arith)

  fill_unit_below :
      (j k : ℕ)
      → j < i
      → k < unit
      → raw_transcribe g (head + i * unit) head unit (head + j * unit + k) ≡ g (head + j * unit + k)
  unfolding blit
  fill_unit_below j k lt lt' = rw fill_unit-blit (ground (arith, unit_below i j unit lt))

module _ (m : Mem) (head unit : ℕ) where
  fill_loop_units :
      (n i : ℕ) (g : Mem)
      → head ≢ 0
      → 1 ≤ i
      → ((j k : ℕ) → j < i → k < unit → g (head + j * unit + k) ≡ m (head + k))
      → (j k : ℕ) → j < i + n
      → k < unit
      → fill_loop n i g head unit (head + j * unit + k) ≡ m (head + k)
  unfolding fill_loop
  fill_loop_units zero i g ne lower filled j k lt lt' = filled j k (omega arith) lt'
  fill_loop_units (suc n) i g ne lower filled j k lt lt' =
      fill_loop_units n (i + 1) (raw_transcribe g (head + i * unit) head unit) ne (omega arith)
        (λ j k lt lt'. elim (dec_lt j i) [
          | yes p ↦ fill_unit_below g head unit i ne lower j k p lt' ∙ filled j k p lt'
          | no p ↦
              let e : j ≡ i = omega arith in
              rw e (
                fill_unit_self g head unit i ne lower k lt'
                ∙ ap g (omega arith)
                ∙ filled 0 k (omega arith) lt')
        ])
        j k (omega arith) lt'

  -- On memory that is not at NULL the loop of a FILL constructor gives each of the units of the
  -- chunk, at least one, the bytes of the first one.
  pub fill_loop_lem :
      (capacity : ℕ)
      → head ≢ 0
      → 0 < capacity
      → (j k : ℕ) → j < capacity
      → k < unit
      → fill_loop (capacity - 1) 1 m head unit (head + j * unit + k) ≡ m (head + k)
  fill_loop_lem capacity ne positive j k lt lt' =
      fill_loop_units (capacity - 1) 1 m ne (omega arith)
        (λ j k lt lt'. let e : j ≡ 0 = omega arith in rw e (ap m (omega arith))) j k (omega arith)
        lt'

-- What Bucket_ctor does, without FILL and with values that fit their fields, once its type and its
-- extensions are found: the bucket at `loc` has the extensions, no unit under EMPTY and else all
-- of them, a free lock, the memory at `head` for its chunk, and as the chunk's size its capacity
-- in units of the registered size; no byte outside the bucket changes.
pub ctor_lem :
    (layout : Layout) (w : World) (name : Name) (size : ℕ) (loc head : Word) (mem_flags cap : ℕ)
    (i e : ℕ) {bins : Bins} {w' : World} {type : TypeInfo}
    → get layout w.bins name size ≡ (some i, bins)
    → get_elem? bins.types i ≡ some type
    → get_extensions
        (record w { bins = bins })
        (suc i)
        bucket_methods_ptr
        (mem_flag_code fixed_size)
      ≡ (suc e, w')
    → has_flag mem_flags (mem_flag_code fill) ≡ false
    → suc e < u64_mod
    → cap < u32_mod
    → head < u64_mod
    → type.size * cap < u64_mod
    → (v : World) × (ctor layout w name size loc head mem_flags cap ≡ done (loc, v))
      × (extensions_of v.bins.mem loc ≡ suc e)
      × (count_of v.bins.mem loc ≡ (if has_flag mem_flags (mem_flag_code empty) then 0 else cap))
      × (lock_of v.bins.mem loc ≡ 0)
      × (chunk_head v.bins.mem loc ≡ head)
      × (chunk_size v.bins.mem loc ≡ type.size * cap)
      × ((a : ℕ) → Apart loc 32 a 1 → v.bins.mem a ≡ w'.bins.mem a)
unfolding ctor create_bucket create_typed
ctor_lem layout w name size loc head mem_flags cap i e {bins} {w'} {type} found typed shared plain
      he hc hh hs =
    let count = if has_flag mem_flags (mem_flag_code empty) then 0 else cap in
    let b : Bucket = record {
      extensions = suc e;
      count = count;
      head = head;
      size = type.size * cap;
    } in
    let (f1, f2, f3, f4, f5, f6) = store_bucket_lem w'.bins.mem loc b he (ground arith) hh hs in
    (
      set_mem w' (store_bucket w'.bins.mem loc b),
      rw (found, typed, created_flags_lem mem_flags, shared, plain)
          (ap (λ n. done (loc, set_mem w' (store_bucket w'.bins.mem loc (record b { size = n }))))
            (omega arith)),
      f1,
      f2,
      f3,
      f4,
      f5,
      f6,
    )
