-- ===== src/Barrel/Making/Fields.antt =====
-- What Barrel_NodeCtor stores in a node and copies into its barrels.
use barrel_test.Base.{ℕ, zero, suc, ◌+◌, ◌*◌, ◌%◌, ◌<◌, ◌≡◌, sym, ap, ◌∙◌, subst, ◌≢◌, arith}
use barrel_test.Base.Int.{u32_mod, u64_mod, wrap_word, to_int}
use barrel_test.Memory.{Mem}
use barrel_test.Memory.Copy.{blit, Movable, blit-append, blit-zero, raw_transcribe-blit}
use barrel_test.Memory.Words.{
  Apart, load64, store32, store64, byte-store32, byte-store64, load32-store32, load32-store32-Apart,
  load32-store64-Apart, load64-store32-Apart, load64-store64,
}
use barrel_test.Collection.{create, lock_of}
use barrel_test.Barrel.{barrel_count, barrel_start, barrel_offset, next_node, none_index}
use barrel_test.Barrel.Making.{store_node, copy_loop}

-- The node at `loc`, from the memory behind each of its seven stores.
module _ (m : Mem) (loc start n ext cap : ℕ) (small_start : start < u32_mod) (small : n < u32_mod)
    (small_ext : ext < u64_mod) where
  abbrev a1 : Mem
  a1 = store32 m (loc + 24) (start % u32_mod)

  abbrev a2 : Mem
  a2 = store32 a1 (loc + 16) (n % u32_mod)

  abbrev a3 : Mem
  a3 = store64 a2 loc ext

  abbrev a4 : Mem
  a4 = store32 a3 (loc + 8) cap

  abbrev a5 : Mem
  a5 = store32 a4 (loc + 12) 0

  abbrev a6 : Mem
  a6 = store32 a5 (loc + 20) (n % u32_mod)

  pub start-store_node : barrel_start (store_node m loc start n ext cap) loc ≡ start
  unfolding store_node create
  start-store_node =
      load32-store32-Apart a6 (loc + 28) (loc + 24) (wrap_word u32_mod none_index) (omega arith)
      ∙ load32-store32-Apart a5 (loc + 20) (loc + 24) (n % u32_mod) (omega arith)
      ∙ load32-store32-Apart a4 (loc + 12) (loc + 24) 0 (omega arith)
      ∙ load32-store32-Apart a3 (loc + 8) (loc + 24) cap (omega arith)
      ∙ load32-store64-Apart a2 loc (loc + 24) ext (omega arith)
      ∙ load32-store32-Apart a1 (loc + 16) (loc + 24) (n % u32_mod) (omega arith)
      ∙ load32-store32 m (loc + 24) (start % u32_mod) (omega arith)
      ∙ omega arith

  pub count-store_node : barrel_count (store_node m loc start n ext cap) loc ≡ n
  unfolding store_node create
  count-store_node =
      load32-store32-Apart a6 (loc + 28) (loc + 16) (wrap_word u32_mod none_index) (omega arith)
      ∙ load32-store32-Apart a5 (loc + 20) (loc + 16) (n % u32_mod) (omega arith)
      ∙ load32-store32-Apart a4 (loc + 12) (loc + 16) 0 (omega arith)
      ∙ load32-store32-Apart a3 (loc + 8) (loc + 16) cap (omega arith)
      ∙ load32-store64-Apart a2 loc (loc + 16) ext (omega arith)
      ∙ load32-store32 a1 (loc + 16) (n % u32_mod) (omega arith)
      ∙ omega arith

  pub offset-store_node : barrel_offset (store_node m loc start n ext cap) loc ≡ n
  unfolding store_node create
  offset-store_node =
      load32-store32-Apart a6 (loc + 28) (loc + 20) (wrap_word u32_mod none_index) (omega arith)
      ∙ load32-store32 a5 (loc + 20) (n % u32_mod) (omega arith)
      ∙ omega arith

  pub next-store_node : next_node (store_node m loc start n ext cap) loc ≡ none_index
  unfolding store_node create
  next-store_node =
      ap to_int (load32-store32 a6 (loc + 28) (wrap_word u32_mod none_index) (omega arith))

  pub lock-store_node : lock_of (store_node m loc start n ext cap) loc ≡ 0
  unfolding store_node create
  lock-store_node =
      load32-store32-Apart a6 (loc + 28) (loc + 12) (wrap_word u32_mod none_index) (omega arith)
      ∙ load32-store32-Apart a5 (loc + 20) (loc + 12) (n % u32_mod) (omega arith)
      ∙ load32-store32 a4 (loc + 12) 0 (omega arith)

  pub extensions-store_node : load64 (store_node m loc start n ext cap) loc ≡ ext
  unfolding store_node create
  extensions-store_node =
      load64-store32-Apart a6 (loc + 28) loc (wrap_word u32_mod none_index) (omega arith)
      ∙ load64-store32-Apart a5 (loc + 20) loc (n % u32_mod) (omega arith)
      ∙ load64-store32-Apart a4 (loc + 12) loc 0 (omega arith)
      ∙ load64-store32-Apart a3 (loc + 8) loc cap (omega arith)
      ∙ load64-store64 a2 loc ext small_ext

  pub byte-store_node : (b : ℕ) → Apart loc 32 b 1 → store_node m loc start n ext cap b ≡ m b
  unfolding store_node create
  byte-store_node b apart =
      byte-store32 a6 (loc + 28) (wrap_word u32_mod none_index) b (omega arith)
      ∙ byte-store32 a5 (loc + 20) (n % u32_mod) b (omega arith)
      ∙ byte-store32 a4 (loc + 12) 0 b (omega arith)
      ∙ byte-store32 a3 (loc + 8) cap b (omega arith)
      ∙ byte-store64 a2 loc ext b (omega arith)
      ∙ byte-store32 a1 (loc + 16) (n % u32_mod) b (omega arith)
      ∙ byte-store32 m (loc + 24) (start % u32_mod) b (omega arith)

module _ (m : Mem) (trg src size : ℕ) (some_source : src ≢ 0) where
  copy_loop-more :
      (n i : ℕ)
      → Movable trg src ((i + n) * size)
      → copy_loop n i (blit m trg src (i * size)) trg src size ≡ blit m trg src ((i + n) * size)
  unfolding copy_loop
  copy_loop-more zero i ok = ap (λ t. blit m trg src (t * size)) (omega arith)
  copy_loop-more (suc n) i ok =
      let all : (i + suc n) * size ≡ i * size + size + n * size = grind arith in
      let next : i * size + size ≡ (i + 1) * size = grind arith in
      let rest : (i + 1 + n) * size ≡ i * size + size + n * size = grind arith in
      ap (λ g. copy_loop n (i + 1) g trg src size)
        (raw_transcribe-blit (blit m trg src (i * size)) (trg + i * size) (src + i * size) size
            (omega (arith, some_source)) (omega (arith, all))
          ∙ blit-append m trg src (i * size) size (omega (arith, all))
          ∙ ap (blit m trg src) next)
      ∙ copy_loop-more n (i + 1) (omega (arith, all, rest))
      ∙ ap (λ t. blit m trg src (t * size)) (omega arith)

  -- The loop that copies the initial units, as one block move.
  pub copy_loop-blit :
      (n : ℕ)
      → Movable trg src (n * size)
      → copy_loop n 0 m trg src size ≡ blit m trg src (n * size)
  copy_loop-blit n ok =
      let none_yet : 0 ≡ 0 * size = grind arith in
      let same : 0 + n ≡ n = omega arith in
      ap (λ g. copy_loop n 0 g trg src size)
        (sym (blit-zero m trg src) ∙ ap (blit m trg src) none_yet)
      ∙ copy_loop-more n 0 (subst (λ t. Movable trg src (t * size)) (sym same) ok)
      ∙ ap (λ t. blit m trg src (t * size)) same
