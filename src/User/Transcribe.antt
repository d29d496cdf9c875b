-- ===== src/User/Transcribe.antt =====
-- Collection_Transcribe: its loop as one block move, and what it does on one collection.
use native.Mathlib.Nat.{add-mod_left, mod-eq_of_lt}
use mathlib.Core.Path.{ap₂}
use barrel_test.Base.{
  ℕ, zero, suc, ◌+◌, ◌*◌, ◌%◌, ◌≤◌, ◌<◌, ◌≡◌, refl, sym, ap, ◌∙◌, ◌≢◌, ◌⊎◌, inl, inr, true, arith,
}
use barrel_test.Base.Int.{u32_mod, u64_mod, add64}
use barrel_test.Base.Run.{done, spins}
use barrel_test.Helpers.{Word}
use barrel_test.Memory.{Mem, raw_transcribe}
use barrel_test.Memory.Copy.{blit-append, blit, blit-zero, Movable, raw_transcribe-blit}
use barrel_test.Memory.Words.{load32-store32, store32}
use barrel_test.TypeInfo.{Layout}
use barrel_test.Chunk.{Chunk}
use barrel_test.Collection.{CollectionExtensions, extensions_at, transcribe_compare, lock_of}
use barrel_test.Barrel.{Service, mem, put_mem}
use barrel_test.Barrel.Rolling.Branches.{lock-free, lock-taken}
use barrel_test.User.{Frame, transcribe, transcribe_loop, unit_place}

-- Collection_Transcribe of a collection onto itself, where it is free and may be written, takes
-- its lock and then waits for it for ever.
pub transcribe-spins :
    (fuel : ℕ) (layout : Layout) (frame : Frame) (s : Service) (p : Word)
    (trg_start src_start n : ℕ) (e : CollectionExtensions)
    → p ≢ 0
    → lock_of (mem s) p ≡ 0
    → extensions_at s.world p ≡ done e
    → transcribe_compare s.world e e ≡ done true
    → transcribe fuel layout frame s p p trg_start src_start n ≡ spins
unfolding transcribe
transcribe-spins fuel layout frame s p trg_start src_start n e ne free at ok =
    let s' = put_mem s (store32 (mem s) (p + 12) 1) in
    let one : lock_of (mem s') p ≡ 1 = load32-store32 (mem s) (p + 12) 1 (omega arith) in
    let taken : lock_of (mem s') p ≢ 0 = omega (arith, one) in
    rw (at, ok, lock-free s p ne free, lock-taken s' p ne taken) refl

-- The units from `start` on, `n` of them, lie in the chunk, and the chunk in memory.
pub record HasUnits (chunk : Chunk) (start n size : ℕ) : Type 0 where
  pub indices : start + n < u32_mod
  pub inside : (start + n) * size ≤ chunk.size
  pub room : chunk.head + chunk.size < u64_mod

end_unit : (i n start size : ℕ) → i < n → (start + i) * size + size ≤ (start + n) * size
end_unit i n start size lt = grind arith

one_more : (i n size : ℕ) → i < n → i * size + size ≤ n * size
one_more i n size lt = grind arith

-- The offset of a chunk's first unit is its start, or once round it.
pub record IsRound (chunk : Chunk) (off : ℕ) : Type 0 where
  pub round : (off ≡ 0) ⊎ (off ≡ chunk.size)
  pub fits : off + chunk.size ≤ u64_mod

round_mod :
    (chunk : Chunk) (off a : ℕ) → IsRound chunk off → a < chunk.size → (off + a) % chunk.size ≡ a
round_mod chunk off a at lt = elim at.round [
  | inl e ↦ ap (λ x. x % chunk.size) (let z : off + a ≡ a = omega arith in z) ∙ mod-eq_of_lt lt
  | inr e ↦ ap (λ x. (x + a) % chunk.size) e ∙ add-mod_left chunk.size a ∙ mod-eq_of_lt lt
]

place_in :
    (chunk : Chunk) (off a : ℕ)
    → IsRound chunk off
    → a < chunk.size
    → chunk.head + chunk.size < u64_mod
    → add64 chunk.head (add64 off (a % u64_mod) % chunk.size) ≡ chunk.head + a
place_in chunk off a at lt room =
    let e : add64 off (a % u64_mod) ≡ off + a = omega (arith, at.fits) in
    rw (e, round_mod chunk off a at lt) (omega arith)

unit_place_lem :
    (chunk : Chunk) (off start n size i : ℕ)
    → IsRound chunk off
    → HasUnits chunk start n size
    → 0 < size
    → i < n
    → unit_place chunk off size start i ≡ chunk.head + start * size + i * size
unfolding unit_place
unit_place_lem chunk off start n size i at has positive lt =
    let index : (start + i) % u32_mod ≡ start + i = omega (arith, has.indices) in
    let e : size * ((start + i) % u32_mod) ≡ (start + i) * size = rw index (grind arith) in
    let inside : (start + i) * size < chunk.size =
      omega (arith, end_unit i n start size lt, has.inside) in
    let sum : chunk.head + (start + i) * size ≡ chunk.head + start * size + i * size =
      grind arith in
    rw e (place_in chunk off ((start + i) * size) at inside has.room ∙ sum)

module _ {trg src : Chunk} {trg_start src_start n size : ℕ} (to : HasUnits trg trg_start n size)
    (from : HasUnits src src_start n size) (positive : 0 < size) (some_head : src.head ≢ 0)
    {trg_off src_off : ℕ} (trg_round : IsRound trg trg_off) (src_round : IsRound src src_off)
    (m : Mem) where
  abbrev to_place : Word
  to_place = trg.head + trg_start * size

  abbrev from_place : Word
  from_place = src.head + src_start * size

  -- One unit, behind `i` units that were moved as one block.
  unit-blit :
      (i : ℕ)
      → i < n
      → Movable to_place from_place (n * size)
      → raw_transcribe
          (blit m to_place from_place (i * size))
          (unit_place trg trg_off size trg_start i)
          (unit_place src src_off size src_start i)
          size
        ≡ blit m to_place from_place ((i + 1) * size)
  unit-blit i lt ok =
      let last : i * size + size ≤ n * size = one_more i n size lt in
      let next : i * size + size ≡ (i + 1) * size = grind arith in
      let g = blit m to_place from_place (i * size) in
      ap₂ (λ a b. raw_transcribe g a b size)
        (unit_place_lem trg trg_off trg_start n size i trg_round to positive lt)
        (unit_place_lem src src_off src_start n size i src_round from positive lt)
      ∙ raw_transcribe-blit g (to_place + i * size) (from_place + i * size) size
          (omega (arith, some_head)) (omega arith)
      ∙ blit-append m to_place from_place (i * size) size (omega arith)
      ∙ ap (blit m to_place from_place) next

  transcribe_loop-blit :
      (k i : ℕ)
      → i + k ≡ n
      → Movable to_place from_place (n * size)
      → transcribe_loop k i
          (blit m to_place from_place (i * size))
          trg
          trg_off
          trg_start
          src
          src_off
          src_start
          size
        ≡ blit m to_place from_place (n * size)
  unfolding transcribe_loop
  transcribe_loop-blit zero i e ok = ap (λ t. blit m to_place from_place (t * size)) (omega arith)
  transcribe_loop-blit (suc k) i e ok =
      ap (λ g. transcribe_loop k (i + 1) g trg trg_off trg_start src src_off src_start size)
        (unit-blit i (omega arith) ok)
      ∙ transcribe_loop-blit k (i + 1) (omega arith) ok

  -- With both chunks at offset 0 or once round, both spans of units inside their chunks, units of at least one
  -- byte and a source chunk that is not at NULL, the loop of Collection_Transcribe moves the units
  -- as one block, if the source ends before the target or the target does not lie behind the
  -- source's start.
  pub transcribe_loop_lem :
      Movable to_place from_place (n * size)
      → transcribe_loop n 0 m trg trg_off trg_start src src_off src_start size
        ≡ blit m to_place from_place (n * size)
  transcribe_loop_lem ok =
      let none_yet : 0 ≡ 0 * size = grind arith in
      ap (λ g. transcribe_loop n 0 g trg trg_off trg_start src src_off src_start size)
        (sym (blit-zero m to_place from_place) ∙ ap (blit m to_place from_place) none_yet)
      ∙ transcribe_loop-blit n 0 (omega arith) ok
