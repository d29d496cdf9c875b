-- ===== src/Vectors/Rolled.antt =====
-- The bytes that Vector_Transcribe moves, and where it reads them.
use native.Mathlib.Nat.{mod-eq_of_lt, mod-lt}
use mathlib.Core.Path.{fun_ext}
use barrel_test.Base.{
  ltb, leb, ◌==◌, if◌then◌else◌, Bool-cases, ==_false, ℕ, zero, suc, ◌+◌, ◌-◌, ◌*◌, ◌%◌, ◌≤◌, ◌<◌,
  ◌≡◌, sym, ap, ◌∙◌, inl, inr, false, ◌&&◌, arith,
}
use barrel_test.Base.Int.{u64_mod, add64, mul64}
use barrel_test.Base.Run.{done}
use barrel_test.Enums.{t_trg, t_src, ix_trg, ix_src, t_size, t_count}
use barrel_test.Helpers.{Word, Request, slot}
use barrel_test.Memory.{Mem, write}
use barrel_test.Memory.Words.{Apart}
use barrel_test.Chunk
use barrel_test.Chunk.{Chunk}
use barrel_test.Vectors.{round_place, span_loop, move_span, vector_transcribe}

-- The memory with the bytes that stand at `place 0`, `place 1`, ... moved to the `k` bytes at `to`.
abbrev gathered : Mem → Word → (ℕ → Word) → ℕ → Mem
gathered m to place k b = if leb to b && ltb b (to + k) then m (place (b - to)) else m b

-- Both chunks lie in memory, apart, and hold bytes.
pub record ArePlaced (trg src : Chunk) : Type 0 where
  pub trg_room : trg.head + trg.size < u64_mod
  pub src_room : src.head + src.size < u64_mod
  pub some_src : 0 < src.size
  pub apart : Apart trg.head trg.size src.head src.size

trg_place :
    (trg : Chunk) (start i : ℕ)
    → start + i < trg.size
    → trg.head + trg.size < u64_mod
    → round_place trg start i ≡ trg.head + start + i
unfolding round_place
trg_place trg start i lt room =
    let e : add64 start i ≡ start + i = omega arith in rw (e, mod-eq_of_lt lt) (omega arith)

src_place :
    (src : Chunk) (start i : ℕ)
    → 0 < src.size
    → src.head + src.size < u64_mod
    → (src.head ≤ round_place src start i) × (round_place src start i < src.head + src.size)
unfolding round_place
src_place src start i positive room =
    let lt = mod-lt (add64 start i) positive in
    let e : add64 (add64 start i % src.size) src.head ≡ src.head + add64 start i % src.size =
      omega (arith, lt) in
    rw e (omega arith, omega (arith, lt))

src_place_lem :
    (src : Chunk) (start i : ℕ)
    → 0 < src.size
    → src.head + src.size < u64_mod
    → start + i < u64_mod
    → round_place src start i ≡ src.head + (start + i) % src.size
unfolding round_place
src_place_lem src start i positive room lt =
    let e : add64 start i ≡ start + i = omega arith in
    let low = mod-lt (start + i) positive in rw e (omega (arith, low))

gathered-at :
    (m : Mem) (to : Word) (place : ℕ → Word) (n j : ℕ)
    → j < n
    → gathered m to place n (to + j) ≡ m (place j)
gathered-at m to place n j lt =
    let e : to + j - to ≡ j = omega arith in
    let e' : m (place (to + j - to)) ≡ m (place j) = ap (λ i. m (place i)) e in ground arith

gathered-step :
    (m : Mem) (to : Word) (place : ℕ → Word) (i n : ℕ)
    → Apart to (i + suc n) (place i) 1
    → write (gathered m to place i) (to + i) (gathered m to place i (place i))
      ≡ gathered m to place (i + 1)
unfolding write
gathered-step m to place i n apart = fun_ext λ b. elim (Bool-cases (b == to + i)) [
  | inl same ↦
      let e : b - to ≡ i = ground arith in
      let e' : m (place (b - to)) ≡ m (place i) = ap (λ j. m (place j)) e in ground arith
  | inr other ↦ ground arith
]

module _ (m : Mem) (trg src : Chunk) (start src_start : ℕ) (placed : ArePlaced trg src) where
  -- Where round `j` reads.
  abbrev source : ℕ → Word
  source j = round_place src src_start j

  source-apart : (i k : ℕ) → start + k ≤ trg.size → Apart (trg.head + start) k (source i) 1
  source-apart i k le =
      let a = placed.apart in
      let (lo, hi) = src_place src src_start i placed.some_src placed.src_room in omega arith

  span_loop-gathered :
      (n i k : ℕ)
      → i + n ≡ k
      → start + k ≤ trg.size
      → span_loop n i (gathered m (trg.head + start) source i) trg start src src_start
        ≡ gathered m (trg.head + start) source k
  unfolding span_loop
  span_loop-gathered zero i k e le =
      let same : i ≡ k = omega arith in ap (gathered m (trg.head + start) source) same
  span_loop-gathered (suc n) i k e le =
      let to = trg.head + start in
      let now = gathered m to source i in
      let at : round_place trg start i ≡ to + i =
        trg_place trg start i (omega arith) placed.trg_room in
      ap (λ g. span_loop n (i + 1) g trg start src src_start)
        (ap (λ p. write now p (now (source i))) at
          ∙ gathered-step m to source i n (source-apart i (i + suc n) (omega arith)))
      ∙ span_loop-gathered n (i + 1) k (omega arith) le

  gathered-zero : gathered m (trg.head + start) source 0 ≡ m
  gathered-zero = fun_ext λ b. ground arith

  move_span-gathered :
      (n : ℕ)
      → start + n ≤ trg.size
      → move_span n m trg start src src_start ≡ done (gathered m (trg.head + start) source n)
  unfolding move_span
  move_span-gathered zero le = ap done (sym gathered-zero)
  move_span-gathered (suc n) le =
      let some_trg : trg.size == 0 ≡ false = ==_false trg.size 0 (omega arith) in
      let some_src : src.size == 0 ≡ false = ==_false src.size 0 (omega (arith, placed.some_src)) in
      rw (some_trg, some_src)
        (ap done (
          ap (λ g. span_loop (suc n) 0 g trg start src src_start) (sym gathered-zero)
          ∙ span_loop-gathered (suc n) 0 (suc n) (omega arith) le))

-- The parameters of a request of Vector_Transcribe, as numbers that do not wrap: a span that lies in
-- the target.
pub record IsVectorRequest (m : Mem) (request : Request) (trg src : Chunk) (start src_start n : ℕ)
    : Type 0 where
  pub trg_chunk : Chunk.read m (slot request t_trg) ≡ trg
  pub src_chunk : Chunk.read m (slot request t_src) ≡ src
  pub span : slot request t_size * slot request t_count ≡ n
  pub trg_start : slot request t_size * slot request ix_trg ≡ start
  pub src_place : slot request t_size * slot request ix_src ≡ src_start
  pub fits : start + n ≤ trg.size
  pub in_memory : src.head + src_start + n < u64_mod

-- Vector_Transcribe moves the bytes of the span into the target in their order, but reads them from
-- the source by an index that counts the head of the source in: from the span asked for only if
-- that head is a multiple of the source's size. The chunks lie apart, the source is not empty, the
-- span lies in the target, and no number wraps.
pub vector_transcribe_lem :
    {m : Mem} {request : Request} {trg src : Chunk} {start src_start n : ℕ}
    → IsVectorRequest m request trg src start src_start n
    → ArePlaced trg src
    → (m' : Mem) × (vector_transcribe m request ≡ done m')
      × ((j : ℕ)
          → j < n
          → m' (trg.head + start + j) ≡ m (src.head + (src.head + src_start + j) % src.size))
      × ((b : ℕ) → Apart (trg.head + start) n b 1 → m' b ≡ m b)
unfolding vector_transcribe
vector_transcribe_lem {m} {request} {trg} {src} {start} {src_start} {n} r placed =
    let unit = slot request t_size in
    let a = r.fits in
    let b = r.in_memory in
    let c = placed.trg_room in
    let no_wrap : mul64 unit (slot request t_count) ≡ n =
      ap (λ x. x % u64_mod) r.span ∙ omega arith in
    let to : mul64 unit (slot request ix_trg) ≡ start =
      ap (λ x. x % u64_mod) r.trg_start ∙ omega arith in
    let from : mul64 unit (slot request ix_src) ≡ src_start =
      ap (λ x. x % u64_mod) r.src_place ∙ omega arith in
    let first : add64 src.head src_start ≡ src.head + src_start = omega arith in
    let head : (Chunk.read m (slot request t_src)).head ≡ src.head = ap (λ c. c.head) r.src_chunk in
    let place = source m trg src start (src.head + src_start) placed in
    (
      gathered m (trg.head + start) place n,
      rw (r.trg_chunk, r.src_chunk, head, no_wrap, to, from, first)
          (move_span-gathered m trg src start (src.head + src_start) placed n r.fits),
      λ j lt.
          gathered-at m (trg.head + start) place n j lt
          ∙ ap m (
              src_place_lem src (src.head + src_start) j placed.some_src placed.src_room
                (omega arith)),
      λ b apart. ground arith,
    )
