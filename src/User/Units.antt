-- ===== src/User/Units.antt =====
-- The memory of a chunk as an array of units, and a block move as the copying of a span of them.
use native.Mathlib.Decide.{dec_lt}
use native.Mathlib.Nat.{mul-le-mul_right}
use barrel_test.Base.{
  ltb, leb, if◌then◌else◌, ℕ, ◌+◌, ◌-◌, ◌*◌, ◌≤◌, ◌<◌, ◌≡◌, ap, ◌∙◌, ◌&&◌, arith,
}
use barrel_test.Memory.{Mem}
use barrel_test.Memory.Copy.{blit}
use barrel_test.Chunk.{Chunk}

-- Byte `k` of unit `i`, for units of `size` bytes.
abbrev pub Units : Type 0
Units = ℕ → ℕ → ℕ

abbrev pub units : Mem → Chunk → ℕ → Units
units m chunk size i k = m (chunk.head + i * size + k)

-- The array `trg` with `n` units of `src`, from `src_start` on, in the place of its own from
-- `trg_start` on.
abbrev pub copy_span : Units → ℕ → Units → ℕ → ℕ → Units
copy_span trg trg_start src src_start n i =
    if leb trg_start i && ltb i (trg_start + n) then src (src_start + (i - trg_start)) else trg i

-- A place in unit `i` against the span of `n` units from `a` on.
below_span : (size a i k : ℕ) → i < a → k < size → i * size + k < a * size
below_span size a i k lt low = grind arith

span_split : (size a j : ℕ) → (a + j) * size ≡ a * size + j * size
span_split size a j = grind arith

behind_span : (size a n i k : ℕ) → a + n ≤ i → a * size + n * size ≤ i * size + k
behind_span size a n i k le = omega (arith, mul-le-mul_right size le, span_split size a n)

in_span : (size n j k : ℕ) → j < n → k < size → j * size + k < n * size
in_span size n j k lt low = grind arith

module _ (m : Mem) (trg src : Chunk) (size ts ss n : ℕ) where
  abbrev pub moved : Mem
  moved = blit m (trg.head + ts * size) (src.head + ss * size) (n * size)

  inside_span :
      (j k : ℕ) → j < n → k < size → units moved trg size (ts + j) k ≡ units m src size (ss + j) k
  unfolding blit
  inside_span j k lt low =
      let a = span_split size ts j in
      let b = span_split size ss j in let c = in_span size n j k lt low in ground arith

  before_span : (i k : ℕ) → i < ts → k < size → units moved trg size i k ≡ units m trg size i k
  unfolding blit
  before_span i k lt low = let a = below_span size ts i k lt low in ground arith

  after_span : (i k : ℕ) → ts + n ≤ i → units moved trg size i k ≡ units m trg size i k
  unfolding blit
  after_span i k le = let a = behind_span size ts n i k le in ground arith

  pub blit-units :
      (i k : ℕ)
      → k < size
      → units moved trg size i k ≡ copy_span (units m trg size) ts (units m src size) ss n i k
  blit-units i k low = elim (dec_lt i ts) [
    | yes lt ↦ before_span i k lt low ∙ ground arith
    | no ge ↦ elim (dec_lt i (ts + n)) [
      | yes lt ↦
          ap (λ x. units moved trg size x k) (omega arith)
          ∙ inside_span (i - ts) k (omega arith) low
          ∙ ground arith
      | no behind ↦ after_span i k (omega arith) ∙ ground arith
    ]
  ]

-- It depends on the units of both arrays that it copies.
pub copy_span-same :
    (trg trg' src src' : Units) (ts ss n i k : ℕ)
    → trg' i k ≡ trg i k
    → ((a : ℕ) → a < n → src' (ss + a) k ≡ src (ss + a) k)
    → copy_span trg' ts src' ss n i k ≡ copy_span trg ts src ss n i k
copy_span-same trg trg' src src' ts ss n i k same from = elim (dec_lt i ts) [
  | yes lt ↦ ground arith
  | no ge ↦ elim (dec_lt i (ts + n)) [
    | yes lt ↦ let e = from (i - ts) (omega arith) in ground arith
    | no behind ↦ ground arith
  ]
]

-- Unit `i` of a chunk that has it lies in its memory.
pub unit-lt : (size cap i k : ℕ) → (i + 1) * size ≤ cap → k < size → i * size + k < cap
unit-lt size cap i k le low = grind arith

pub span-le : (size a j n : ℕ) → j < n → (a + j + 1) * size ≤ (a + n) * size
span-le size a j n lt = mul-le-mul_right size (omega arith)

pub copy_span-in :
    (trg src : Units) (start n j k : ℕ)
    → j < n
    → copy_span trg start src 0 n (start + j) k ≡ src j k
copy_span-in trg src start n j k lt =
    let e : 0 + (start + j - start) ≡ j = omega arith in
    let e' : src (0 + (start + j - start)) k ≡ src j k = ap (λ x. src x k) e in ground arith
