-- ===== src/Memory/Words.antt =====
-- Little-endian words in byte memory: the fields of C structs.
use barrel_test.Base.{ℕ, ◌+◌, ◌*◌, ◌/◌, ◌%◌, ◌≤◌, ◌<◌, ◌≡◌, ap, ◌∙◌, ◌⊎◌, arith}
use barrel_test.Memory.{Mem, write}

unfoldable pub load32 : Mem → ℕ → ℕ
load32 m p = m p + 256 * m (p + 1) + 65536 * m (p + 2) + 16777216 * m (p + 3)

unfoldable pub store32 : Mem → ℕ → ℕ → Mem
unfolding write
store32 m p v =
    write (write (write (write m p (v % 256)) (p + 1) (v / 256 % 256)) (p + 2) (v / 65536 % 256))
      (p + 3) (v / 16777216 % 256)

unfoldable pub load64 : Mem → ℕ → ℕ
unfolding load32
load64 m p = load32 m p + 4294967296 * load32 m (p + 4)

unfoldable pub store64 : Mem → ℕ → ℕ → Mem
unfolding store32
store64 m p v = store32 (store32 m p (v % 4294967296)) (p + 4) (v / 4294967296)

-- The `n` bytes at `p` and the `k` bytes at `q` have none in common.
abbrev pub Apart : ℕ → ℕ → ℕ → ℕ → Type 0
Apart p n q k = (p + n ≤ q) ⊎ (q + k ≤ p)

-- The two memories agree on the `n` bytes at `p`.
abbrev pub SameAt : ℕ → ℕ → Mem → Mem → Type 0
SameAt p n m m' = (b : ℕ) → p ≤ b → b < p + n → m' b ≡ m b

pub byte-store32 : (m : Mem) (p v b : ℕ) → Apart p 4 b 1 → store32 m p v b ≡ m b
unfolding store32
byte-store32 m p v b ap = ground arith

pub load32-store32 : (m : Mem) (p v : ℕ) → v < 4294967296 → load32 (store32 m p v) p ≡ v
unfolding load32 store32
load32-store32 m p v lt = ground arith

pub load32-SameAt : (m m' : Mem) (p : ℕ) → SameAt p 4 m m' → load32 m' p ≡ load32 m p
unfolding load32
load32-SameAt m m' p same = omega (
  arith,
  same p (omega arith) (omega arith),
  same (p + 1) (omega arith) (omega arith),
  same (p + 2) (omega arith) (omega arith),
  same (p + 3) (omega arith) (omega arith),
)

pub load32-store32-Apart :
    (m : Mem) (p q v : ℕ) → Apart p 4 q 4 → load32 (store32 m p v) q ≡ load32 m q
load32-store32-Apart m p q v ap =
    load32-SameAt m (store32 m p v) q (λ b lo hi. byte-store32 m p v b (omega arith))

pub byte-store64 : (m : Mem) (p v b : ℕ) → Apart p 8 b 1 → store64 m p v b ≡ m b
unfolding store64
byte-store64 m p v b ap =
    byte-store32 (store32 m p (v % 4294967296)) (p + 4) (v / 4294967296) b (omega arith)
    ∙ byte-store32 m p (v % 4294967296) b (omega arith)

pub load64-SameAt : (m m' : Mem) (p : ℕ) → SameAt p 8 m m' → load64 m' p ≡ load64 m p
unfolding load64
load64-SameAt m m' p same = omega (
  arith,
  load32-SameAt m m' p (λ b lo hi. same b (omega arith) (omega arith)),
  load32-SameAt m m' (p + 4) (λ b lo hi. same b (omega arith) (omega arith)),
)

pub load64-store64 :
    (m : Mem) (p v : ℕ) → v < 4294967296 * 4294967296 → load64 (store64 m p v) p ≡ v
unfolding load64 store64
load64-store64 m p v lt =
    let lo = v % 4294967296 in
    let hi = v / 4294967296 in
    omega (
      arith,
      load32-store32 (store32 m p lo) (p + 4) hi (omega arith),
      load32-store32-Apart (store32 m p lo) (p + 4) p hi (omega arith),
      load32-store32 m p lo (omega arith),
    )

pub load64-store64-Apart :
    (m : Mem) (p q v : ℕ) → Apart p 8 q 8 → load64 (store64 m p v) q ≡ load64 m q
load64-store64-Apart m p q v ap =
    load64-SameAt m (store64 m p v) q (λ b lo hi. byte-store64 m p v b (omega arith))

pub load32-store64-Apart :
    (m : Mem) (p q v : ℕ) → Apart p 8 q 4 → load32 (store64 m p v) q ≡ load32 m q
load32-store64-Apart m p q v ap =
    load32-SameAt m (store64 m p v) q (λ b lo hi. byte-store64 m p v b (omega arith))

pub load64-store32-Apart :
    (m : Mem) (p q v : ℕ) → Apart p 4 q 8 → load64 (store32 m p v) q ≡ load64 m q
load64-store32-Apart m p q v ap =
    load64-SameAt m (store32 m p v) q (λ b lo hi. byte-store32 m p v b (omega arith))
