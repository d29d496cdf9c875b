-- ===== src/Barrel/Making/Doubling.antt =====
-- The doubling loop of Barrel_NodeCtor: it stops, and at the first power of two that is enough.
use barrel_test.Base.{ℕ, zero, suc, ◌+◌, ◌*◌, ◌≤◌, ◌<◌, ◌≡◌, refl, ◌∙◌, ◌⊎◌, inl, inr, some, arith}
use native.Mathlib.Decide.{dec_lt}
use barrel_test.Memory.{barrel_size}
use barrel_test.Barrel.Making.{double_loop}

-- `n` barrels hold the bytes needed, or take all the bytes left.
abbrev pub Enough : ℕ → ℕ → ℕ → Type 0
Enough n needed left = (needed ≤ n * barrel_size) ⊎ (left ≤ n * barrel_size)

double_loop-more :
    (fuel n needed left : ℕ)
    → n * barrel_size < needed
    → n * barrel_size < left
    → double_loop (suc fuel) n needed left ≡ double_loop fuel (n * 2) needed left
unfolding double_loop
double_loop-more fuel n needed left lt lt' = ground arith

double_loop-stop :
    (fuel n needed left : ℕ) → Enough n needed left → double_loop (suc fuel) n needed left ≡ some n
unfolding double_loop
double_loop-stop fuel n needed left enough = ground arith

-- Started with at least one barrel and with a round for each byte left on the heap, the loop
-- stops, at a number of barrels that is enough, and it doubles only a number that is not.
pub double_loop_total :
    (fuel n needed left : ℕ)
    → 0 < n
    → left ≤ fuel + n * barrel_size
    → (r : ℕ) × (double_loop (suc fuel) n needed left ≡ some r)
      × Enough r needed left
      × ((r ≡ n) ⊎ ((k : ℕ) × (r ≡ k * 2) × ¬ Enough k needed left))
double_loop_total zero n needed left positive bound =
    (n, double_loop-stop 0 n needed left (inr (omega arith)), inr (omega arith), inl refl)
double_loop_total (suc fuel) n needed left positive bound = elim (dec_lt (n * barrel_size) needed) [
  | yes h ↦ elim (dec_lt (n * barrel_size) left) [
    | yes h' ↦
        let (r, e, enough, why) =
          double_loop_total fuel (n * 2) needed left (omega arith) (omega arith) in
        (
          r,
          double_loop-more (suc fuel) n needed left h h' ∙ e,
          enough,
          inr (elim why [
            | inl same ↦ (n, same, λ x. elim x [ inl a ↦ omega arith | inr a ↦ omega arith ])
            | inr k ↦ k
          ]),
        )
    | no h' ↦ (
      n,
      double_loop-stop (suc fuel) n needed left (inr (omega arith)),
      inr (omega arith),
      inl refl,
    )
  ]
  | no h ↦ (
    n,
    double_loop-stop (suc fuel) n needed left (inl (omega arith)),
    inl (omega arith),
    inl refl,
  )
]
