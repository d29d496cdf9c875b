-- ===== src/Base/Arith.antt =====
-- Remainders of products, for arithmetic modulo the size of a word.
use native.Mathlib.Nat.{mod-add-div, add-mul-mod_self_left}
use barrel_test.Base.{ℕ, ◌*◌, ◌/◌, ◌%◌, ◌≡◌, sym, ap, ◌∙◌, arith}

pub mod-mul-mod : (a b m : ℕ) → (a % m * b) % m ≡ (a * b) % m
mod-mul-mod a b m =
    sym (add-mul-mod_self_left (a % m * b) m (a / m * b))
    ∙ ap (λ t. t % m) (omega (arith, ap (λ (t : ℕ). t * b) (mod-add-div a m)))
