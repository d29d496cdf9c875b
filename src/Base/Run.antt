-- ===== src/Base/Run.antt =====
-- What becomes of a call: it returns, it waits for ever (on a lock, or for a line that nobody
-- types), it faults (a NULL or wild pointer is followed, or an integer is divided by zero), or the
-- fuel that the model gives its loops and its calls of itself runs out, which is no outcome of the
-- code.
use barrel_test.Base.{◌≡◌, refl, ◌==◌, if◌then◌else◌, ◌⊎◌, inl, inr, ℕ, ◌/◌, Option, none, some}

pub data Run {ℓ} (A : Type ℓ) : Type ℓ where
  done : A → Run A
  spins : Run A
  faults : Run A
  starves : Run A

infixl 5 ◌>>=◌
abbrev pub ◌>>=◌ {ℓ κ} : {A : Type ℓ} {B : Type κ} → Run A → (A → Run B) → Run B
done a >>= f = f a
spins >>= f = spins
faults >>= f = faults
starves >>= f = starves

abbrev pub of_option {ℓ} : {A : Type ℓ} → Option A → Run A
of_option none = faults
of_option (some a) = done a

-- C's integer division, which faults at 0.
abbrev pub divide : ℕ → ℕ → Run ℕ
divide a b = if b == 0 then faults else done (a / b)

-- Two binds in a row, against one with the same outcome at every value.
pub >>=-assoc {ℓ κ μ} :
    {A : Type ℓ} {B : Type κ} {C : Type μ} (r : Run A) (f : A → Run B) (g : B → Run C)
    (h : A → Run C)
    → ((a : A) → (f a >>= g) ≡ h a)
    → ((r >>= f) >>= g) ≡ (r >>= h)
>>=-assoc (done a) f g h same = same a
>>=-assoc spins f g h same = refl
>>=-assoc faults f g h same = refl
>>=-assoc starves f g h same = refl

-- What a call returns, if it returns, has the property.
abbrev pub After {ℓ} : {A : Type ℓ} → (A → Type 0) → Run A → Type 0
After P (done a) = P a
After P spins = Unit
After P faults = Unit
After P starves = Unit

pub After->>= {ℓ κ} :
    {A : Type ℓ} {B : Type κ} (P : A → Type 0) (Q : B → Type 0) (r : Run A) (f : A → Run B)
    → After P r
    → ((a : A) → P a → After Q (f a))
    → After Q (r >>= f)
After->>= P Q (done a) f is step = step a is
After->>= P Q spins f is step = tt
After->>= P Q faults f is step = tt
After->>= P Q starves f is step = tt

pub After-each {ℓ κ} :
    {A : Type ℓ} {B : Type κ} (Q : B → Type 0) (r : Run A) (f : A → Run B)
    → ((a : A) → After Q (f a))
    → After Q (r >>= f)
After-each Q (done a) f each = each a
After-each Q spins f each = tt
After-each Q faults f each = tt
After-each Q starves f each = tt

-- The outcomes of a call that does not return.
abbrev pub Fails {ℓ} : {A : Type ℓ} → Run A → Type 0
Fails (done a) = ⊥
Fails spins = Unit
Fails faults = Unit
Fails starves = Unit

pub Run-cases {ℓ} : {A : Type ℓ} (r : Run A) → ((a : A) × (r ≡ done a)) ⊎ Fails r
Run-cases (done a) = inl (a, refl)
Run-cases spins = inr tt
Run-cases faults = inr tt
Run-cases starves = inr tt

pub Fails->>= {ℓ κ} :
    {A : Type ℓ} {B : Type κ} (r : Run A) (f g : A → Run B) → Fails r → (r >>= f) ≡ (r >>= g)
Fails->>= (done a) f g is = elim is [ ]
Fails->>= spins f g is = refl
Fails->>= faults f g is = refl
Fails->>= starves f g is = refl
