-- ===== src/Menu/Outcomes.antt =====
-- What barrel_INPUT answers, on every branch.
use barrel_test.Base.{
  ◌==◌, if◌then◌else◌, Bool-cases, codes, ℕ, ◌≤◌, ◌<◌, ◌≡◌, refl, sym, ◌∙◌, subst, ◌≢◌, ◌⊎◌, inl,
  inr, Bool, true, false, ◌&&◌, Option, none, some, List, [], ◌∷◌, arith,
}
use barrel_test.Base.Int.{ℤ, pos, negsuc}
use barrel_test.Base.Run.{Run, After, done, spins, ◌>>=◌}
use barrel_test.Helpers.{Chars}
use barrel_test.Numbers.{str_to_int}
use barrel_test.Printing.{text_of, overlay}
use barrel_test.TypeInfo.{Layout}
use barrel_test.Collection.{has_flag}
use barrel_test.Barrel.{Service, node_count}
use barrel_test.Menu.Inputs.{asked, asked-kept, taken}
use barrel_test.Menu.{geet, Menu, say, key, indexing, is_bad_index, read_number, barrel_input}

-- The number in a line that is typed behind the request.
abbrev typed_number : ℕ → Menu → Chars → ℤ
typed_number options m line = str_to_int (text_of (overlay line (asked options m).buffer))

-- No index among `n` nodes.
abbrev IsOutside : ℕ → ℤ → Type 0
IsOutside n (pos i) = n ≤ i
IsOutside n (negsuc i) = Unit

geet-taken :
    (m : Menu) (line : Chars) (lines : List Chars)
    → m.lines ≡ line ∷ lines
    → geet m ≡ done (taken line lines m)
unfolding geet
geet-taken m line lines e = rw e refl

-- What barrel_INPUT comes to, by what is there and what is typed: the answer, and the menu behind
-- it.
pub data Outcome (layout : Layout) (options : ℕ) (m : Menu) : Run (Option ℤ × Menu) → Type 0 where
  no_node :
      has_flag options indexing ≡ true
      → node_count layout m.service ≡ 0
      → Outcome layout options m (done (none, say (codes "No Collections to write to!\n") m))
  waits :
      (has_flag options indexing ≡ false) ⊎ (0 < node_count layout m.service)
      → m.lines ≡ []
      → Outcome layout options m spins
  quits :
      {line : Chars} {lines : List Chars}
      → (has_flag options indexing ≡ false) ⊎ (0 < node_count layout m.service)
      → m.lines ≡ line ∷ lines
      → key (taken line lines (asked options m)) ≡ b'q'
      → Outcome layout options m (done (none, taken line lines (asked options m)))
  rejects :
      {line : Chars} {lines : List Chars}
      → has_flag options indexing ≡ true
      → 0 < node_count layout m.service
      → m.lines ≡ line ∷ lines
      → key (taken line lines (asked options m)) ≢ b'q'
      → IsOutside (node_count layout m.service) (typed_number options m line)
      → Outcome layout options m (
          done
            (none, say (codes "Bad index! Between 0 and %\n") (taken line lines (asked options m))))
  answers :
      {line : Chars} {lines : List Chars}
      → (has_flag options indexing ≡ false)
        ⊎ ((n : ℕ) × (typed_number options m line ≡ pos n) × (n < node_count layout m.service))
      → m.lines ≡ line ∷ lines
      → key (taken line lines (asked options m)) ≢ b'q'
      → Outcome layout options m
          (done (some (typed_number options m line), taken line lines (asked options m)))

outside :
    (layout : Layout) (s : Service) (i : ℤ)
    → is_bad_index layout s i ≡ true
    → IsOutside (node_count layout s) i
unfolding is_bad_index
outside layout s (pos n) h = ground arith
outside layout s (negsuc n) h = tt

inside :
    (layout : Layout) (s : Service) (i : ℤ)
    → is_bad_index layout s i ≡ false
    → (n : ℕ) × (i ≡ pos n) × (n < node_count layout s)
unfolding is_bad_index
inside layout s (pos n) h = (n, refl, ground arith)
inside layout s (negsuc n) h = absurd (ground arith)

read_number-stays :
    (layout : Layout) (options : ℕ) (m : Menu)
    → (key m == b'q') ≡ false
    → read_number layout options m ≡ (
        if has_flag options indexing
          && is_bad_index layout m.service (str_to_int (text_of m.buffer))
        then (none, say (codes "Bad index! Between 0 and %\n") m)
        else (some (str_to_int (text_of m.buffer)), m))
unfolding read_number
read_number-stays layout options m stay = rw stay refl

read_number-quits :
    (layout : Layout) (options : ℕ) (m : Menu)
    → (key m == b'q') ≡ true
    → read_number layout options m ≡ (none, m)
unfolding read_number
read_number-quits layout options m quit = rw quit refl

asked_index : {b : Bool} {n : ℕ} → (b ≡ false) ⊎ (0 < n) → b ≡ true → 0 < n
asked_index (inl plain) flag = absurd (ground arith)
asked_index (inr lt) flag = lt

-- A line that is taken, where a number may be asked for.
read_number-Outcome :
    (layout : Layout) (options : ℕ) (m : Menu) (line : Chars) (lines : List Chars)
    → (has_flag options indexing ≡ false) ⊎ (0 < node_count layout m.service)
    → m.lines ≡ line ∷ lines
    → Outcome layout options m
        (done (read_number layout options (taken line lines (asked options m))))
read_number-Outcome layout options m line lines asks e =
    let got = taken line lines (asked options m) in
    let index = typed_number options m line in
    let same : (asked options m).service ≡ m.service = (asked-kept options m).0 in
    elim (Bool-cases (key got == b'q')) [
      | inl quit ↦
          subst (λ r. Outcome layout options m (done r))
            (sym (read_number-quits layout options got quit)) (quits asks e (ground arith))
      | inr stay ↦
          subst (λ r. Outcome layout options m (done r))
            (sym (read_number-stays layout options got stay))
            (elim (Bool-cases (has_flag options indexing)) [
              | inr plain ↦ rw plain (answers (inl plain) e (λ h. ground arith))
              | inl flag ↦ elim (Bool-cases (is_bad_index layout got.service index)) [
                | inl bad ↦
                    rw (flag, bad)
                      (rejects flag (asked_index asks flag) e (λ h. ground arith)
                        (subst (λ s. IsOutside (node_count layout s) index) same
                          (outside layout got.service index bad)))
                | inr good ↦
                    let (n, is, lt) = inside layout got.service index good in
                    rw (flag, good)
                      (answers (inr (n, is, subst (λ s. n < node_count layout s) same lt)) e
                        (λ h. ground arith))
              ]
            ])
    ]

barrel_input-none :
    (layout : Layout) (options : ℕ) (m : Menu)
    → (has_flag options indexing && node_count layout m.service == 0) ≡ true
    → barrel_input layout options m ≡ done (none, say (codes "No Collections to write to!\n") m)
unfolding barrel_input
barrel_input-none layout options m nothing = rw nothing refl

barrel_input-asks :
    (layout : Layout) (options : ℕ) (m : Menu)
    → (has_flag options indexing && node_count layout m.service == 0) ≡ false
    → barrel_input layout options m
      ≡ (geet (asked options m) >>= λ m'. done (read_number layout options m'))
unfolding barrel_input
barrel_input-asks layout options m ask = rw ask refl

geet-none : (m : Menu) → m.lines ≡ [] → geet m ≡ spins
unfolding geet
geet-none m e = rw e refl

-- The two ways in which a number may be asked for.
asks-cases : (b : Bool) (n : ℕ) → (b && n == 0) ≡ false → (b ≡ false) ⊎ (0 < n)
asks-cases true n h = inr (ground arith)
asks-cases false n h = inl refl

asked-Outcome :
    (layout : Layout) (options : ℕ) (m : Menu)
    → (has_flag options indexing ≡ false) ⊎ (0 < node_count layout m.service)
    → Outcome layout options m
        (geet (asked options m) >>= λ m'. done (read_number layout options m'))
asked-Outcome layout options m asks = go m.lines refl
  where
    go :
        (lines : List Chars)
        → m.lines ≡ lines
        → Outcome layout options m
            (geet (asked options m) >>= λ m'. done (read_number layout options m'))
    go [] e =
        subst (λ r. Outcome layout options m (r >>= λ m'. done (read_number layout options m')))
          (sym (geet-none (asked options m) ((asked-kept options m).1 ∙ e))) (waits asks e)
    go (line ∷ lines) e =
        subst (λ r. Outcome layout options m (r >>= λ m'. done (read_number layout options m')))
          (sym (geet-taken (asked options m) line lines ((asked-kept options m).1 ∙ e)))
          (read_number-Outcome layout options m line lines asks e)

Outcome-service :
    {layout : Layout} {options : ℕ} {m : Menu} {r : Run (Option ℤ × Menu)}
    → Outcome layout options m r
    → After (λ a. a.1.service ≡ m.service) r
unfolding say
Outcome-service (no_node flag e) = refl
Outcome-service (waits asks e) = tt
Outcome-service {options = options} {m = m} (quits asks e q) = (asked-kept options m).0
Outcome-service {options = options} {m = m} (rejects flag lt e q bad) = (asked-kept options m).0
Outcome-service {options = options} {m = m} (answers asks e q) = (asked-kept options m).0

input-Outcome :
    (layout : Layout) (options : ℕ) (m : Menu)
    → Outcome layout options m (barrel_input layout options m)
input-Outcome layout options m =
    elim (Bool-cases (has_flag options indexing && node_count layout m.service == 0)) [
      | inl nothing ↦
          subst (Outcome layout options m) (sym (barrel_input-none layout options m nothing))
            (no_node (ground arith) (ground arith))
      | inr ask ↦
          let asks = asks-cases (has_flag options indexing) (node_count layout m.service) ask in
          subst (Outcome layout options m) (sym (barrel_input-asks layout options m ask))
            (asked-Outcome layout options m asks)
    ]

-- barrel_INPUT on every branch. Asked for an index where there is no node it says so and answers
-- none, and the line stays to be read. Else it waits where no line is typed. The line that is typed
-- is taken: a line that begins with 'q' answers none; an index that is negative, or not less than
-- the number of nodes, answers none with a message; and any other line answers the number that
-- strToInt reads, which is an index of a node if one was asked for. The service stays as it was.
pub barrel_input-Outcome :
    (layout : Layout) (options : ℕ) (m : Menu)
    → Outcome layout options m (barrel_input layout options m)
      × After (λ a. a.1.service ≡ m.service) (barrel_input layout options m)
barrel_input-Outcome layout options m =
    let outcome = input-Outcome layout options m in (outcome, Outcome-service outcome)
