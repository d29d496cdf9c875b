-- ===== src/Menu/Sessions.antt =====
-- What becomes of barrelTest_MAIN, against the lines that are typed.
use barrel_test.Base.Run.{Run}
use barrel_test.Base.Run.{Run}
use barrel_test.Base.Run.{Run}
use barrel_test.Base.Run.{Run}
use barrel_test.Base.{
  if◌then◌else◌, Bool-cases, length, ℕ, zero, suc, ◌+◌, ◌≤◌, ◌<◌, ◌≡◌, refl, ap, ◌∙◌, subst, ◌⊎◌,
  inl, inr, true, false, Option, some, List, [], ◌∷◌, arith,
}
use barrel_test.Base.Run.{Run, done, spins, ◌>>=◌, After, Fails, Fails->>=, Run-cases}
use barrel_test.Helpers.{Chars}
use barrel_test.TypeInfo.{Name, Layout}
use barrel_test.Heap.{System}
use barrel_test.Menu.{Menu}
use barrel_test.Menu.Loop.{main_round, main_loop}
use barrel_test.Menu.Rounds.{main_round-takes, main_round-waits}
use barrel_test.Menu.Ending.{AtMost}

lines-cases : (lines : List Chars) → (lines ≡ []) ⊎ ((j : ℕ) × (length lines ≡ suc j))
lines-cases [] = inl refl
lines-cases (line ∷ lines) = inr (length lines, refl)

module _ (fuel : ℕ) (system : System) (layout : Layout) (node_name int_name : Name) where
  -- What becomes of barrelTest_MAIN, whatever the number of its rounds: it leaves where ESCAPE is
  -- set, waits where no line is left, goes on behind a round that returns with fewer lines left, and
  -- stops where a line is left but a round does not return: an action in it waits at a lock, faults,
  -- or wants the fuel of its own loops.
  pub data Session : Menu → Run Menu → Type 0 where
    leaves : {m : Menu} → m.escape ≡ true → Session m (done m)
    waits : {m : Menu} → m.escape ≡ false → m.lines ≡ [] → Session m spins
    goes_on :
        {m m' : Menu} {r : Run Menu}
        → m.escape ≡ false
        → main_round fuel system layout node_name int_name m ≡ done m'
        → length m'.lines < length m.lines
        → Session m' r
        → Session m r
    stops :
        {m : Menu}
        → m.escape ≡ false
        → 0 < length m.lines
        → Fails (main_round fuel system layout node_name int_name m)
        → Session m (main_round fuel system layout node_name int_name m)

  -- What the loop makes of the outcome, where its rounds suffice.
  abbrev pub with_rounds : Run Menu → Run (Option Menu)
  with_rounds r = r >>= λ m. done (some m)

  -- The outcome, and that more rounds than lines give it.
  abbrev Settled : Menu → Type 0
  Settled m =
      (r : Run Menu) × Session m r
      × ((t : ℕ)
          → length m.lines < t
          → main_loop fuel system layout node_name int_name t m ≡ with_rounds r)

  main_loop-leaves :
      (t : ℕ) (m : Menu)
      → m.escape ≡ true
      → main_loop fuel system layout node_name int_name (suc t) m ≡ done (some m)
  unfolding main_loop
  main_loop-leaves t m out =
      ap
        (λ b.
          if b
          then done (some m)
          else (main_round fuel system layout node_name int_name m
              >>= main_loop fuel system layout node_name int_name t))
        out

  main_loop-goes_on :
      (t : ℕ) (m : Menu)
      → m.escape ≡ false
      → main_loop fuel system layout node_name int_name (suc t) m ≡ (
          main_round fuel system layout node_name int_name m
          >>= main_loop fuel system layout node_name int_name t)
  unfolding main_loop
  main_loop-goes_on t m stay =
      ap
        (λ b.
          if b
          then done (some m)
          else (main_round fuel system layout node_name int_name m
              >>= main_loop fuel system layout node_name int_name t))
        stay

  leaves-Settled : (m : Menu) → m.escape ≡ true → Settled m
  leaves-Settled m out = (done m, leaves out, go)
    where
      go :
          (t : ℕ)
          → length m.lines < t
          → main_loop fuel system layout node_name int_name t m ≡ done (some m)
      go zero lt = absurd (omega (arith, lt))
      go (suc t) lt = main_loop-leaves t m out

  waits-Settled : (m : Menu) → m.escape ≡ false → m.lines ≡ [] → Settled m
  waits-Settled m stay e = (spins, waits stay e, go)
    where
      go :
          (t : ℕ) → length m.lines < t → main_loop fuel system layout node_name int_name t m ≡ spins
      go zero lt = absurd (omega (arith, lt))
      go (suc t) lt =
          main_loop-goes_on t m stay
          ∙ ap (λ r. r >>= main_loop fuel system layout node_name int_name t)
              (main_round-waits fuel system layout node_name int_name m
                (omega (arith, ap length e)))

  stops-Settled :
      (m : Menu)
      → m.escape ≡ false
      → 0 < length m.lines
      → Fails (main_round fuel system layout node_name int_name m)
      → Settled m
  stops-Settled m stay typed fails =
      (main_round fuel system layout node_name int_name m, stops stay typed fails, go)
    where
      go :
          (t : ℕ)
          → length m.lines < t
          → main_loop fuel system layout node_name int_name t m
            ≡ with_rounds (main_round fuel system layout node_name int_name m)
      go zero lt = absurd (omega (arith, lt))
      go (suc t) lt =
          main_loop-goes_on t m stay
          ∙ Fails->>= (main_round fuel system layout node_name int_name m)
              (main_loop fuel system layout node_name int_name t) (λ m. done (some m)) fails

  goes_on-Settled :
      (m m' : Menu)
      → m.escape ≡ false
      → main_round fuel system layout node_name int_name m ≡ done m'
      → length m'.lines < length m.lines
      → Settled m'
      → Settled m
  goes_on-Settled m m' stay e fewer (r, session, same) = (r, goes_on stay e fewer session, go)
    where
      go :
          (t : ℕ)
          → length m.lines < t
          → main_loop fuel system layout node_name int_name t m ≡ with_rounds r
      go zero lt = absurd (omega (arith, lt))
      go (suc t) lt =
          main_loop-goes_on t m stay
          ∙ ap (λ r. r >>= main_loop fuel system layout node_name int_name t) e
          ∙ same t (omega (arith, fewer, lt))

  round-Settled :
      (m : Menu) (j : ℕ)
      → m.escape ≡ false
      → length m.lines ≡ suc j
      → ((m' : Menu) → length m'.lines ≤ j → Settled m')
      → Settled m
  round-Settled m j stay e rest =
      elim (Run-cases (main_round fuel system layout node_name int_name m)) [
        | inl (m', back) ↦
            let left : length m'.lines ≤ j =
              subst (After (AtMost j)) back
                (main_round-takes fuel system layout node_name int_name j m (omega (arith, e))) in
            goes_on-Settled m m' stay back (omega (arith, left, e)) (rest m' left)
        | inr fails ↦ stops-Settled m stay (omega (arith, e)) fails
      ]

  main_loop-Settled : (n : ℕ) (m : Menu) → length m.lines ≤ n → Settled m
  main_loop-Settled zero m le = elim (Bool-cases m.escape) [
    | inl out ↦ leaves-Settled m out
    | inr stay ↦ elim (lines-cases m.lines) [
      | inl e ↦ waits-Settled m stay e
      | inr (j, e) ↦ absurd (omega (arith, le, e))
    ]
  ]
  main_loop-Settled (suc n) m le = elim (Bool-cases m.escape) [
    | inl out ↦ leaves-Settled m out
    | inr stay ↦ elim (lines-cases m.lines) [
      | inl e ↦ waits-Settled m stay e
      | inr (j, e) ↦
          round-Settled m j stay e (λ m' left. main_loop-Settled n m' (omega (arith, left, e, le)))
    ]
  ]

  -- barrelTest_MAIN never stops for want of rounds: for the lines that are there it has an outcome,
  -- and with one round more than there are lines, or with any more, the loop has that outcome: it
  -- leaves where ESCAPE is set, waits where no line is left, goes on behind a round that returns,
  -- which leaves fewer lines, and stops where a round does not return.
  pub main_loop-Session :
      (m : Menu)
      → (r : Run Menu) × Session m r
        × ((k : ℕ)
            → main_loop fuel system layout node_name int_name (suc (length m.lines + k)) m
              ≡ with_rounds r)
  main_loop-Session m =
      let (r, session, same) = main_loop-Settled (length m.lines) m (omega arith) in
      (r, session, λ k. same (suc (length m.lines + k)) (omega arith))
