-- ===== src/Menu/Rounds.antt =====
-- The rounds of barrelTest_MAIN against the lines that are typed.
use barrel_test.Base.{
  ◌==◌, codes, length, ℕ, zero, suc, ◌+◌, ◌*◌, ◌≡◌, refl, ap, ◌∙◌, List, [], ◌∷◌, arith,
}
use barrel_test.Base.Run.{spins, ◌>>=◌, After, After->>=}
use barrel_test.Helpers.{Chars}
use barrel_test.TypeInfo.{Name, Layout}
use barrel_test.Heap.{System}
use barrel_test.Barrel.{node_count}
use barrel_test.Menu.{Menu, say, geet, key}
use barrel_test.Menu.Actions.{escape_action, remove_action}
use barrel_test.Menu.Loop.{
  Action, escape, new, remove, resize, read, write, view, clear, view_action, run_action, dispatch,
  show_menu, main_round, view_nodes, view_words, view_rows, main_menu_actions,
}
use barrel_test.Menu.Ending.{
  AtMost, IsFrugal, geet-takes, write_action-IsFrugal, read_action-IsFrugal, resize_action-IsFrugal,
  new_action-IsFrugal, if-After,
}

view_nodes-lines : (n i : ℕ) (m : Menu) → (view_nodes n i m).lines ≡ m.lines
unfolding view_nodes say
view_nodes-lines zero i m = refl
view_nodes-lines (suc n) i m = view_nodes-lines n (i + 1) _

view_words-lines : (n i : ℕ) (m : Menu) → (view_words n i m).lines ≡ m.lines
unfolding view_words say
view_words-lines zero i m = refl
view_words-lines (suc n) i m = view_words-lines n (i + 1) _

view_rows-lines : (n i : ℕ) (m : Menu) → (view_rows n i m).lines ≡ m.lines
unfolding view_rows say
view_rows-lines zero i m = refl
view_rows-lines (suc n) i m =
    view_rows-lines n (i + 1) _ ∙ view_words-lines 8 (i * 8) (say (codes "|") m)

show_menu-lines : (actions : List (ℕ × Action)) (m : Menu) → (show_menu actions m).lines ≡ m.lines
unfolding show_menu say
show_menu-lines [] m = refl
show_menu-lines (a ∷ actions) m = show_menu-lines actions _

view_action-IsFrugal : (layout : Layout) → IsFrugal (view_action layout)
unfolding view_action say
view_action-IsFrugal layout n m le =
    let titled = say (codes "bCount | vCount | offset | bStart \n") m in
    let nodes = view_nodes (node_count layout m.service) 0 titled in
    let same =
      view_rows-lines 32 0 (say (codes "\n[HEEP MAP]\n") nodes)
      ∙ view_nodes-lines (node_count layout m.service) 0 titled in
    omega (arith, le, ap length same)

geet-waits : (m : Menu) → AtMost 0 m → geet m ≡ spins
unfolding geet
geet-waits m le = go m.lines refl
  where
    go : (lines : List Chars) → m.lines ≡ lines → geet m ≡ spins
    go [] e = rw e refl
    go (line ∷ lines) e = absurd (omega (arith, le, ap length e))

module _ (fuel : ℕ) (system : System) (layout : Layout) (node_name int_name : Name) where
  run_action-IsFrugal :
      (action : Action) → IsFrugal (run_action fuel system layout node_name int_name action)
  unfolding run_action escape_action remove_action
  run_action-IsFrugal escape n m le = le
  run_action-IsFrugal new n m le = new_action-IsFrugal fuel system layout node_name int_name n m le
  run_action-IsFrugal remove n m le = le
  run_action-IsFrugal resize n m le = resize_action-IsFrugal fuel layout n m le
  run_action-IsFrugal read n m le = read_action-IsFrugal layout n m le
  run_action-IsFrugal write n m le = write_action-IsFrugal layout n m le
  run_action-IsFrugal view n m le = view_action-IsFrugal layout n m le
  run_action-IsFrugal clear n m le = le

  dispatch-IsFrugal :
      (actions : List (ℕ × Action))
      → IsFrugal (dispatch fuel system layout node_name int_name actions)
  unfolding dispatch
  dispatch-IsFrugal [] n m le = le
  dispatch-IsFrugal ((key_press, action) ∷ actions) n m le =
      if-After (AtMost n) (key_press == key m) _ _
        (After->>= (AtMost n) (AtMost n) (run_action fuel system layout node_name int_name action m)
          (dispatch fuel system layout node_name int_name actions)
          (run_action-IsFrugal action n m le) (dispatch-IsFrugal actions n))
        (dispatch-IsFrugal actions n m le)

  abbrev greeted : Menu → Menu
  greeted m = show_menu main_menu_actions (say (codes "[ Total Current Nodes: % ]\n") m)

  pub main_round-takes :
      (n : ℕ) (m : Menu)
      → AtMost (suc n) m
      → After (AtMost n) (main_round fuel system layout node_name int_name m)
  unfolding main_round say
  main_round-takes n m le =
      let same = show_menu-lines main_menu_actions (say (codes "[ Total Current Nodes: % ]\n") m) in
      After->>= (AtMost n) (AtMost n) (geet (greeted m))
        (dispatch fuel system layout node_name int_name main_menu_actions)
        (geet-takes n (greeted m) (omega (arith, le, ap length same)))
        (dispatch-IsFrugal main_menu_actions n)

  pub main_round-waits :
      (m : Menu) → AtMost 0 m → main_round fuel system layout node_name int_name m ≡ spins
  unfolding main_round
  main_round-waits m le =
      let same = show_menu-lines main_menu_actions (say (codes "[ Total Current Nodes: % ]\n") m) in
      ap (λ r. r >>= dispatch fuel system layout node_name int_name main_menu_actions)
        (geet-waits (greeted m) (omega (arith, le, ap length same)))
