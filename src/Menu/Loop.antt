-- ===== src/Menu/Loop.antt =====
-- BarrelTest.c: the view of the heap, the keys of the menu, and its loop.
use barrel_test.Base.{
  ◌==◌, if◌then◌else◌, codes, ℕ, zero, suc, ◌+◌, ◌*◌, Option, none, some, List, [], ◌∷◌,
}
use barrel_test.Base.Run.{Run, done, ◌>>=◌}
use barrel_test.Memory.Words.{load32}
use barrel_test.TypeInfo.{Name, Layout}
use barrel_test.Heap.{System}
use barrel_test.Heap
use barrel_test.Collection.{count_of}
use barrel_test.Barrel.{mem, node_count, barrel_count, barrel_offset, barrel_start}
use barrel_test.Barrel.Making.{start_service}
use barrel_test.Menu.{Menu, put_service, say, show, geet, key}
use barrel_test.Menu.Actions.{
  escape_action, remove_action, new_action, resize_action, write_action, read_action,
}

-- The first loop of barrelTest_VIEW_HEAP at `i`: every round shows the node at the heap's head.
unfoldable pub view_nodes : ℕ → ℕ → Menu → Menu
unfolding say Heap.head
view_nodes zero i m = m
view_nodes (suc n) i m =
    let node = Heap.head m.service.heap in
    let words = mem m.service in
    view_nodes n (i + 1) (
      say (codes "[%]: % | % | % | %\n") (
        show (barrel_start words node) (
          show (barrel_offset words node)
            (show (count_of words node) (show (barrel_count words node) (show i m))))))

-- The `n` words from word `i` of the heap on.
unfoldable pub view_words : ℕ → ℕ → Menu → Menu
unfolding say Heap.head
view_words zero i m = m
view_words (suc n) i m =
    let word = load32 (mem m.service) (Heap.head m.service.heap + 4 * i) in
    view_words n (i + 1) (say (codes "| % ") (show word m))

-- The second loop, with `n` rows of eight words left.
unfoldable pub view_rows : ℕ → ℕ → Menu → Menu
unfolding say view_words
view_rows zero i m = m
view_rows (suc n) i m =
    view_rows n (i + 1) (say (codes "||\n") (view_words 8 (i * 8) (say (codes "|") m)))

-- barrelTest_VIEW_HEAP.
unfoldable pub view_action : Layout → Menu → Run Menu
unfolding say view_nodes view_rows node_count
view_action layout m =
    let titled = say (codes "bCount | vCount | offset | bStart \n") m in
    let nodes = view_nodes (node_count layout m.service) 0 titled in
    done (view_rows 32 0 (say (codes "\n[HEEP MAP]\n") nodes))

-- The `_action` of a ButtonAction.
pub data Action : Type 0 where
  escape new remove resize read write view clear : Action

-- mainMenuActions.
abbrev pub main_menu_actions : List (ℕ × Action)
main_menu_actions =
    (b'q', escape)
    ∷ (b'n', new)
    ∷ (b'm', remove)
    ∷ (b's', resize)
    ∷ (b'r', read)
    ∷ (b'w', write)
    ∷ (b'v', view)
    ∷ (b'c', clear)
    ∷ []

-- The menu as it is shown, line by line.
unfoldable pub show_menu : List (ℕ × Action) → Menu → Menu
unfolding say
show_menu [] m = m
show_menu (a ∷ actions) m = show_menu actions (say (codes "[%] - %\n") m)

module _ (fuel : ℕ) (system : System) (layout : Layout) (node_name int_name : Name) where
  unfoldable pub run_action : Action → Menu → Run Menu
  unfolding escape_action remove_action new_action resize_action write_action read_action
      view_action
  run_action action m = elim action [
    | escape ↦ escape_action m
    | new ↦ new_action fuel system layout node_name int_name m
    | remove ↦ remove_action m
    | resize ↦ resize_action fuel layout m
    | read ↦ read_action layout m
    | write ↦ write_action layout m
    | view ↦ view_action layout m
    | clear ↦ done m
  ]

  -- The loop over the actions behind Geet: each key is compared with what then stands first in the
  -- buffer, which an action that ran may have changed.
  unfoldable pub dispatch : List (ℕ × Action) → Menu → Run Menu
  unfolding run_action
  dispatch [] m = done m
  dispatch ((key_press, action) ∷ actions) m =
      if key_press == key m
      then (do m' ← run_action action m; dispatch actions m')
      else dispatch actions m

  -- One round of barrelTest_MAIN.
  unfoldable pub main_round : Menu → Run Menu
  unfolding say show_menu geet dispatch
  main_round m = do
    m' ← geet (show_menu main_menu_actions (say (codes "[ Total Current Nodes: % ]\n") m))
    dispatch main_menu_actions m'

  -- barrelTest_MAIN, for at most `rounds` rounds: `none` where they are used up.
  unfoldable pub main_loop : ℕ → Menu → Run (Option Menu)
  unfolding main_round
  main_loop zero m = done none
  main_loop (suc rounds) m =
      if m.escape then done (some m) else (do m' ← main_round m; main_loop rounds m')

  -- barrelTest.
  unfoldable pub barrel_test_main : ℕ → Menu → Run (Option Menu)
  unfolding say start_service main_loop
  barrel_test_main rounds m = do
    (started, s) ← start_service fuel system layout node_name m.service
    let m' = put_service (say (codes "Barrel Testing...\n\n") m) s
    if started
        then main_loop rounds m'
        else done (some (say (codes "Services failed to start!\n") m'))
