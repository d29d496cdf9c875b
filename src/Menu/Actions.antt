-- ===== src/Menu/Actions.antt =====
-- BarrelTest.c: the actions of the menu and its loop.
use barrel_test.Base.{◌==◌, if◌then◌else◌, codes, ℕ, zero, suc, ◌+◌, true, [], ◌∷◌}
use barrel_test.Base.Int.{ℤ, pos, negsuc, pos_part, neg_part, ◌+ℤ◌, ltb_ℤ, u32_mod, wrap_word}
use barrel_test.Base.Run.{Run, done, faults, ◌>>=◌}
use barrel_test.Enums.{param_option_code, t_resize, manage, t_variant, t_trg, t_count}
use barrel_test.Helpers.{Word}
use barrel_test.Memory.Words.{load32, store32}
use barrel_test.Numbers.{str_to_int}
use barrel_test.Printing.{text_of}
use barrel_test.TypeInfo.{Name, Layout}
use barrel_test.Heap.{System}
use barrel_test.Barrel.{Service, mem, put_mem, get_node, get_unit_ptr}
use barrel_test.Barrel.Making
use barrel_test.User.{p_, make_request, call_methods, resize}
use barrel_test.Menu.{
  show, Menu, put_service, say, geet, barrel_input, is_bad_index, with_number, quit_reminder,
  indexing,
}

-- barrelTest_ESCAPE.
unfoldable pub escape_action : Menu → Run Menu
escape_action m = done (record m { escape = true })

-- barrelTest_REMOVE.
unfoldable pub remove_action : Menu → Run Menu
remove_action m = done m

-- What the service says when it starts to resize a node.
unfoldable pub resized : Menu → Service → Menu
unfolding say
resized m s = say (codes "DeltaSize Request: %\n") (put_service m s)

-- A pointer that is followed: NULL faults.
unfoldable pub deref_node : Word → (Word → Run Menu) → Run Menu
deref_node node f = if node == 0 then faults else f node

-- The `i`-th unit from `start` on, as the unsigned parameter of Barrel_GetUnitPtr.
abbrev pub unit_index : ℤ → ℤ → ℕ
unit_index start i = wrap_word u32_mod (start +ℤ i)

-- The loop of barrelTest_WRITE at `i`, with `n` units left to write and steps of `step`.
unfoldable pub write_loop : ℕ → Word → ℤ → ℤ → ℤ → Menu → Run Menu
unfolding say geet str_to_int get_unit_ptr
write_loop zero node start step i m = done m
write_loop (suc n) node start step i m = do
  let asked = say (codes "Input new param (% remaining): ") m
  ptr ← get_unit_ptr asked.service node (unit_index start i)
  m' ← geet asked
  let value = wrap_word u32_mod (str_to_int (text_of m'.buffer))
  write_loop n node start step (i +ℤ step)
      (put_service m' (put_mem m'.service (store32 (mem m'.service) ptr value)))

-- The loop of barrelTest_READ at `i`, with `n` units left to show.
unfoldable pub read_loop : ℕ → Word → ℤ → ℤ → Menu → Run Menu
unfolding say get_unit_ptr
read_loop zero node start i m = done m
read_loop (suc n) node start i m = do
  ptr ← get_unit_ptr m.service node (unit_index start i)
  read_loop n node start (i +ℤ pos 1) (say (codes "[%]: %\n") (show (load32 (mem m.service) ptr) m))

module _ (layout : Layout) where
  -- What follows the choice of a node: its index is tested again.
  unfoldable pub with_node : (Word → Menu → Run Menu) → ℤ → Menu → Run Menu
  unfolding is_bad_index say get_node
  with_node f index m =
      if is_bad_index layout m.service index
      then done (say (codes "Bad index! Between 0 and %\n") m)
      else f (get_node layout m.service index) m

  unfoldable pub write_units : Word → ℤ → ℤ → Menu → Run Menu
  unfolding write_loop deref_node say
  write_units node start delta m =
      let count = pos_part delta + neg_part delta in
      let step = if ltb_ℤ delta (pos 0) then negsuc 0 else pos 1 in
      do
        m' ←
            (if count == 0
              then done m
              else deref_node node (λ n. write_loop count n start step (pos 0) m))
        done (say (codes "Write Complete!\n") m')

  -- The two numbers that barrelTest_WRITE and barrelTest_READ ask for next.
  unfoldable pub with_span : (Word → ℤ → ℤ → Menu → Run Menu) → Word → Menu → Run Menu
  unfolding barrel_input
  with_span f node m = do
    r ← barrel_input layout 0 m
    with_number (λ start m'. do r' ← barrel_input layout 0 m'; with_number (f node start) r') r

  -- barrelTest_WRITE.
  unfoldable pub write_action : Menu → Run Menu
  unfolding with_node with_span write_units barrel_input
  write_action m = do
    r ← barrel_input layout (quit_reminder + indexing) m
    with_number (with_node (with_span write_units)) r

  -- The loop of barrelTest_READ runs while `i < delta`: not at all for a negative delta.
  unfoldable pub read_units : Word → ℤ → ℤ → Menu → Run Menu
  unfolding read_loop deref_node
  read_units node start delta m =
      if pos_part delta == 0
      then done m
      else deref_node node (λ n. read_loop (pos_part delta) n start (pos 0) m)

  -- barrelTest_READ.
  unfoldable pub read_action : Menu → Run Menu
  unfolding with_node with_span read_units barrel_input
  read_action m = do
    r ← barrel_input layout (quit_reminder + indexing) m
    with_number (with_node (with_span read_units)) r

module _ (fuel : ℕ) (layout : Layout) where
  unfoldable pub resize_node : Word → ℤ → Menu → Run Menu
  unfolding say resized resize deref_node
  resize_node node size m =
      if ltb_ℤ size (pos 0)
      then done (say (codes "New size must be 0 or greater!\n") m)
      else deref_node node
          (λ n. do (b, s) ← resize fuel layout m.service n (pos_part size); done (resized m s))

  -- barrelTest_RESIZE.
  unfoldable pub resize_action : Menu → Run Menu
  unfolding with_node resize_node barrel_input
  resize_action m = do
    r ← barrel_input layout (quit_reminder + indexing) m
    with_number
        (with_node layout
          (λ node m'. do r' ← barrel_input layout 0 m'; with_number (resize_node node) r'))
        r

-- The request of barrelTest_NEW to resize its new node.
unfoldable pub request_resize : ℕ → Layout → Service → Word → ℕ → Run Service
unfolding make_request call_methods
request_resize fuel layout s node capacity = do
  r ←
      make_request manage
        (p_ t_variant (param_option_code t_resize) ∷ p_ t_trg node ∷ p_ t_count capacity ∷ [])
  a ← call_methods fuel layout s node r
  done a.service

module _ (fuel : ℕ) (system : System) (layout : Layout) (node_name int_name : Name) where
  -- barrelTest_NEW behind Barrel_ctor.
  unfoldable pub node_made : ℕ → Menu → Word × Service → Run Menu
  unfolding say resized request_resize
  node_made capacity m (node, s) =
      if node == 0 then done (say (codes "Node failed to create!\n") (put_service m s)) else (do
        let made = say (codes "Node created!\n") (put_service m s)
        s' ← request_resize fuel layout s node capacity
        done (resized made s'))

  unfoldable pub new_node : ℤ → Menu → Run Menu
  unfolding node_made say
  new_node capacity m =
      if ltb_ℤ capacity (pos 1)
      then done (say (codes "Bad Capacity! Must be greater than 0: %\n") m)
      else (do
        r ← Making.ctor fuel system layout node_name m.service int_name 4 0 0 (pos_part capacity)
        node_made (pos_part capacity) m r)

  -- barrelTest_NEW.
  unfoldable pub new_action : Menu → Run Menu
  unfolding new_node barrel_input
  new_action m = do r ← barrel_input layout quit_reminder m; with_number new_node r
