-- ===== src/Menu/Ending.antt =====
-- The lines that the actions of the menu leave to be typed.
use barrel_test.Base.{
  ◌==◌, if◌then◌else◌, codes, length, ℕ, zero, suc, ◌+◌, ◌≤◌, ◌≡◌, refl, ap, Bool, true, false,
  ◌&&◌, Option, none, some, List, [], ◌∷◌, arith,
}
use barrel_test.Base.Int.{ℤ, pos, negsuc, pos_part, neg_part, ◌+ℤ◌, ltb_ℤ}
use barrel_test.Base.Run.{Run, done, ◌>>=◌, After, After->>=, After-each}
use barrel_test.Helpers.{Chars, Word}
use barrel_test.TypeInfo.{Layout, Name}
use barrel_test.Barrel.{get_unit_ptr, Service, node_count, get_node}
use barrel_test.Menu.{
  Menu, say, geet, with_number, is_bad_index, read_number, barrel_input, indexing, quit_reminder,
}
use barrel_test.User.{resize}
use barrel_test.Barrel.Making
use barrel_test.Heap.{System}
use barrel_test.Menu.Actions.{
  request_resize, node_made, new_node, new_action, deref_node, write_units, read_units,
  write_action, read_action, resize_node, resized, resize_action, write_loop, read_loop, with_node,
  with_span, unit_index,
}
use barrel_test.Collection.{has_flag}
use barrel_test.Menu.Inputs.{read_number-kept, asked, asked-kept}

-- At most `n` lines are left.
abbrev pub AtMost : ℕ → Menu → Type 0
AtMost n m = length m.lines ≤ n

-- An action that leaves at most the lines that were there.
abbrev pub IsFrugal : (Menu → Run Menu) → Type 0
IsFrugal f = (n : ℕ) (m : Menu) → AtMost n m → After (AtMost n) (f m)

pub geet-takes : (n : ℕ) (m : Menu) → AtMost (suc n) m → After (AtMost n) (geet m)
unfolding geet
geet-takes n m le = go m.lines refl
  where
    go : (lines : List Chars) → m.lines ≡ lines → After (AtMost n) (geet m)
    go [] e = rw e tt
    go (line ∷ lines) e = rw e (omega (arith, ap length e))

geet-IsFrugal : IsFrugal geet
unfolding geet
geet-IsFrugal n m le = go m.lines refl
  where
    go : (lines : List Chars) → m.lines ≡ lines → After (AtMost n) (geet m)
    go [] e = rw e tt
    go (line ∷ lines) e = rw e (omega (arith, ap length e))

pub if-After :
    {A : Type 0} (P : A → Type 0) (b : Bool) (x y : Run A)
    → After P x
    → After P y
    → After P (if b then x else y)
if-After P true x y is_x is_y = is_x
if-After P false x y is_x is_y = is_y

barrel_input-AtMost :
    (layout : Layout) (options n : ℕ) (m : Menu)
    → AtMost n m
    → After (λ r. AtMost n r.1) (barrel_input layout options m)
unfolding barrel_input say
barrel_input-AtMost layout options n m le =
    let same = (asked-kept options m).1 in
    if-After (λ r. AtMost n r.1) (has_flag options indexing && node_count layout m.service == 0) _ _
      le
      (After->>= (AtMost n) (λ r. AtMost n r.1) (geet (asked options m))
        (λ m'. done (read_number layout options m'))
        (geet-IsFrugal n (asked options m) (omega (arith, le, ap length same)))
        (λ m' le'. omega (arith, le', ap length (read_number-kept layout options m').1)))

with_number-AtMost :
    (f : ℤ → Menu → Run Menu) (n : ℕ) (r : Option ℤ × Menu)
    → ((i : ℤ) → IsFrugal (f i))
    → AtMost n r.1
    → After (AtMost n) (with_number f r)
with_number-AtMost f n (none, m) frugal le = le
with_number-AtMost f n (some i, m) frugal le = frugal i n m le

-- An action that asks for a number first.
asks-IsFrugal :
    (layout : Layout) (options : ℕ) (f : ℤ → Menu → Run Menu)
    → ((i : ℤ) → IsFrugal (f i))
    → IsFrugal (λ m. barrel_input layout options m >>= with_number f)
asks-IsFrugal layout options f frugal n m le =
    After->>= (λ r. AtMost n r.1) (AtMost n) (barrel_input layout options m) (with_number f)
      (barrel_input-AtMost layout options n m le) (λ r. with_number-AtMost f n r frugal)

with_node-IsFrugal :
    (layout : Layout) (f : Word → Menu → Run Menu)
    → ((node : Word) → IsFrugal (f node))
    → (i : ℤ) → IsFrugal (with_node layout f i)
unfolding with_node say
with_node-IsFrugal layout f frugal i n m le =
    if-After (AtMost n) (is_bad_index layout m.service i) _ _ le
      (frugal (get_node layout m.service i) n m le)

with_span-IsFrugal :
    (layout : Layout) (f : Word → ℤ → ℤ → Menu → Run Menu)
    → ((node : Word) (start delta : ℤ) → IsFrugal (f node start delta))
    → (node : Word) → IsFrugal (with_span layout f node)
unfolding with_span
with_span-IsFrugal layout f frugal node =
    asks-IsFrugal layout 0 (λ start m'. barrel_input layout 0 m' >>= with_number (f node start))
      (λ start. asks-IsFrugal layout 0 (f node start) (frugal node start))

write_loop-IsFrugal :
    (k : ℕ) (node : Word) (start step i : ℤ) → IsFrugal (write_loop k node start step i)
unfolding write_loop say
write_loop-IsFrugal zero node start step i n m le = le
write_loop-IsFrugal (suc k) node start step i n m le =
    let asked = say (codes "Input new param (% remaining): ") m in
    After-each (AtMost n) (get_unit_ptr m.service node (unit_index start i)) _ (λ ptr.
      After->>= (AtMost n) (AtMost n) (geet asked) _ (geet-IsFrugal n asked le)
        (λ m' le'. write_loop-IsFrugal k node start step (i +ℤ step) n _ le'))

read_loop-IsFrugal : (k : ℕ) (node : Word) (start i : ℤ) → IsFrugal (read_loop k node start i)
unfolding read_loop say
read_loop-IsFrugal zero node start i n m le = le
read_loop-IsFrugal (suc k) node start i n m le =
    After-each (AtMost n) (get_unit_ptr m.service node (unit_index start i)) _
      (λ ptr. read_loop-IsFrugal k node start (i +ℤ pos 1) n _ le)

deref_node-AtMost :
    (n : ℕ) (node : Word) (f : Word → Run Menu)
    → ((p : Word) → After (AtMost n) (f p))
    → After (AtMost n) (deref_node node f)
unfolding deref_node
deref_node-AtMost n node f each = if-After (AtMost n) (node == 0) _ _ tt (each node)

write_units-IsFrugal :
    (layout : Layout) (node : Word) (start delta : ℤ)
    → IsFrugal (write_units layout node start delta)
unfolding write_units say
write_units-IsFrugal layout node start delta n m le =
    let count = pos_part delta + neg_part delta in
    let step = if ltb_ℤ delta (pos 0) then negsuc 0 else pos 1 in
    After->>= (AtMost n) (AtMost n)
      (if count == 0
        then done m
        else deref_node node (λ p. write_loop count p start step (pos 0) m))
      _
      (if-After (AtMost n) (count == 0) _ _ le (
        deref_node-AtMost n node (λ p. write_loop count p start step (pos 0) m)
          (λ p. write_loop-IsFrugal count p start step (pos 0) n m le)))
      (λ m' le'. le')

read_units-IsFrugal :
    (layout : Layout) (node : Word) (start delta : ℤ)
    → IsFrugal (read_units layout node start delta)
unfolding read_units
read_units-IsFrugal layout node start delta n m le =
    if-After (AtMost n) (pos_part delta == 0) _ _ le (
      deref_node-AtMost n node (λ p. read_loop (pos_part delta) p start (pos 0) m)
        (λ p. read_loop-IsFrugal (pos_part delta) p start (pos 0) n m le))

pub write_action-IsFrugal : (layout : Layout) → IsFrugal (write_action layout)
unfolding write_action
write_action-IsFrugal layout =
    asks-IsFrugal layout (quit_reminder + indexing)
      (with_node layout (with_span layout (write_units layout)))
      (with_node-IsFrugal layout (with_span layout (write_units layout))
        (with_span-IsFrugal layout (write_units layout) (write_units-IsFrugal layout)))

pub read_action-IsFrugal : (layout : Layout) → IsFrugal (read_action layout)
unfolding read_action
read_action-IsFrugal layout =
    asks-IsFrugal layout (quit_reminder + indexing)
      (with_node layout (with_span layout (read_units layout)))
      (with_node-IsFrugal layout (with_span layout (read_units layout))
        (with_span-IsFrugal layout (read_units layout) (read_units-IsFrugal layout)))

resize_node-IsFrugal :
    (fuel : ℕ) (layout : Layout) (node : Word) (size : ℤ)
    → IsFrugal (resize_node fuel layout node size)
unfolding resize_node say resized
resize_node-IsFrugal fuel layout node size n m le =
    if-After (AtMost n) (ltb_ℤ size (pos 0)) _ _ le (
      deref_node-AtMost n node _
        (λ p. After-each (AtMost n) (resize fuel layout m.service p (pos_part size)) _ (λ r. le)))

pub resize_action-IsFrugal : (fuel : ℕ) (layout : Layout) → IsFrugal (resize_action fuel layout)
unfolding resize_action
resize_action-IsFrugal fuel layout = asks-IsFrugal layout (quit_reminder + indexing) _ (
    with_node-IsFrugal layout _ (λ node.
      asks-IsFrugal layout 0 (resize_node fuel layout node)
        (resize_node-IsFrugal fuel layout node)))

module _ (fuel : ℕ) (system : System) (layout : Layout) (node_name int_name : Name) where
  node_made-AtMost :
      (capacity n : ℕ) (m : Menu) (r : Word × Service)
      → AtMost n m
      → After (AtMost n) (node_made fuel system layout node_name int_name capacity m r)
  unfolding node_made say resized
  node_made-AtMost capacity n m (node, s) le =
      if-After (AtMost n) (node == 0) _ _ le
        (After-each (AtMost n) (request_resize fuel layout s node capacity) _ (λ s'. le))

  new_node-IsFrugal :
      (capacity : ℤ) → IsFrugal (new_node fuel system layout node_name int_name capacity)
  unfolding new_node say
  new_node-IsFrugal capacity n m le = if-After (AtMost n) (ltb_ℤ capacity (pos 1)) _ _ le (
      After-each (AtMost n)
        (Making.ctor fuel system layout node_name m.service int_name 4 0 0 (pos_part capacity)) _
        (λ r. node_made-AtMost (pos_part capacity) n m r le))

  pub new_action-IsFrugal : IsFrugal (new_action fuel system layout node_name int_name)
  unfolding new_action
  new_action-IsFrugal =
      asks-IsFrugal layout quit_reminder (new_node fuel system layout node_name int_name)
        new_node-IsFrugal
