-- ===== src/Menu/OneUnit.antt =====
-- barrelTest_WRITE of one unit followed by barrelTest_READ of it.
use barrel_test.Base.{==_false, codes, ℕ, ◌+◌, ◌<◌, ◌≡◌, refl, ap, ◌≢◌, List, ◌∷◌, arith}
use barrel_test.Base.Int.{ℤ, pos, negsuc, u32_mod, wrap_word}
use barrel_test.Base.Run.{done}
use barrel_test.Helpers.{Chars, Word}
use barrel_test.Memory.{Mem}
use barrel_test.Memory.Words.{
  Apart, SameAt, load32, store32, byte-store32, load32-SameAt, load64-SameAt, load32-store32,
}
use barrel_test.Numbers.{str_to_int}
use barrel_test.Printing.{overlay, text_of}
use barrel_test.TypeInfo.{Layout}
use barrel_test.Collection.{unit_size, type_at, extensions_at}
use barrel_test.Barrel.{Service, mem, put_mem, get_unit_ptr}
use barrel_test.Menu.{Menu, say, show, geet, marked}
use barrel_test.Menu.Actions.{
  write_units, read_units, write_loop, read_loop, deref_node, unit_index,
}

wrap-lt : (z : ℤ) → wrap_word u32_mod z < 4294967296
wrap-lt (pos n) = omega arith
wrap-lt (negsuc n) = omega arith

-- Where a unit lies depends on the bytes of the node's struct.
get_unit_ptr-SameAt :
    (s : Service) (m : Mem) (node : Word) (index : ℕ)
    → SameAt node 32 (mem s) m
    → get_unit_ptr (put_mem s m) node index ≡ get_unit_ptr s node index
unfolding get_unit_ptr unit_size type_at extensions_at
get_unit_ptr-SameAt s m node index same =
    rw
      (
        load64-SameAt (mem s) m node (λ b lo hi. same b (omega arith) (omega arith)),
        load32-SameAt (mem s) m (node + 16) (λ b lo hi. same b (omega arith) (omega arith)),
        load32-SameAt (mem s) m (node + 20) (λ b lo hi. same b (omega arith) (omega arith)),
        load32-SameAt (mem s) m (node + 24) (λ b lo hi. same b (omega arith) (omega arith)),
      )
      refl

module _ (layout : Layout) (m : Menu) (node : Word) (start : ℤ) (ptr : Word) (line : Chars)
    (lines : List Chars) where
  -- The buffer behind the line that is typed, and the word that it stands for.
  abbrev typed_buffer : List ℕ
  typed_buffer = overlay line (overlay (marked (codes "Input new param (% remaining): ")) m.buffer)

  abbrev pub typed_word : ℕ
  typed_word = wrap_word u32_mod (str_to_int (text_of typed_buffer))

  abbrev stored : Service
  stored = put_mem m.service (store32 (mem m.service) ptr typed_word)

  still_there :
      Apart ptr 4 node 32
      → get_unit_ptr stored node (unit_index start (pos 0))
        ≡ get_unit_ptr m.service node (unit_index start (pos 0))
  still_there apart =
      get_unit_ptr-SameAt m.service (store32 (mem m.service) ptr typed_word) node
        (unit_index start (pos 0))
        (λ b lo hi. byte-store32 (mem m.service) ptr typed_word b (omega arith))

  -- barrelTest_WRITE of one unit reads a line, and barrelTest_READ of one unit from the same start
  -- then shows the word that strToInt makes of it. The node is not NULL, its unit has a place that
  -- does not overlap the node's struct, and a line is there to be typed.
  pub write_units-read_units :
      node ≢ 0
      → get_unit_ptr m.service node (unit_index start (pos 0)) ≡ done ptr
      → Apart ptr 4 node 32
      → m.lines ≡ line ∷ lines
      → (m' m'' : Menu) × (write_units layout node start (pos 1) m ≡ done m')
        × (read_units layout node start (pos 1) m' ≡ done m'')
        × (m''.shown ≡ typed_word ∷ m.shown)
        × (m''.lines ≡ lines)
  unfolding write_units read_units write_loop read_loop deref_node say geet
  write_units-read_units ne at apart typed =
      let m' =
        say (codes "Write Complete!\n")
          (record m { service = stored; buffer = typed_buffer; lines = lines }) in
      (
        m',
        say (codes "[%]: %\n") (show (load32 (mem stored) ptr) m'),
        rw (==_false node 0 ne, at, typed) refl,
        rw (==_false node 0 ne, still_there apart, at) refl,
        ap (λ w. w ∷ m.shown)
            (load32-store32 (mem m.service) ptr typed_word
              (wrap-lt (str_to_int (text_of typed_buffer)))),
        refl,
      )
