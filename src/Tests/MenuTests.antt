-- ===== src/Tests/MenuTests.antt =====
-- What a user types at the menu.
use barrel_test.Base.{
  codes, length, replicate, ℕ, suc, ◌+◌, ◌≡◌, refl, Bool, true, false, Option, none, some, List, [],
  ◌∷◌, arith,
}
use barrel_test.Base.Int.{pos, ◌+ℤ◌}
use barrel_test.Base.Run.{Run, After, done, ◌>>=◌}
use barrel_test.Helpers.{Chars}
use barrel_test.Memory.Words.{store32, load32, load64}
use barrel_test.Heap.{System}
use barrel_test.Barrel.{Service, put_mem, get_unit_ptr}
use barrel_test.Menu.{Menu, barrel_input}
use barrel_test.Menu.Loop.{main_loop}
use barrel_test.Menu.Actions.{write_units, read_units, unit_index}
use barrel_test.Menu.OneUnit.{write_units-read_units, typed_word}
use barrel_test.Menu.Outcomes.{Outcome, barrel_input-Outcome}
use barrel_test.Menu.Sessions.{Session, with_rounds, main_loop-Session}
use barrel_test.Tests.Fixtures.{service, layout, struct_mem, int_name}

-- Two nodes, by the count of Omegus.
abbrev two_nodes : Service
two_nodes = put_mem service (store32 struct_mem 516 2)

abbrev typed : List Chars → Menu
typed lines = record {
  service = two_nodes;
  buffer = replicate 64 0;
  lines = lines;
  escape = false;
  shown = [];
}

abbrev system : System
system = record { heap_create = 100000; heap_set_information = true; create_thread = 1 }

barrel_input-Outcome_example :
    Outcome layout 3
      (typed (codes "1\r\n" ∷ []))
      (barrel_input layout 3 (typed (codes "1\r\n" ∷ [])))
    × After (λ a. a.1.service ≡ two_nodes) (barrel_input layout 3 (typed (codes "1\r\n" ∷ [])))
barrel_input-Outcome_example = barrel_input-Outcome layout 3 (typed (codes "1\r\n" ∷ []))

main_loop-Session_example :
    (r : Run Menu) × Session 9 system layout int_name int_name (typed (codes "q\r\n" ∷ [])) r
    × ((k : ℕ)
        → main_loop 9 system layout int_name int_name (suc (1 + k)) (typed (codes "q\r\n" ∷ []))
          ≡ with_rounds 9 system layout int_name int_name r)
main_loop-Session_example =
    main_loop-Session 9 system layout int_name int_name (typed (codes "q\r\n" ∷ []))

escape_of : Run (Option Menu) → Run (Option (ℕ × Bool))
escape_of r = r >>= λ o. done (elim o [ none ↦ none | some m' ↦ some (length m'.lines, m'.escape) ])

-- A 'q' ends the loop, and what was typed behind it is not read.
quit_test :
    escape_of (
      main_loop 9 system layout int_name int_name 5
        (typed (codes "m\r\n" ∷ codes "q\r\n" ∷ codes "n\r\n" ∷ [])))
    ≡ done (some (1, true))
unfolding escape_of main_loop
quit_test = refl

-- The node at 3000, and the place of its unit 1.
abbrev at_node : Menu
at_node = record (typed (codes "-7\r\n" ∷ [])) { service = service }

unit_place : get_unit_ptr service 3000 (unit_index (pos 1) (pos 0)) ≡ done 100068
unfolding get_unit_ptr load32 load64 ◌+ℤ◌
unit_place = refl

write_units-read_units_example :
    (m' m'' : Menu) × (write_units layout 3000 (pos 1) (pos 1) at_node ≡ done m')
    × (read_units layout 3000 (pos 1) (pos 1) m' ≡ done m'')
    × (m''.shown
        ≡ typed_word layout at_node 3000 (pos 1) 100068 (codes "-7\r\n") [] ∷ at_node.shown)
    × (m''.lines ≡ [])
write_units-read_units_example =
    write_units-read_units layout at_node 3000 (pos 1) 100068 (codes "-7\r\n") [] (omega arith)
      unit_place (omega arith) refl
