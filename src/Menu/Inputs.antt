-- ===== src/Menu/Inputs.antt =====
-- What barrel_INPUT keeps of the menu.
use barrel_test.Base.{◌==◌, if◌then◌else◌, Bool-cases, codes, ℕ, ◌≡◌, refl, inl, inr, ◌&&◌, List}
use barrel_test.Helpers.{Chars}
use barrel_test.Numbers.{str_to_int}
use barrel_test.Printing.{text_of, overlay}
use barrel_test.TypeInfo.{Layout}
use barrel_test.Collection.{has_flag}
use barrel_test.Menu.{quit_reminder, Menu, say, key, indexing, is_bad_index, read_number}

pub read_number-kept :
    (layout : Layout) (options : ℕ) (m : Menu)
    → ((read_number layout options m).1.service ≡ m.service)
      × ((read_number layout options m).1.lines ≡ m.lines)
unfolding read_number say
read_number-kept layout options m =
    let index = str_to_int (text_of m.buffer) in
    elim (Bool-cases (key m == b'q')) [
      | inl quit ↦ rw quit (refl, refl)
      | inr stay ↦
          elim (Bool-cases (has_flag options indexing && is_bad_index layout m.service index)) [
            | inl bad ↦ rw (stay, bad) (refl, refl)
            | inr good ↦ rw (stay, good) (refl, refl)
          ]
    ]

-- The menu behind the request of barrel_INPUT, and behind the line that is read.
abbrev pub asked : ℕ → Menu → Menu
asked options m = say (codes "%: ") (
    if has_flag options quit_reminder then say (codes "At any time, enter 'q' to leave\n") m else m)

pub asked-kept :
    (options : ℕ) (m : Menu)
    → ((asked options m).service ≡ m.service) × ((asked options m).lines ≡ m.lines)
unfolding say
asked-kept options m = elim (Bool-cases (has_flag options quit_reminder)) [
  | inl reminder ↦ rw reminder (refl, refl)
  | inr plain ↦ rw plain (refl, refl)
]

abbrev pub taken : Chars → List Chars → Menu → Menu
taken line lines m = record m { buffer = overlay line m.buffer; lines = lines }
