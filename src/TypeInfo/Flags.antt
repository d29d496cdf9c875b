-- ===== src/TypeInfo/Flags.antt =====
-- The flags that TypeInfo_BuildTypeFlags and TypeInfo_BuildMemFlags read off a type's name.
use barrel_test.Base.{codes, length, length-append, ◌<◌, ◌≡◌, ap, inl, inr, false, arith}
use barrel_test.Enums.{type_flag_code, type_def}
use barrel_test.Helpers.{Chars, NulFree}
use barrel_test.Helpers.Text.{find_sub_string_lem}
use barrel_test.TypeInfo.{finds, build_type_flags, build_mem_flags}

-- A text longer than the word is not found in it: the search asks for the name in the word.
finds_long :
    (name word : Chars) → NulFree name → length word < length name → finds name word ≡ false
finds_long name word free long =
    let (values, iff) = find_sub_string_lem name word free in
    elim values [
      | inl hit ↦
          let (ne, (rest, e)) = iff.0 hit in
          absurd (omega (arith, ap length e, length-append name rest))
      | inr miss ↦ rw miss
    ]

-- No name of more than eight characters is recognised: it counts as TYPE_DEF, with no flag for
-- its memory.
pub build_flags_long :
    (name : Chars)
    → NulFree name
    → 8 < length name
    → (build_type_flags name ≡ type_flag_code type_def) × (build_mem_flags name ≡ 0)
unfolding build_type_flags build_mem_flags
build_flags_long name free long = (
  rw (
    finds_long name (codes "unsigned") free long,
    finds_long name (codes "float") free (omega arith),
    finds_long name (codes "double") free (omega arith),
    finds_long name (codes "int") free (omega arith),
    finds_long name (codes "long") free (omega arith),
    finds_long name (codes "short") free (omega arith),
    finds_long name (codes "char") free (omega arith),
  ),
  rw (
    finds_long name (codes "const") free (omega arith),
    finds_long name (codes "static") free (omega arith),
    finds_long name (codes "volatile") free long,
  ),
)
