-- ===== src/TypeInfo.antt =====
-- The registries of tTypeInfo.c: the bin of type descriptions, the bin of properties, and the page
-- that keeps the templates of null values.
--
-- A pointer to an entry of a bin is the entry's index. A name is a pointer to a C string: the type
-- bin compares the pointers, the property bin the texts.
pub mod Registry
pub mod Lookup
pub mod Properties
pub mod Templates
pub mod Flags
use barrel_test.Base.{
  ltb, leb, ◌==◌, if◌then◌else◌, Bool-cases, ==_iff, ==_false, ==_refl, ltb→lt, lt→ltb, ltb-false,
  codes, length, get_elem?, get_or, set, replicate, All, length-append, length-set,
  length-replicate, get_or-set_self, get_or-set_ne, get_or-replicate, get_elem?-append_left,
  get_elem?-append_last, get_elem?-set_self, get_elem?-set_ne, get_elem?-set-some, ℕ, zero, suc,
  ◌+◌, ◌-◌, ◌*◌, ◌/◌, ◌%◌, ◌^◌, ◌≤◌, ◌<◌, ◌≡◌, refl, sym, ap, ◌∙◌, subst, ◌≢◌, ◌↔◌, ◌⊎◌, inl, inr,
  Bool, true, false, not, ◌&&◌, ◌||◌, Option, none, some, List, [], ◌∷◌, ◌++◌, map, append-nil,
  append_assoc, arith,
}
use barrel_test.Base.Int.{
  ℤ, pos, negsuc, pos_part, neg_part, sub_ℕ, ◌+ℤ◌, neg, ltb_ℤ, eqb_ℤ, ◌≤ℤ◌, u32_mod, u64_mod,
  wrap_word, to_int, sub32, sub64, add64, mul64,
}
use barrel_test.Enums.{
  t_variant, t_name, t_size, sizeof_page, mem_flag_code, read_only, fixed_size, static, volatile,
  type_flag_code, alpha, integral, floating, type_def, unsigned,
}
use barrel_test.Helpers.{
  Chars, Word, Request, slot, slot_code, default_string_compare, find_sub_string,
}
use barrel_test.Memory.{Mem, raw_transcribe}

-- testTypeBinCount and testPropertyBinCount.
abbrev pub test_type_bin_count : ℕ
test_type_bin_count = 32

abbrev pub test_property_bin_count : ℕ
test_property_bin_count = 64

pub record Name : Type 0 where
  pub address : ℕ
  pub text : Chars

abbrev pub null_name : Name
null_name = record { address = 0; text = [] }

pub record TypeInfo : Type 0 where
  pub name : Name
  pub size : ℕ
  pub null_loc : ℕ

-- An entry of the zeroed static array.
abbrev pub no_type : TypeInfo
no_type = record { name = null_name; size = 0; null_loc = 0 }

pub record Property : Type 0 where
  pub name : Name
  pub type : Option ℕ

abbrev pub no_property : Property
no_property = record { name = null_name; type = none }

-- The statics of the file, and the memory that holds the template page.
pub record Bins : Type 0 where
  pub types : List TypeInfo
  pub type_count : ℕ
  pub properties : List Property
  pub property_count : ℕ
  pub null_head : ℕ
  pub mem : Mem

-- What lies where the linker put it: the template page, the words behind the type bin that the scan
-- of TypeInfo_GetNullable reads as names, and the first barrel node (GlobalBarrelService.Omegus).
pub record Layout : Type 0 where
  pub null_bin : ℕ
  pub omegus : ℕ
  pub behind : List TypeInfo

unfoldable pub type_info_compare : TypeInfo → TypeInfo → Bool
type_info_compare a b = default_string_compare a.name.text b.name.text

-- `&testNullBin + sizeof(Page)` steps over whole pages: the sum is scaled by the page's size.
unfoldable pub end_of_page : Layout → ℕ
end_of_page layout = layout.null_bin + sizeof_page * sizeof_page

unfoldable pub get_nullable_template : Layout → Bins → ℕ → ℕ → ℕ × Bins
unfolding end_of_page
get_nullable_template layout bins size null_loc =
    if null_loc == 0
    then (0, bins)
    else if ltb (end_of_page layout) (bins.null_head + size)
    then (0, bins)
    else (
      bins.null_head,
      record bins {
        mem = raw_transcribe bins.mem bins.null_head null_loc size;
        null_head = bins.null_head + size;
      },
    )

-- `for (i = 0; i < n; i++) if (bin[i]._name == name) return i`, over the entries from `i` on.
unfoldable pub type_scan : ℕ → List TypeInfo → ℕ → ℕ → Option ℕ
type_scan zero entries i name = none
type_scan (suc n) [] i name = none
type_scan (suc n) (t ∷ entries) i name =
    if t.name.address == name then some i else type_scan n entries (i + 1) name

-- The new entry of TypeInfo_GetNullable, behind the last one.
unfoldable pub add_type : Bins → Name → ℕ → ℕ × Bins → Option ℕ × Bins
add_type bins name size (null_tmp, bins') = (
  some bins.type_count,
  record bins' {
    types =
        set bins'.types bins.type_count (record { name = name; size = size; null_loc = null_tmp });
    type_count = bins.type_count + 1;
  },
)

-- What TypeInfo_GetNullable does when its scan has ended.
unfoldable pub answer_type : Layout → Bins → Name → ℕ → ℕ → Option ℕ → Option ℕ × Bins
unfolding add_type
answer_type layout bins name size null_loc (some i) = (some i, bins)
answer_type layout bins name size null_loc none =
    if leb test_type_bin_count bins.type_count
    then (none, bins)
    else add_type bins name size (get_nullable_template layout bins size null_loc)

unfoldable pub get_nullable : Layout → Bins → Name → ℕ → ℕ → Option ℕ × Bins
unfolding type_scan answer_type
get_nullable layout bins name size null_loc =
    answer_type layout bins name size null_loc
      (type_scan test_property_bin_count (bins.types ++ layout.behind) 0 name.address)

-- TypeInfo_Get.
unfoldable pub get : Layout → Bins → Name → ℕ → Option ℕ × Bins
unfolding get_nullable
get layout bins name size = get_nullable layout bins name size 0

unfoldable pub property_scan : ℕ → List Property → ℕ → Chars → Option ℕ
property_scan zero entries i name = none
property_scan (suc n) [] i name = none
property_scan (suc n) (p ∷ entries) i name =
    if default_string_compare p.name.text name then some i else property_scan n entries (i + 1) name

-- What Property_Get does when its scan has ended.
unfoldable pub answer_property : Bins → Name → Option ℕ → Option ℕ → Option ℕ × Bins
answer_property bins name info (some i) = (some i, bins)
answer_property bins name info none =
    if leb test_property_bin_count bins.property_count then (none, bins) else (
      some bins.property_count,
      record bins {
        properties = set bins.properties bins.property_count (record { name = name; type = info });
        property_count = bins.property_count + 1;
      },
    )

unfoldable pub property_get : Bins → Name → Option ℕ → Option ℕ × Bins
unfolding property_scan answer_property
property_get bins name info =
    answer_property bins name info (property_scan bins.property_count bins.properties 0 name.text)

-- `findSubString(name, word) > -1`.
abbrev pub finds : Chars → Chars → Bool
finds name word = ltb_ℤ (negsuc 0) (find_sub_string name word)

-- TypeInfo_BuildTypeFlags. The flags are disjoint bits, so `|=` is a sum.
unfoldable pub build_type_flags : Chars → ℕ
build_type_flags name =
    (if finds name (codes "unsigned") then type_flag_code unsigned else 0)
    + (if finds name (codes "float") || finds name (codes "double")
        then type_flag_code floating
        else if finds name (codes "int")
            || (finds name (codes "long") || finds name (codes "short"))
        then type_flag_code integral
        else if finds name (codes "char")
        then type_flag_code alpha
        else type_flag_code type_def)

-- TypeInfo_BuildMemFlags.
unfoldable pub build_mem_flags : Chars → ℕ
build_mem_flags name =
    (if finds name (codes "const") then mem_flag_code read_only + mem_flag_code fixed_size else 0)
    + (if finds name (codes "static") then mem_flag_code static else 0)
    + (if finds name (codes "volatile") then mem_flag_code volatile else 0)

-- What TypeInfo_GetInfo stores: an address and the word put there.
abbrev pub Store : Type 0
Store = Option (Word × Word)

-- TypeInfo_GetInfo: `name_word` and `size_word` are what it reads as the two first fields of the
-- TypeInfo that slot tSRC points to. Each answer goes to the address in the slot of its own name.
unfoldable pub get_info : Word → Word → Request → Bool × Store
get_info name_word size_word request =
    if slot request t_variant % u32_mod == slot_code t_name
    then (true, some (slot request t_name, name_word))
    else if slot request t_variant % u32_mod == slot_code t_size
    then (true, some (slot request t_size, size_word))
    else (false, none)
