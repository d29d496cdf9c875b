-- ===== src/Collection.antt =====
-- The core of tCollection.c: the registry of collection extensions and the spin lock of a
-- collection. A collection is a struct in memory: a pointer to its extensions (8 bytes), its count
-- and its lock (4 bytes each). A pointer to an entry of a registry is 1 + the entry's index.
pub mod Registry
pub mod Lock
use barrel_test.Base.{
  ltb, leb, ◌==◌, if◌then◌else◌, Bool-cases, ==_iff, ==_false, ==_refl, ltb→lt, lt→ltb, ltb-false,
  codes, length, get_elem?, get_or, set, replicate, All, length-append, length-set,
  length-replicate, get_or-set_self, get_or-set_ne, get_or-replicate, get_elem?-append_left,
  get_elem?-append_last, ℕ, zero, suc, ◌+◌, ◌-◌, ◌*◌, ◌/◌, ◌%◌, ◌^◌, ◌≤◌, ◌<◌, ◌≡◌, refl, sym, ap,
  ◌∙◌, subst, ◌≢◌, ◌↔◌, ◌⊎◌, inl, inr, Bool, true, false, not, ◌&&◌, ◌||◌, Option, none, some, List,
  [], ◌∷◌, ◌++◌, map, append-nil, append_assoc, arith,
}
use barrel_test.Base.Int.{
  ℤ, pos, negsuc, pos_part, neg_part, sub_ℕ, ◌+ℤ◌, neg, ltb_ℤ, eqb_ℤ, ◌≤ℤ◌, u32_mod, u64_mod,
  wrap_word, to_int, sub32, sub64, add64, mul64,
}
use barrel_test.Base.Run.{Run, done, spins, faults, ◌>>=◌, of_option}
use barrel_test.Enums.{mem_flag_code, read_only}
use barrel_test.Helpers.{Word}
use barrel_test.Memory.{Mem}
use barrel_test.Memory.Words.{load32, store32, load64, store64}
use barrel_test.TypeInfo.{TypeInfo, Bins, test_type_bin_count, type_info_compare}

pub record CollectionExtensions : Type 0 where
  pub type : Word
  pub methods : Word
  pub mem_flags : ℕ

abbrev pub no_extensions : CollectionExtensions
no_extensions = record { type = 0; methods = 0; mem_flags = 0 }

-- The two functions that are ever registered as methods.
abbrev pub bucket_methods_ptr : Word
bucket_methods_ptr = 1

abbrev pub barrel_extensions_ptr : Word
barrel_extensions_ptr = 2

-- The statics of the program and its memory, `bins.mem`.
pub record World : Type 0 where
  pub bins : Bins
  pub extensions : List CollectionExtensions
  pub extension_count : ℕ

abbrev pub set_mem : World → Mem → World
set_mem w m = record w { bins = record w.bins { mem = m } }

-- The pointer to an entry, NULL if there is none.
abbrev pub entry_ptr : Option ℕ → Word
entry_ptr none = 0
entry_ptr (some i) = suc i

abbrev pub deref {ℓ} : {A : Type ℓ} → List A → Word → Run A
deref entries zero = faults
deref entries (suc i) = of_option (get_elem? entries i)

-- Collection_Compare.
unfoldable pub compare : CollectionExtensions → CollectionExtensions → Bool
compare a b = a.methods == b.methods && (a.type == b.type && a.mem_flags == b.mem_flags)

-- `flags & e` for a flag that is a power of two.
abbrev pub has_flag : ℕ → ℕ → Bool
has_flag flags e = flags / e % 2 == 1

-- Collection_TranscribeCompare.
unfoldable pub transcribe_compare : World → CollectionExtensions → CollectionExtensions → Run Bool
transcribe_compare w trg src =
    if has_flag trg.mem_flags (mem_flag_code read_only) then done false else (do
      a ← deref w.bins.types trg.type
      b ← deref w.bins.types src.type
      done (type_info_compare a b))

-- CollectionExtensions_Create.
unfoldable pub extensions_create : Word → Word → ℕ → CollectionExtensions
extensions_create type methods mem_flags = record {
  type = type;
  methods = methods;
  mem_flags = mem_flags;
}

unfoldable pub extension_scan : ℕ → List CollectionExtensions → ℕ → CollectionExtensions → Option ℕ
unfolding compare
extension_scan zero entries i new_info = none
extension_scan (suc n) [] i new_info = none
extension_scan (suc n) (e ∷ entries) i new_info =
    if compare e new_info then some i else extension_scan n entries (i + 1) new_info

-- What Collection_GetExtensions does when its scan has ended.
unfoldable pub answer_extensions : World → CollectionExtensions → Option ℕ → Word × World
answer_extensions w new_info (some i) = (entry_ptr (some i), w)
answer_extensions w new_info none = if leb test_type_bin_count w.extension_count then (0, w) else (
  entry_ptr (some w.extension_count),
  record w {
    extensions = set w.extensions w.extension_count new_info;
    extension_count = w.extension_count + 1;
  },
)

-- Collection_GetExtensions.
unfoldable pub get_extensions : World → Word → Word → ℕ → Word × World
unfolding extension_scan answer_extensions extensions_create
get_extensions w type methods mem_flags =
    let new_info = extensions_create type methods mem_flags in
    answer_extensions w new_info (extension_scan w.extension_count w.extensions 0 new_info)

-- Collection_GetRawExtensions.
unfoldable pub get_raw_extensions : World → CollectionExtensions → Word × World
unfolding get_extensions
get_raw_extensions w src = get_extensions w src.type bucket_methods_ptr src.mem_flags

-- The fields of the Collection at `p`.
abbrev pub extensions_of : Mem → Word → Word
extensions_of m p = load64 m p

abbrev pub count_of : Mem → Word → ℕ
count_of m p = load32 m (p + 8)

abbrev pub lock_of : Mem → Word → ℕ
lock_of m p = load32 m (p + 12)

-- Collection_Create, stored at `p`: its extensions, its count, and a free lock.
unfoldable pub create : Mem → Word → Word → ℕ → Mem
create m p extensions count = store32 (store32 (store64 m p extensions) (p + 8) count) (p + 12) 0

-- Collection_Request: with nobody else to release the lock, a taken lock is waited for for ever.
unfoldable pub request : Mem → Word → Run Mem
request m p = if lock_of m p == 0 then done (store32 m (p + 12) 1) else spins

-- Collection_Release.
unfoldable pub release : Mem → Word → Mem
release m p = store32 m (p + 12) 0

-- The extensions, the type and the unit size of the collection at `p`.
unfoldable pub extensions_at : World → Word → Run CollectionExtensions
extensions_at w p = deref w.extensions (extensions_of w.bins.mem p)

unfoldable pub type_at : World → Word → Run TypeInfo
unfolding extensions_at
type_at w p = do e ← extensions_at w p; deref w.bins.types e.type

-- TypeInfo_Size.
unfoldable pub unit_size : World → Word → Run ℕ
unfolding type_at
unit_size w p = do t ← type_at w p; done t.size

-- TypeInfo_Name.
unfoldable pub type_name : World → Word → Run Word
unfolding type_at
type_name w p = do t ← type_at w p; done t.name.address
