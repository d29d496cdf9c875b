-- ===== src/Tests/HelperTests.antt =====
-- The helpers on texts and requests of tHelpers.c at small inputs.
use barrel_test.Base.{
  codes, replicate, ℕ, ◌+◌, ◌%◌, ◌^◌, ◌<◌, ◌≡◌, refl, ◌≢◌, ◌↔◌, ◌⊎◌, true, some, List, [], ◌∷◌,
  arith,
}
use barrel_test.Base.Int.{pos, negsuc, u32_mod}
use barrel_test.Enums.{info, t_variant, t_trg, max_param_count}
use barrel_test.Helpers.{
  Request, Parameter, none_word, param, create_request, default_string_compare, find_sub_string,
  param_count, param_count0, pow,
}
use barrel_test.Helpers.Text.{IsPrefix, default_string_compare_iff, find_sub_string_lem}
use barrel_test.Helpers.Params.{Balanced, done, plain, nest, top_commas, param_count0_lem, pow_lem}
use barrel_test.Helpers.Requests.{last_given, create_request_lem}
use barrel_test.User.{p_, null_param}

default_string_compare_iff_example :
    (default_string_compare (codes "ab") (codes "ac") ≡ true) ↔ (codes "ab" ≡ codes "ac")
default_string_compare_iff_example =
    default_string_compare_iff (codes "ab") (codes "ac") (omega arith, (omega arith, tt))
      (omega arith, (omega arith, tt))

find_sub_string_lem_test :
    ((find_sub_string (codes "in") (codes "int") ≡ pos 0)
      ⊎ (find_sub_string (codes "in") (codes "int") ≡ negsuc 0))
    × ((find_sub_string (codes "in") (codes "int") ≡ pos 0)
        ↔ ((codes "int" ≢ []) × IsPrefix (codes "in") (codes "int")))
find_sub_string_lem_test =
    find_sub_string_lem (codes "in") (codes "int") (omega arith, (omega arith, tt))

-- "a,(b,c)".
brackets : Balanced (codes "a,(b,c)")
brackets = plain _ refl refl (
    plain _ refl refl (
      nest {s = codes "b,c"} {t = []} _ _ refl refl refl
        (plain _ refl refl (plain _ refl refl (plain _ refl refl done))) done))

param_count0_lem_example : param_count0 (codes "a,(b,c)") ≡ 1 + top_commas brackets
param_count0_lem_example = param_count0_lem brackets (omega arith)

pow_lem_test : pow 10 11 ≡ 10 ^ 11 % u32_mod
pow_lem_test = pow_lem 10 11

abbrev two_params : List Parameter
two_params = p_ t_variant 7 ∷ p_ t_trg 1000 ∷ null_param ∷ []

create_request_lem_example :
    (r : Request) × (create_request info two_params (replicate 17 0) ≡ some r)
    × (r.type ≡ info)
    × ((i : ℕ) → i < max_param_count → param r i ≡ last_given two_params i none_word)
unfolding barrel_test.Helpers.Requests.ends
create_request_lem_example = create_request_lem info two_params (replicate 17 0) refl (omega arith)
