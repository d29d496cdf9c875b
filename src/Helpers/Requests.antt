-- ===== src/Helpers/Requests.antt =====
-- What CreateRequest writes into the slots of a request.
use mathlib.Core.Bool.{false≢true}
use native.Mathlib.Decide.{dec_lt}
use barrel_test.Base.{
  ◌==◌, if◌then◌else◌, Bool-cases, ==_iff, length, get_or, set, length-set, get_or-set_self,
  get_or-set_ne, ℕ, zero, suc, ◌+◌, ◌≤◌, ◌<◌, ◌≡◌, refl, ap, ◌∙◌, inl, inr, Bool, true, false, none,
  some, List, [], ◌∷◌, arith,
}
use barrel_test.Base.Int.{pos_part}
use barrel_test.Enums.{max_param_count, RequestType}
use barrel_test.Helpers.{
  Word, Parameter, Request, none_word, none_loop, in_slots, assign_loop, create_request, param,
}

-- The last parameter before the end marker that names slot `i`, or else the value `d`.
unfoldable pub last_given : List Parameter → ℕ → Word → Word
last_given [] i d = d
last_given (p ∷ params) i d =
    if in_slots p.type then last_given params i (if pos_part p.type == i then p.ptr else d) else d

-- Some parameter is an end marker.
unfoldable pub ends : List Parameter → Bool
ends [] = false
ends (p ∷ params) = if in_slots p.type then ends params else true

length-none_loop : (n i : ℕ) (buffer : List Word) → length (none_loop n i buffer) ≡ length buffer
unfolding none_loop
length-none_loop zero i buffer = refl
length-none_loop (suc n) i buffer =
    length-none_loop n (i + 1) (set buffer i none_word) ∙ length-set buffer i none_word

none_loop_below :
    (n i j : ℕ) (buffer : List Word) → j < i → get_or (none_loop n i buffer) j 0 ≡ get_or buffer j 0
unfolding none_loop
none_loop_below zero i j buffer h = refl
none_loop_below (suc n) i j buffer h =
    none_loop_below n (i + 1) j (set buffer i none_word) (omega arith)
    ∙ get_or-set_ne buffer i j none_word 0 (omega arith)

none_loop_in :
    (n i j : ℕ) (buffer : List Word)
    → i ≤ j
    → j < i + n
    → j < length buffer
    → get_or (none_loop n i buffer) j 0 ≡ none_word
unfolding none_loop
none_loop_in zero i j buffer le lt fits = absurd (omega arith)
none_loop_in (suc n) i j buffer le lt fits = elim (dec_lt i j) [
  | yes p ↦
      none_loop_in n (i + 1) j (set buffer i none_word) (omega arith) (omega arith)
        (omega (arith, length-set buffer i none_word))
  | no p ↦
      let e : i ≡ j = omega arith in
      rw e (
        none_loop_below n (j + 1) j (set buffer j none_word) (omega arith)
        ∙ get_or-set_self buffer j none_word 0 fits)
]

assign_loop_total :
    (params : List Parameter) (buffer : List Word)
    → ends params ≡ true
    → (b : List Word) × (assign_loop params buffer ≡ some b)
      × (length b ≡ length buffer)
      × ((i : ℕ) → i < length buffer → get_or b i 0 ≡ last_given params i (get_or buffer i 0))
unfolding assign_loop last_given ends
assign_loop_total [] buffer h = absurd (false≢true h)
assign_loop_total (p ∷ params) buffer h = elim (Bool-cases (in_slots p.type)) [
  | inl slot ↦
      let b' = set buffer (pos_part p.type) p.ptr in
      let (b, e, len, got) = assign_loop_total params b' (rw slot at h) in
      (
        b,
        rw slot e,
        len ∙ length-set buffer (pos_part p.type) p.ptr,
        λ i lt. rw slot (
            got i (omega (arith, length-set buffer (pos_part p.type) p.ptr))
            ∙ ap (last_given params i) (get_or-set buffer (pos_part p.type) i p.ptr lt)),
      )
  | inr end ↦ (buffer, rw end, refl, λ i lt. rw end)
]
  where
    get_or-set :
        (xs : List Word) (i j : ℕ) (v : Word)
        → j < length xs
        → get_or (set xs i v) j 0 ≡ (if i == j then v else get_or xs j 0)
    get_or-set xs i j v lt = elim (Bool-cases (i == j)) [
      | inl same ↦ let e : i ≡ j = (==_iff i j).0 same in rw (same, e) (get_or-set_self xs j v 0 lt)
      | inr other ↦ rw other (get_or-set_ne xs i j v 0 (ground arith))
    ]

-- With an end marker among the parameters and a buffer of at least sixteen words, CreateRequest
-- returns a request of the type asked for; each of its sixteen slots holds the last pointer that
-- was given for it before the marker, or NONE if none was.
pub create_request_lem :
    (type : RequestType) (params : List Parameter) (buffer : List Word)
    → ends params ≡ true
    → max_param_count ≤ length buffer
    → (r : Request) × (create_request type params buffer ≡ some r)
      × (r.type ≡ type)
      × ((i : ℕ) → i < max_param_count → param r i ≡ last_given params i none_word)
unfolding create_request
create_request_lem type params buffer h fits =
    let filled = none_loop max_param_count 0 buffer in
    let len : length filled ≡ length buffer = length-none_loop max_param_count 0 buffer in
    let (b, e, same, got) = assign_loop_total params filled h in
    (
      record { type = type; params = b },
      rw e,
      refl,
      λ i lt.
          got i (omega arith)
          ∙ ap (last_given params i)
              (none_loop_in max_param_count 0 i buffer (omega arith) (omega arith) (omega arith)),
    )

assign_loop-none :
    (params : List Parameter) (b : List Word) → ends params ≡ false → assign_loop params b ≡ none
unfolding assign_loop ends
assign_loop-none [] b h = refl
assign_loop-none (p ∷ params) b h =
    ground (arith, assign_loop-none params (set b (pos_part p.type) p.ptr))

-- Without an end marker the loop reads behind the array.
pub create_request-none :
    (type : RequestType) (params : List Parameter) (buffer : List Word)
    → ends params ≡ false
    → create_request type params buffer ≡ none
unfolding create_request
create_request-none type params buffer h =
    rw (assign_loop-none params (none_loop max_param_count 0 buffer) h)
