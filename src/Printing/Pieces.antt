-- ===== src/Printing/Pieces.antt =====
-- What Preent writes, without its buffer: the pieces of the format text and its parameters in turn.
use barrel_test.Base.Run.{>>=-assoc, Run, done, ◌>>=◌}
use native.Mathlib.Nat.{add_assoc, add-zero}
use barrel_test.Base.{
  ◌==◌, if◌then◌else◌, Bool-cases, ==_false, length, drop, set, length-append, length-set, ℕ, zero,
  suc, ◌+◌, ◌-◌, ◌<◌, ◌≡◌, refl, sym, ap, ◌∙◌, subst, ◌≢◌, inl, inr, List, [], ◌∷◌, ◌++◌,
  append_assoc, arith,
}
use barrel_test.Helpers.{Chars, Word, Parameter, NulFree}
use barrel_test.Memory.{Mem}
use barrel_test.Numbers.Formats.{Doubles}
use barrel_test.Printing.{Console, text_of, poot_str, print_param, preent_loop, preent}

-- The text `str` stands at `p`, with its NUL.
abbrev pub StandsAt : Mem → Word → Chars → Type 0
StandsAt m p [] = m p ≡ 0
StandsAt m p (c ∷ str) = (m p ≡ c) × (c ≢ 0) × StandsAt m (p + 1) str

module _ {D : Type 0} (ops : Doubles D) (fuel : ℕ) (m : Mem) where
  -- The output for a format text, of which `piece` was read and not yet written.
  unfoldable pub printed : Chars → Chars → List Parameter → Chars → Run Chars
  printed [] piece head out = done (poot_str piece out)
  printed (c ∷ text) piece head out =
      let next = printed text (piece ++ (c ∷ [])) head out in
      if c == b'%'
      then (do
        (head', out') ← print_param ops fuel m head (poot_str piece out)
        printed text [] head' out')
      else next

-- The buffer from `working` on: a piece, and `rest` behind it.
pub record HasPiece (buffer : List ℕ) (working i : ℕ) (piece : Chars) : Type 0 where
  pub rest : List ℕ
  pub splits : drop working buffer ≡ piece ++ rest
  pub chars : NulFree piece
  pub index : i ≡ working + length piece
  pub size : length buffer ≡ 64

drop-set : (xs : List ℕ) (n k v : ℕ) → drop n (set xs (n + k) v) ≡ set (drop n xs) k v
drop-set xs zero k v = let e : 0 + k ≡ k = omega arith in ap (λ t. set xs t v) e
drop-set [] (suc n) k v = refl
drop-set (x ∷ xs) (suc n) k v =
    let e : suc n + k ≡ suc (n + k) = omega arith in rw e (drop-set xs n k v)

set-behind :
    (piece rest : List ℕ) (x v : ℕ)
    → set (piece ++ (x ∷ rest)) (length piece) v ≡ piece ++ (v ∷ rest)
set-behind [] rest x v = refl
set-behind (c ∷ piece) rest x v = ap (λ t. c ∷ t) (set-behind piece rest x v)

text_of-piece : (piece rest : List ℕ) → NulFree piece → text_of (piece ++ (0 ∷ rest)) ≡ piece
text_of-piece [] rest free = refl
text_of-piece (c ∷ piece) rest (ne, free) =
    rw (==_false c 0 ne) (ap (λ t. c ∷ t) (text_of-piece piece rest free))

length-drop : (xs : List ℕ) (n : ℕ) → length (drop n xs) ≡ length xs - n
length-drop xs zero = omega arith
length-drop [] (suc n) = omega arith
length-drop (x ∷ xs) (suc n) = length-drop xs n ∙ omega arith

NulFree-snoc : (piece : Chars) (c : ℕ) → NulFree piece → c ≢ 0 → NulFree (piece ++ (c ∷ []))
NulFree-snoc [] c free ne = (ne, tt)
NulFree-snoc (d ∷ piece) c (ne', free) ne = (ne', NulFree-snoc piece c free ne)

-- A store at the index behind the piece.
set-piece :
    {buffer : List ℕ} {working i : ℕ} {piece : Chars} (v : ℕ)
    → HasPiece buffer working i piece
    → i < 64
    → (rest : List ℕ) × (drop working (set buffer i v) ≡ piece ++ (v ∷ rest))
set-piece {buffer} {working} {i} {piece} v h lt = go h.rest h.splits
  where
    go :
        (rest : List ℕ)
        → drop working buffer ≡ piece ++ rest
        → (rest' : List ℕ) × (drop working (set buffer i v) ≡ piece ++ (v ∷ rest'))
    go [] e = absurd (
        omega
          (arith, h.index, h.size, length-drop buffer working, ap length e, length-append piece []))
    go (x ∷ rest) e = (
      rest,
      rw h.index (drop-set buffer working (length piece) v ∙ rw e (set-behind piece rest x v)),
    )

-- The character read is stored behind the piece.
stored :
    {buffer : List ℕ} {working i : ℕ} {piece : Chars} (v : ℕ)
    → HasPiece buffer working i piece
    → i < 64
    → HasPiece (set buffer i v) working i piece
stored {buffer} {working} {i} {piece} v h lt =
    let (rest, e) = set-piece v h lt in
    record {
      rest = v ∷ rest;
      splits = e;
      chars = h.chars;
      index = h.index;
      size = length-set buffer i v ∙ h.size;
    }

longer :
    {buffer : List ℕ} {working i : ℕ} {piece : Chars} (c : ℕ)
    → HasPiece buffer working i piece
    → i < 64
    → c ≢ 0
    → HasPiece (set buffer i c) working (i + 1) (piece ++ (c ∷ []))
longer {buffer} {working} {i} {piece} c h lt ne =
    let (rest, e) = set-piece c h lt in
    record {
      rest = rest;
      splits = e ∙ sym (append_assoc piece (c ∷ []) rest);
      chars = NulFree-snoc piece c h.chars ne;
      index = omega (arith, h.index, length-append piece (c ∷ []));
      size = length-set buffer i c ∙ h.size;
    }

start : {buffer : List ℕ} → length buffer ≡ 64 → HasPiece buffer 0 0 []
start {buffer} size = record { rest = buffer; splits = refl; chars = tt; index = refl; size = size }

restart :
    {buffer : List ℕ} {working i : ℕ} {piece : Chars}
    → HasPiece buffer working i piece
    → HasPiece buffer (i + 1) (i + 1) []
restart {buffer} {i = i} h = record {
  rest = drop (i + 1) buffer;
  splits = refl;
  chars = tt;
  index = omega arith;
  size = h.size;
}

module _ {D : Type 0} (ops : Doubles D) (fuel : ℕ) (m : Mem) where
  preent_loop-printed :
      (text piece : Chars) (n i string working : ℕ) (head : List Parameter) (buffer : List ℕ)
      (out : Chars)
      → HasPiece buffer working i piece
      → StandsAt m (string + i) text
      → i + length text < 64
      → i + n ≡ 64
      → (preent_loop ops fuel m n i string working head buffer out >>= λ r. done r.1)
        ≡ printed ops fuel m text piece head out
  unfolding preent_loop printed
  preent_loop-printed text piece zero i string working head buffer out h at lt e =
      absurd (omega arith)
  preent_loop-printed [] piece (suc n) i string working head buffer out h at lt e =
      let (rest, split) = set-piece 0 h (omega arith) in
      rw (at, split, text_of-piece piece rest h.chars) refl
  preent_loop-printed (c ∷ text) piece (suc n) i string working head buffer out h (at, ne, ats) lt
        e =
      let there : StandsAt m (string + (i + 1)) text =
        subst (λ p. StandsAt m p text) (add_assoc string i 1) ats in
      let stored_c = stored c h (omega arith) in
      elim (Bool-cases (c == b'%')) [
        | inl percent ↦
            let (rest, split) = set-piece 0 stored_c (omega arith) in
            rw (at, ==_false c 0 ne, percent, split, text_of-piece piece rest h.chars)
              (>>=-assoc (print_param ops fuel m head (poot_str piece out))
                (λ r.
                  preent_loop ops fuel m n (i + 1) string (i + 1) r.0 (set (set buffer i c) i 0)
                    r.1)
                (λ r. done r.1) (λ r. printed ops fuel m text [] r.0 r.1)
                (λ r.
                  preent_loop-printed text [] n (i + 1) string (i + 1) r.0
                    (set (set buffer i c) i 0) r.1 (restart (stored 0 stored_c (omega arith))) there
                    (omega arith) (omega arith)))
        | inr plain ↦
            rw (at, ==_false c 0 ne, plain)
              (preent_loop-printed text (piece ++ (c ∷ [])) n (i + 1) string working head
                (set buffer i c) out (longer c h (omega arith) ne) there (omega arith)
                (omega arith))
      ]

  -- For a format text of less than 64 characters and a buffer of 64 bytes, Preent writes each piece
  -- of the text between its percent signs, and for each sign its parameter: the bytes that the
  -- buffer held before, and those of earlier pieces, are never written.
  pub preent-printed :
      (string : Word) (text : Chars) (head : List Parameter) (c : Console)
      → StandsAt m string text
      → length text < 64
      → length c.buffer ≡ 64
      → (preent ops fuel m string head c >>= λ c'. done c'.written)
        ≡ printed ops fuel m text [] head c.written
  unfolding preent
  preent-printed string text head c at lt size =
      >>=-assoc (preent_loop ops fuel m 64 0 string 0 head c.buffer c.written)
        (λ r. done (record c { buffer = r.0; written = r.1 })) (λ c'. done c'.written)
        (λ r. done r.1) (λ r. refl)
      ∙ preent_loop-printed text [] 64 0 string 0 head c.buffer c.written (start size) there
          (omega arith) refl
    where
      there : StandsAt m (string + 0) text
      there = subst (λ p. StandsAt m p text) (sym (add-zero string)) at
