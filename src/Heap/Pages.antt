-- ===== src/Heap/Pages.antt =====
-- The pages of the heap: clearing one, the clamp of a change, and what is left.
use mathlib.Core.Path.{fun_ext}
use native.Mathlib.Decide.{dec_lt}
use barrel_test.Base.{
  ℕ, zero, suc, ◌+◌, ◌-◌, ◌*◌, ◌^◌, ◌≤◌, ◌<◌, ◌≡◌, refl, sym, ap, ◌∙◌, ◌⊎◌, none, arith,
}
use barrel_test.Base.Int.{pos, negsuc, pos_part, neg_part, ◌+ℤ◌, u64_mod}
use barrel_test.Enums.{sizeof_page}
use barrel_test.Helpers.{Word}
use barrel_test.Memory.{Mem}
use barrel_test.Memory.Copy.{clear}
use barrel_test.Memory.Words.{store32, store64, byte-store32, byte-store64}
use barrel_test.Heap.{HeapService, clamp_pages, delta_pages, remaining, clear_page_loop, clear_page}

store32-zero : (m : Mem) (p b : ℕ) → p ≤ b → b < p + 4 → store32 m p 0 b ≡ 0
unfolding store32
store32-zero m p b lo hi = ground arith

store64-zero : (m : Mem) (p b : ℕ) → p ≤ b → b < p + 8 → store64 m p 0 b ≡ 0
unfolding store64
store64-zero m p b lo hi = elim (dec_lt b (p + 4)) [
  | yes h ↦ byte-store32 (store32 m p 0) (p + 4) 0 b (omega arith) ∙ store32-zero m p b lo h
  | no h ↦ store32-zero (store32 m p 0) (p + 4) b (omega arith) (omega arith)
]

clear-word :
    (m : Mem) (page i : ℕ)
    → store64 (clear m page (i * 8)) (page + i * 8) 0 ≡ clear m page ((i + 1) * 8)
unfolding clear
clear-word m page i = fun_ext λ b. word b
  where
    word :
        (b : ℕ) → store64 (clear m page (i * 8)) (page + i * 8) 0 b ≡ clear m page ((i + 1) * 8) b
    word b = elim (dec_lt b (page + i * 8)) [
      | yes h ↦ byte-store64 (clear m page (i * 8)) (page + i * 8) 0 b (omega arith) ∙ ground arith
      | no h ↦ elim (dec_lt b (page + i * 8 + 8)) [
        | yes h' ↦
            store64-zero (clear m page (i * 8)) (page + i * 8) b (omega arith) h' ∙ ground arith
        | no h' ↦
            byte-store64 (clear m page (i * 8)) (page + i * 8) 0 b (omega arith) ∙ ground arith
      ]
    ]

clear_page_loop-clear :
    (n i k : ℕ) (m : Mem) (page : Word)
    → k ≡ i + n
    → clear_page_loop n i (clear m page (i * 8)) page ≡ clear m page (k * 8)
unfolding clear_page_loop
clear_page_loop-clear zero i k m page e = ap (λ t. clear m page (t * 8)) (omega arith)
clear_page_loop-clear (suc n) i k m page e =
    ap (λ g. clear_page_loop n (i + 1) g page) (clear-word m page i)
    ∙ clear_page_loop-clear n (i + 1) k m page (omega arith)

clear-nothing : (m : Mem) (page : Word) → clear m page 0 ≡ m
unfolding clear
clear-nothing m page = fun_ext λ b. ground arith

-- Heap_ClearPage sets the 4096 bytes of the page to zero, and no other byte.
pub clear_page_lem :
    (m : Mem) (s : HeapService) (index : ℕ)
    → clear_page m s index ≡ clear m (s.heap_start + index * sizeof_page) sizeof_page
unfolding clear_page
clear_page_lem m s index =
    let page = s.heap_start + index * sizeof_page in
    ap (λ g. clear_page_loop 512 0 g page) (sym (clear-nothing m page))
    ∙ clear_page_loop-clear 512 0 512 m page refl

clamp_pages-pos : (count n : ℕ) → clamp_pages count (pos n) ≡ pos n
unfolding clamp_pages
clamp_pages-pos count n = ground arith

clamp_pages-negsuc :
    (count n : ℕ)
    → count < 2 ^ 31
    → suc n < 2 ^ 31
    → (pos_part (clamp_pages count (negsuc n)) ≡ 0)
      × ((neg_part (clamp_pages count (negsuc n)) ≡ suc n)
          ⊎ (neg_part (clamp_pages count (negsuc n)) ≡ count))
      × (neg_part (clamp_pages count (negsuc n)) ≤ count)
      × ((suc n ≤ count → neg_part (clamp_pages count (negsuc n)) ≡ suc n))
unfolding clamp_pages
clamp_pages-negsuc count n small small' = ground arith

-- With counts below 2 ^ 31, Heap_DeltaPages adds the pages asked for, and takes back the pages
-- asked for, or all if there are not that many. The start of the heap stays, and where pages are
-- added no value is returned.
pub delta_pages_lem :
    (s : HeapService) (n : ℕ)
    → suc n + s.page_count < 2 ^ 31
    → ((delta_pages s (pos (suc n))).1.page_count ≡ s.page_count + suc n)
      × ((delta_pages s (pos (suc n))).0 ≡ none)
      × ((delta_pages s (negsuc n)).1.page_count ≡ s.page_count - suc n)
      × ((delta_pages s (negsuc n)).1.heap_start ≡ s.heap_start)
unfolding delta_pages ◌+ℤ◌
delta_pages_lem s n small =
    let c = clamp_pages-negsuc s.page_count n (omega arith) (omega arith) in
    (
      rw (clamp_pages-pos s.page_count (suc n)) (ground arith),
      rw (clamp_pages-pos s.page_count (suc n)) (ground arith),
      ground (arith, c.0, c.1, c.2, c.3),
      ground arith,
    )

-- While the end of the heap stays at its start, every page counts as left, however much is used.
pub remaining-heap_start :
    (s : HeapService)
    → s.heap_end ≡ s.heap_start
    → s.heap_start < u64_mod
    → s.page_count * sizeof_page < u64_mod
    → remaining s ≡ s.page_count * sizeof_page
unfolding remaining
remaining-heap_start s e lt fits = rw e (omega arith)
