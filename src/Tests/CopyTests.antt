-- ===== src/Tests/CopyTests.antt =====
-- The copying routines of tHelpers.c and Heap_ClearPage at small memories.
use barrel_test.Base.{ℕ, zero, suc, ◌+◌, ◌-◌, ◌*◌, ◌<◌, ◌≡◌, refl, ◌≢◌, inl, inr, none, some, arith}
use barrel_test.Memory.{write, raw_transcribe, barrel_transcribe, string_transcribe}
use barrel_test.Memory.Copy.{
  blit, clear, raw_transcribe-blit, barrel_transcribe-blit, string_transcribe-blit,
}
use barrel_test.Base.Int.{pos, negsuc}
use barrel_test.Enums.{sizeof_page}
use barrel_test.Heap.{clear_page, delta_pages}
use barrel_test.Heap.Pages.{clear_page_lem, delta_pages_lem}
use barrel_test.Tests.Fixtures.{ramp, text_mem, heap}

raw_transcribe-blit_example : raw_transcribe ramp 10 12 8 ≡ blit ramp 10 12 8
raw_transcribe-blit_example = raw_transcribe-blit ramp 10 12 8 (omega arith) (inl (omega arith))

barrel_transcribe-blit_test : barrel_transcribe ramp 320 32 3 ≡ blit ramp 320 32 (3 * 32)
barrel_transcribe-blit_test = barrel_transcribe-blit ramp 320 32 3 (inr (omega arith))

text_chars : (j : ℕ) → j < 3 → text_mem (100 + j) ≢ 0
text_chars zero lt = omega arith
text_chars (suc zero) lt = omega arith
text_chars (suc (suc zero)) lt = omega arith
text_chars (suc (suc (suc j))) lt = absurd (omega arith)

string_transcribe-blit_example :
    string_transcribe 4 text_mem 200 100 ≡ some (blit text_mem 200 100 4)
string_transcribe-blit_example =
    string_transcribe-blit text_mem 200 100 4 3 (omega arith) refl text_chars (inr (omega arith))

clear_page_lem_test : clear_page ramp heap 0 ≡ clear ramp (100000 + 0 * sizeof_page) sizeof_page
clear_page_lem_test = clear_page_lem ramp heap 0

delta_pages_lem_test :
    ((delta_pages heap (pos 3)).1.page_count ≡ 1 + 3)
    × ((delta_pages heap (pos 3)).0 ≡ none)
    × ((delta_pages heap (negsuc 2)).1.page_count ≡ 1 - 3)
    × ((delta_pages heap (negsuc 2)).1.heap_start ≡ 100000)
delta_pages_lem_test = delta_pages_lem heap 2 (omega arith)

raw_transcribe_test : raw_transcribe ramp 11 10 3 13 ≡ 10
unfolding raw_transcribe write
raw_transcribe_test = refl
