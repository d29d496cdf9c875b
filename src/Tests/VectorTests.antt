-- ===== src/Tests/VectorTests.antt =====
-- Spans between chunks, and the worker of the heap.
use barrel_test.Base.{
  ltb, ◌==◌, if◌then◌else◌, replicate, ℕ, suc, ◌+◌, ◌%◌, ◌<◌, ◌≡◌, refl, inl, true, [], ◌∷◌, arith,
}
use barrel_test.Vectors.{vector_transcribe}
use barrel_test.Enums.{manage}
use barrel_test.Memory.Words.{load64, Apart}
use barrel_test.Helpers.{Request}
use barrel_test.Tests.Fixtures.{heap}
use barrel_test.Base.Run.{done}
use barrel_test.Memory.{Mem}
use barrel_test.Chunk
use barrel_test.Chunk.{Chunk}
use barrel_test.Vectors.Rolled.{ArePlaced, IsVectorRequest, vector_transcribe_lem}
use barrel_test.Heap.Worker.{work_loop, work_loop-idle}

-- At 100 a chunk of 16 bytes at 1000, at 200 one of 16 bytes at 2003.
abbrev chunks_mem : Mem
chunks_mem b =
    if b == 100
    then 232
    else if b == 101
    then 3
    else if b == 108
    then 16
    else if b == 200
    then 211
    else if b == 201
    then 7
    else if b == 208
    then 16
    else if ltb b 300
    then 0
    else b % 256

abbrev trg_chunk : Chunk
trg_chunk = record { head = 1000; size = 16 }

abbrev src_chunk : Chunk
src_chunk = record { head = 2003; size = 16 }

-- Two units of four bytes, from unit 1 of the source to unit 2 of the target.
abbrev vector_request : Request
vector_request = record {
  type = manage;
  params = 0 ∷ 100 ∷ 200 ∷ 2 ∷ 1 ∷ 0 ∷ 4 ∷ 2 ∷ replicate 9 0;
}

chunks_placed : ArePlaced trg_chunk src_chunk
chunks_placed = record {
  trg_room = omega arith;
  src_room = omega arith;
  some_src = omega arith;
  apart = inl (omega arith);
}

is_vector_request : IsVectorRequest chunks_mem vector_request trg_chunk src_chunk 8 4 8
unfolding Chunk.read barrel_test.Memory.Words.load64
is_vector_request = record {
  trg_chunk = refl;
  src_chunk = refl;
  span = refl;
  trg_start = refl;
  src_place = refl;
  fits = omega arith;
  in_memory = omega arith;
}

vector_transcribe_lem_example :
    (m' : Mem) × (vector_transcribe chunks_mem vector_request ≡ done m')
    × ((j : ℕ) → j < 8 → m' (1000 + 8 + j) ≡ chunks_mem (2003 + (2003 + 4 + j) % 16))
    × ((b : ℕ) → Apart (1000 + 8) 8 b 1 → m' b ≡ chunks_mem b)
vector_transcribe_lem_example = vector_transcribe_lem is_vector_request chunks_placed

work_loop-idle_example : work_loop (λ k. true) (suc 3) 0 heap [] ≡ done (heap, [])
work_loop-idle_example = work_loop-idle (λ k. true) 3 heap refl (omega arith) (omega arith)
