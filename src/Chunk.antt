-- ===== src/Chunk.antt =====
-- tChunk.c: a chunk of memory, its head and its size, as a value and as a struct of two words.
use barrel_test.Base.{ℕ, ◌+◌, ◌<◌, ◌≡◌, arith}
use barrel_test.Base.Int.{u64_mod, add64, mul64}
use barrel_test.Memory.{Mem}
use barrel_test.Memory.Words.{store64, load64, load64-store64, load64-store64-Apart}

pub record Chunk : Type 0 where
  pub head : ℕ
  pub size : ℕ

-- Chunk_GetPtr.
unfoldable pub get_ptr : Chunk → ℕ → ℕ → ℕ
get_ptr chunk unit index = add64 chunk.head (mul64 index unit)

-- Chunk_Create.
unfoldable pub create : ℕ → ℕ → Chunk
create head size = record { head = head; size = size }

-- Chunk_ctor: rawTranscribe of a local Chunk stores its two words.
unfoldable pub ctor : Mem → ℕ → ℕ → ℕ → Mem
unfolding create
ctor m loc head size =
    let tmp = create head size in store64 (store64 m loc tmp.head) (loc + 8) tmp.size

-- The Chunk at an address.
unfoldable pub read : Mem → ℕ → Chunk
read m loc = record { head = load64 m loc; size = load64 m (loc + 8) }

-- Chunk_Clone.
unfoldable pub clone : Mem → ℕ → ℕ → Mem
unfolding ctor
clone m trg src = ctor m trg (load64 m src) (load64 m (src + 8))

-- What Chunk_ctor stores is read back.
pub read-ctor :
    (m : Mem) (loc head size : ℕ)
    → head < u64_mod
    → size < u64_mod
    → read (ctor m loc head size) loc ≡ create head size
unfolding read ctor create
read-ctor m loc head size hh hs = ground (
  arith,
  load64-store64-Apart (store64 m loc head) (loc + 8) loc size (omega arith),
  load64-store64 m loc head hh,
  load64-store64 (store64 m loc head) (loc + 8) size hs,
)
