-- ===== src/User/Chunks.antt =====
-- A collection as Collection_Transcribe sees it, whatever its methods are: the record of what the
-- caller relies on, the operation being the chunk request.
use barrel_test.Base.{ℕ, ◌+◌, ◌≡◌, refl, ap, ◌∙◌, ◌≢◌}
use barrel_test.Base.Run.{done}
use barrel_test.Helpers.{Word}
use barrel_test.Memory.{Mem}
use barrel_test.Memory.Words.{SameAt, load64-SameAt}
use barrel_test.TypeInfo.{Layout, TypeInfo}
use barrel_test.Chunk
use barrel_test.Chunk.{Chunk}
use barrel_test.Collection.{CollectionExtensions, extensions_at, unit_size, deref, type_at}
use barrel_test.Barrel.{Service, mem, put_mem}
use barrel_test.User.{request_chunk}
use barrel_test.User.Transcribe.{IsRound}

-- At `p` is a collection with extensions `e` of a registered type, whose methods answer a chunk
-- request by `chunk` and by the offset `off`: also behind every change of memory that keeps the
-- bytes of its struct without its count and its lock.
pub record ChunkAt (fuel : ℕ) (layout : Layout) (s : Service) (p : Word) (e : CollectionExtensions)
    (t : TypeInfo) (chunk : Chunk) (off : ℕ) : Type 0 where
  pub some_collection : p ≢ 0
  pub extensions : extensions_at s.world p ≡ done e
  pub type : deref s.world.bins.types e.type ≡ done t
  pub round : IsRound chunk off
  pub request :
      (m : Mem)
      → SameAt p 8 (mem s) m
      → SameAt (p + 16) 16 (mem s) m
      → (loc : Word)
      → request_chunk fuel layout (put_mem s m) p loc
        ≡ done (chunk, off, put_mem s (Chunk.ctor m loc chunk.head chunk.size))

pub extensions-SameAt :
    (s : Service) (m : Mem) {p : Word} {e : CollectionExtensions}
    → SameAt p 8 (mem s) m
    → extensions_at s.world p ≡ done e
    → extensions_at (put_mem s m).world p ≡ done e
unfolding extensions_at
extensions-SameAt s m {p} front at =
    ap (deref s.world.extensions) (load64-SameAt (mem s) m p front) ∙ at

module _ {fuel : ℕ} {layout : Layout} {s : Service} {p : Word} {e : CollectionExtensions}
    {t : TypeInfo} {chunk : Chunk} {off : ℕ} (c : ChunkAt fuel layout s p e t chunk off) where
  pub ChunkAt-SameAt :
      (m : Mem)
      → SameAt p 8 (mem s) m
      → SameAt (p + 16) 16 (mem s) m
      → ChunkAt fuel layout (put_mem s m) p e t chunk off
  ChunkAt-SameAt m front back = record {
    some_collection = c.some_collection;
    extensions = extensions-SameAt s m front c.extensions;
    type = c.type;
    round = c.round;
    request = λ m' front' back'.
        c.request m' (λ b lo hi. front' b lo hi ∙ front b lo hi)
          (λ b lo hi. back' b lo hi ∙ back b lo hi);
  }

  pub request_chunk-ChunkAt :
      (loc : Word)
      → request_chunk fuel layout s p loc
        ≡ done (chunk, off, put_mem s (Chunk.ctor (mem s) loc chunk.head chunk.size))
  request_chunk-ChunkAt = c.request (mem s) (λ b lo hi. refl) (λ b lo hi. refl)

  pub unit_size-ChunkAt : unit_size s.world p ≡ done t.size
  unfolding unit_size type_at
  unit_size-ChunkAt = rw (c.extensions, c.type) refl
