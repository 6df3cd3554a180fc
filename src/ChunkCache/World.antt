-- ===== src/ChunkCache/World.antt =====
-- The threads of a ChunkCache: which hits are held, which requests have computed their chunk and
-- are in the loop that makes room. A thread that computes is known by the cache's own set.
use vapoursynth_nssfactory.Base.{ℕ, suc, ◌<◌, ◌≡◌, true, List, [], ◌∷◌}
use vapoursynth_nssfactory.ChunkCache.Entries.{contains, erase}
use vapoursynth_nssfactory.ChunkCache.{
  ChunkCache, configure, request, hit, miss, give_up, commit, evict, settled, drops, trim, release,
}

pub record World : Type 0 where
  pub chunks : ChunkCache
  pub hits : List ℕ
  pub evicting : ℕ

-- The threads take the mutex in any order. A wait changes nothing, so it is no step.
pub data Step (w : World) : World → Type 0 where
  -- A request finds its chunk, and reads it.
  reads :
      (start : ℕ) (c : ChunkCache)
      → request w.chunks start ≡ hit c
      → Step w (record w { chunks = c; hits = start ∷ w.hits })
  -- A request finds no chunk, and begins to compute it.
  begins :
      (start : ℕ) (c : ChunkCache)
      → request w.chunks start ≡ miss c
      → Step w (record w { chunks = c })
  -- A computation throws.
  throws :
      (start : ℕ)
      → contains start w.chunks.computing ≡ true
      → Step w (record w { chunks = give_up w.chunks start })
  -- A computation returns.
  commits :
      (start : ℕ)
      → contains start w.chunks.computing ≡ true
      → Step w (record w { chunks = commit w.chunks start; evicting = suc w.evicting })
  -- A thread in the loop drops a chunk.
  makes_room :
      (c : ChunkCache)
      → 0 < w.evicting
      → evict w.chunks ≡ drops c
      → Step w (record w { chunks = c })
  -- A thread leaves the loop, and returns its chunk.
  returns :
      (n : ℕ)
      → w.evicting ≡ suc n
      → evict w.chunks ≡ settled
      → Step w (record w { chunks = trim w.chunks; evicting = n })
  -- A reader lets go of its chunk.
  releases :
      (start : ℕ)
      → contains start w.hits ≡ true
      → Step w (record w { chunks = release w.chunks start; hits = erase start w.hits })

abbrev pub start_world : ℕ → ℕ → World
start_world size cap = record { chunks = configure size cap; hits = []; evicting = 0 }

pub data Reach (size cap : ℕ) : World → Type 0 where
  here : Reach size cap (start_world size cap)
  next : {v w : World} → Reach size cap v → Step v w → Reach size cap w
