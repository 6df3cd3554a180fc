-- ===== src/ChunkCache.antt =====
-- src/gpuhost/chunk_cache.hpp, class ChunkCache: finished chunks behind one mutex. Each function is
-- what one thread does while it holds the mutex; `World` puts the threads together. A chunk is named
-- by its first frame, its store is left out.
pub mod Entries
pub mod World
pub mod Effects
pub mod Invariant
pub mod Laws
use vapoursynth_nssfactory.Base.{
  ℕ, zero, suc, ◌+◌, ◌-◌, ◌*◌, Bool, true, false, List, [], ◌∷◌, ◌++◌, Option, none, some, ltb, leb,
  ◌==◌, if◌then◌else◌, length, max,
}
use Entries.{Entry, take_entry, last_free, release_entry, contains, erase}

-- `cache` is the list from its begin(), the chunk used last; `dropped` from its front(), the chunk
-- dropped first.
pub record ChunkCache : Type 0 where
  pub size : ℕ
  pub cap : ℕ
  pub dropped : List ℕ
  pub dropped_hits : ℕ
  pub cache : List Entry
  pub computing : List ℕ

-- configure(): an empty cache.
unfoldable pub configure : ℕ → ℕ → ChunkCache
configure size cap = record {
  size = size;
  cap = cap;
  dropped = [];
  dropped_hits = 0;
  cache = [];
  computing = [];
}

-- What a request meets.
pub data Request : Type 0 where
  hit : ChunkCache → Request
  busy : Request
  miss : ChunkCache → Request

-- A miss on a chunk that was dropped recently: the second one makes the cache grow.
unfoldable pub grow : ChunkCache → ℕ → ChunkCache
grow c start =
    if ltb c.size c.cap
    then (if contains start c.dropped
        then (let hits = c.dropped_hits + 1 in
            let rest = erase start c.dropped in
            if leb 2 hits
            then record c { dropped = rest; dropped_hits = 0; size = c.size + 1 }
            else record c { dropped = rest; dropped_hits = hits })
        else c)
    else c

-- get() up to the call of compute(). A busy thread waits, and makes the same request again.
unfoldable pub request : ChunkCache → ℕ → Request
unfolding grow
request c start = elim (take_entry start c.cache) [
  | some (e, rest) ↦ hit (record c { cache = record e { readers = e.readers + 1 } ∷ rest })
  | none ↦
      if contains start c.computing
      then busy
      else let grown = grow c start in miss (record grown { computing = start ∷ grown.computing })
]

-- compute() has thrown.
unfoldable pub give_up : ChunkCache → ℕ → ChunkCache
give_up c start = record c { computing = erase start c.computing }

-- compute() has returned the chunk.
unfoldable pub commit : ChunkCache → ℕ → ChunkCache
commit c start = record c {
  computing = erase start c.computing;
  cache = record { start = start; readers = 0 } ∷ c.cache;
}

-- One round of the loop that follows: the loop ends, a chunk is dropped, or the thread waits.
pub data Eviction : Type 0 where
  settled : Eviction
  drops : ChunkCache → Eviction
  waits : Eviction

unfoldable pub evict_behind : ChunkCache → Entry → List Entry → Eviction
evict_behind c front others = elim (last_free others) [
  | some (victim, rest) ↦
      drops (record c { dropped = c.dropped ++ victim.start ∷ []; cache = front ∷ rest })
  | none ↦ waits
]

unfoldable pub evict_from : ChunkCache → List Entry → Eviction
unfolding evict_behind
evict_from c [] = settled
evict_from c (front ∷ others) = evict_behind c front others

unfoldable pub evict : ChunkCache → Eviction
unfolding evict_from
evict c = if ltb c.size (length c.cache) then evict_from c c.cache else settled

-- The loop until it ends or waits, with fuel.
unfoldable pub settle : ℕ → ChunkCache → ChunkCache × Eviction
settle zero c = (c, evict c)
settle (suc fuel) c = elim (evict c) [
  | settled ↦ (c, settled)
  | drops c' ↦ settle fuel c'
  | waits ↦ (c, waits)
]

-- `while (dropped_.size() > max(8, 2 * cap_)) dropped_.pop_front();`
unfoldable pub pop_front_to : ℕ → List ℕ → List ℕ
pop_front_to limit [] = []
pop_front_to limit (d ∷ ds) = if ltb limit (length (d ∷ ds)) then pop_front_to limit ds else d ∷ ds

abbrev pub dropped_limit : ChunkCache → ℕ
dropped_limit c = max 8 (2 * c.cap)

unfoldable pub trim : ChunkCache → ChunkCache
unfolding pop_front_to
trim c = record c { dropped = pop_front_to (dropped_limit c) c.dropped }

-- A reader lets go of the chunk that it got as a hit.
unfoldable pub release : ChunkCache → ℕ → ChunkCache
release c start = record c { cache = release_entry start c.cache }

-- computing(): a thread is computing the chunk.
unfoldable pub is_computing : ChunkCache → ℕ → Bool
is_computing c start = contains start c.computing

unfoldable pub clear : ChunkCache → ChunkCache
clear c = record c { cache = [] }
