-- ===== src/Examples/Chunks.antt =====
-- A cache of one chunk: chunk 0 is computed and read, and chunk 10 is computed while it is read.
use vapoursynth_nssfactory.Base.{ℕ, ◌<◌, ◌≡◌, refl, true, List, [], ◌∷◌, arith}
use vapoursynth_nssfactory.ChunkCache.{
  ChunkCache, configure, request, grow, commit, evict, evict_from, evict_behind, drops, waits, trim,
  pop_front_to, settle,
}
use vapoursynth_nssfactory.ChunkCache.Entries.{
  Entry, contains, erase, count, copies, take_entry, last_free,
}
use vapoursynth_nssfactory.ChunkCache.World.{World, Step, Reach}
use vapoursynth_nssfactory.ChunkCache.Invariant.{IsConsistent, Reach-IsConsistent}
use vapoursynth_nssfactory.ChunkCache.Laws.{
  held_cached, waits_for_reader, DropsOldest, evict-DropsOldest, Ended, KeepsReaders, settle-Ended,
}

-- A cache of size 1 with these chunks, each with its readers, and these computations.
abbrev chunks_with : List Entry → List ℕ → ChunkCache
chunks_with cache computing = record {
  size = 1;
  cap = 2;
  dropped = [];
  dropped_hits = 0;
  cache = cache;
  computing = computing;
}

abbrev chunk : ℕ → ℕ → Entry
chunk start readers = record { start = start; readers = readers }

-- Chunk 0 is cached and read, and a thread makes room for chunk 10.
abbrev reading_0 : World
reading_0 = record {
  chunks = chunks_with (chunk 10 0 ∷ chunk 0 1 ∷ []) [];
  hits = 0 ∷ [];
  evicting = 1;
}

computed_0 :
    Reach 1 2 (record { chunks = chunks_with (chunk 0 0 ∷ []) []; hits = []; evicting = 0 })
unfolding request grow configure contains commit erase take_entry trim evict pop_front_to
computed_0 =
    Reach.next (Reach.next (Reach.next Reach.here (Step.begins 0 _ refl)) (Step.commits 0 refl))
      (Step.returns 0 refl refl)

reading_0-Reach : Reach 1 2 reading_0
unfolding request grow configure contains commit erase take_entry
reading_0-Reach =
    Reach.next (Reach.next (Reach.next computed_0 (Step.reads 0 _ refl)) (Step.begins 10 _ refl))
      (Step.commits 10 refl)

Reach-IsConsistent_example : IsConsistent reading_0
Reach-IsConsistent_example = Reach-IsConsistent (omega arith) (omega arith) reading_0-Reach

holds_0 : contains 0 reading_0.hits ≡ true
unfolding contains
holds_0 = refl

held_cached_example : copies 0 reading_0.chunks.cache ≡ 1
held_cached_example = held_cached (omega arith) (omega arith) reading_0-Reach 0 holds_0

reading_0-waits : evict reading_0.chunks ≡ waits
unfolding evict evict_from evict_behind last_free
reading_0-waits = refl

waits_for_reader_example : (start : ℕ) × (0 < count start reading_0.hits)
waits_for_reader_example =
    waits_for_reader (omega arith) (omega arith) reading_0-Reach reading_0-waits

-- Chunks 20, 10 and 0, of which the last is read.
abbrev three_chunks : ChunkCache
three_chunks = chunks_with (chunk 20 0 ∷ chunk 10 0 ∷ chunk 0 1 ∷ []) []

abbrev two_chunks : ChunkCache
two_chunks = record three_chunks { cache = chunk 20 0 ∷ chunk 0 1 ∷ []; dropped = 10 ∷ [] }

three_chunks-drops : evict three_chunks ≡ drops two_chunks
unfolding evict evict_from evict_behind last_free
three_chunks-drops = refl

evict-DropsOldest_example : DropsOldest three_chunks two_chunks
evict-DropsOldest_example = evict-DropsOldest three_chunks two_chunks three_chunks-drops

settle-Ended_example :
    Ended (settle 3 three_chunks) × KeepsReaders three_chunks (settle 3 three_chunks).0
settle-Ended_example = settle-Ended 3 three_chunks (omega arith) (omega arith)
