-- ===== src/ChunkCache/Invariant.antt =====
-- What every reachable state of a ChunkCache and its threads has in common.
use vapoursynth_nssfactory.Base.{ℕ, ◌+◌, ◌≤◌, ◌≡◌, refl, ap, length, arith}
use vapoursynth_nssfactory.ChunkCache.Entries.{
  count, copies, readers_of, count-contains, count-erase, take_entry-Taken, copies-release,
  length-release, readers_of-release,
}
use vapoursynth_nssfactory.ChunkCache.{
  configure, request, give_up, commit, trim, dropped_limit, release,
}
use vapoursynth_nssfactory.ChunkCache.Effects.{
  one_at, answer-hit, answer-miss, evict-drops, evict-settled, length-pop_front_to,
}
use vapoursynth_nssfactory.ChunkCache.World.{World, Step, Reach, start_world}

pub record IsConsistent (w : World) : Type 0 where
  -- A chunk is cached once or computed by one thread.
  pub unique : (s : ℕ) → copies s w.chunks.cache + count s w.chunks.computing ≤ 1
  -- The readers of a chunk are the threads that hold it as a hit.
  pub held : (s : ℕ) → readers_of s w.chunks.cache ≡ count s w.hits
  -- The cache is above its size by one chunk at most for each thread that is making room.
  pub room : length w.chunks.cache ≤ w.chunks.size + w.evicting
  pub size_pos : 1 ≤ w.chunks.size
  pub size_cap : w.chunks.size ≤ w.chunks.cap
  pub trimmed : w.evicting ≡ 0 → length w.chunks.dropped ≤ dropped_limit w.chunks

-- The invariant holds at the start.
start-IsConsistent : (size cap : ℕ) → 1 ≤ size → size ≤ cap → IsConsistent (start_world size cap)
unfolding configure
start-IsConsistent size cap h k = record {
  unique = λ s. omega arith;
  held = λ s. refl;
  room = omega arith;
  size_pos = h;
  size_cap = k;
  trimmed = λ _. omega arith;
}

-- Every step of a thread keeps it.
Step-IsConsistent : {v w : World} → Step v w → IsConsistent v → IsConsistent w
unfolding request give_up commit release trim one_at
Step-IsConsistent {v} (Step.reads start c e) i =
    let d = answer-hit v.chunks start _ c (take_entry-Taken start v.chunks.cache) e in
    record {
      unique = λ s. omega (arith, i.unique s, d.copies_same s, ap (count s) d.computing);
      held = λ s. ground (arith, i.held s, d.readers_more s);
      room = omega (arith, i.room, d.size, d.length);
      size_pos = omega (arith, i.size_pos, d.size);
      size_cap = omega (arith, i.size_cap, d.size, d.cap);
      trimmed = λ z. omega (arith, i.trimmed z, ap length d.dropped, d.cap);
    }
Step-IsConsistent {v} (Step.begins start c e) i =
    let d = answer-miss v.chunks start _ c (take_entry-Taken start v.chunks.cache) e in
    record {
      unique = λ s.
          ground
            (arith, i.unique s, ap (copies s) d.cache, ap (count s) d.computing, d.absent, d.idle);
      held = λ s. omega (arith, i.held s, ap (readers_of s) d.cache);
      room = omega (arith, i.room, d.size_grows, ap length d.cache);
      size_pos = omega (arith, i.size_pos, d.size_grows);
      size_cap = omega (arith, d.size_cap i.size_cap, d.cap);
      trimmed = λ z. omega (arith, i.trimmed z, d.dropped, d.cap);
    }
Step-IsConsistent {v} (Step.throws start h) i = record {
  unique = λ s. omega (arith, i.unique s, count-erase start s v.chunks.computing);
  held = i.held;
  room = i.room;
  size_pos = i.size_pos;
  size_cap = i.size_cap;
  trimmed = i.trimmed;
}
Step-IsConsistent {v} (Step.commits start h) i = record {
  unique = λ s. ground (
    arith,
    i.unique s,
    count-erase start s v.chunks.computing,
    count-contains start v.chunks.computing h,
  );
  held = λ s. ground (arith, i.held s);
  room = omega (arith, i.room);
  size_pos = i.size_pos;
  size_cap = i.size_cap;
  trimmed = λ z. absurd (omega arith);
}
Step-IsConsistent {v} (Step.makes_room c p e) i =
    let (d, over) = evict-drops v.chunks c e in
    record {
      unique = λ s. omega (arith, i.unique s, d.copies_less s, ap (count s) d.computing);
      held = λ s. omega (arith, i.held s, d.readers_same s);
      room = omega (arith, i.room, d.size, d.length);
      size_pos = omega (arith, i.size_pos, d.size);
      size_cap = omega (arith, i.size_cap, d.size, d.cap);
      trimmed = λ z. absurd (omega arith);
    }
Step-IsConsistent {v} (Step.returns n p e) i = record {
  unique = i.unique;
  held = i.held;
  room = omega (arith, evict-settled v.chunks e i.size_pos);
  size_pos = i.size_pos;
  size_cap = i.size_cap;
  trimmed = λ z. length-pop_front_to (dropped_limit v.chunks) v.chunks.dropped;
}
Step-IsConsistent {v} (Step.releases start h) i = record {
  unique = λ s. omega (arith, i.unique s, copies-release start s v.chunks.cache);
  held = λ s. ground (
    arith,
    readers_of-release start s v.chunks.cache,
    count-erase start s v.hits,
    i.held s,
    i.unique start,
  );
  room = omega (arith, i.room, length-release start v.chunks.cache);
  size_pos = i.size_pos;
  size_cap = i.size_cap;
  trimmed = i.trimmed;
}

-- Every state that the threads can reach from an empty cache of a size between 1 and the cap is
-- consistent: a chunk is cached once or computed by one thread, its readers are the threads that
-- hold it, the size is between 1 and the cap, the cache is above its size by at most one chunk for
-- each thread that is making room, and at rest the list of dropped chunks is within its limit.
pub Reach-IsConsistent :
    {size cap : ℕ} {w : World} → 1 ≤ size → size ≤ cap → Reach size cap w → IsConsistent w
Reach-IsConsistent {size} {cap} h k Reach.here = start-IsConsistent size cap h k
Reach-IsConsistent h k (Reach.next r st) = Step-IsConsistent st (Reach-IsConsistent h k r)
