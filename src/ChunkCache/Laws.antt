-- ===== src/ChunkCache/Laws.antt =====
-- What a ChunkCache promises its threads.
use vapoursynth_nssfactory.Base.{
  ℕ, zero, suc, ◌≤◌, ◌<◌, ◌≡◌, refl, ap, ◌∙◌, inl, inr, true, List, [], ◌∷◌, ◌++◌, Option, none,
  some, ltb, length, arith, Bool-cases,
}
use vapoursynth_nssfactory.ChunkCache.Entries.{
  Entry, contains, count, copies, readers_of, count-contains, LastFree, last_free,
  last_free-LastFree, readers_of-none, AllRead,
}
use vapoursynth_nssfactory.ChunkCache.{
  ChunkCache, Eviction, evict, evict_from, settled, drops, waits, settle,
}
use vapoursynth_nssfactory.ChunkCache.World.{World, Reach}
use vapoursynth_nssfactory.ChunkCache.Invariant.{Reach-IsConsistent}
use vapoursynth_nssfactory.ChunkCache.Effects.{choice, evict-settled, evict-drops}

-- In every state that is reachable from an empty cache of a size between 1 and the cap, a chunk that
-- a thread holds as a hit is in the cache, once.
pub held_cached :
    {size cap : ℕ} {w : World}
    → 1 ≤ size
    → size ≤ cap
    → Reach size cap w
    → (start : ℕ) → contains start w.hits ≡ true
    → copies start w.chunks.cache ≡ 1
held_cached {w} h k r start e =
    let i = Reach-IsConsistent h k r in
    one (copies start w.chunks.cache) (readers_of-none start w.chunks.cache)
      (omega (arith, i.held start, count-contains start w.hits e)) (omega (arith, i.unique start))
  where
    one :
        (n : ℕ)
        → (n ≡ 0 → readers_of start w.chunks.cache ≡ 0)
        → 0 < readers_of start w.chunks.cache
        → n ≤ 1
        → n ≡ 1
    one zero f p q = absurd (omega (arith, f refl))
    one (suc n) f p q = omega arith

-- The chunk that a round of the loop drops: neither the front nor one with a reader, and every
-- chunk that was used before it has a reader. Its start goes to the end of the dropped ones.
pub record DropsOldest (c c' : ChunkCache) : Type 0 where
  pub front : Entry
  pub newer : List Entry
  pub victim : Entry
  pub older : List Entry
  pub before : c.cache ≡ front ∷ newer ++ victim ∷ older
  pub after : c'.cache ≡ front ∷ newer ++ older
  pub free : victim.readers ≡ 0
  pub read : AllRead older
  pub noted : c'.dropped ≡ c.dropped ++ victim.start ∷ []
  pub over : c.size < length c.cache

choice-DropsOldest :
    (c c' : ChunkCache) (front : Entry) (others : List Entry) (found : Option (Entry × List Entry))
    → c.cache ≡ front ∷ others
    → c.size < length c.cache
    → LastFree others found
    → choice c front found ≡ drops c'
    → DropsOldest c c'
choice-DropsOldest c c' front others none q o l e = absurd (ground arith)
choice-DropsOldest c c' front others (some (v, rest)) q o (newer, older, a, b, free, read) e =
    let same : c' ≡ record c { dropped = c.dropped ++ v.start ∷ []; cache = front ∷ rest } =
      ground arith in
    record {
      front = front;
      newer = newer;
      victim = v;
      older = older;
      before = q ∙ ap (◌∷◌ front) a;
      after = ap (λ d. d.cache) same ∙ ap (◌∷◌ front) b;
      free = free;
      read = read;
      noted = ap (λ d. d.dropped) same;
      over = o;
    }

-- A round of the loop that drops a chunk drops the one that was used least recently among those
-- that no thread reads, the front excepted, and only while the cache is above its size.
pub evict-DropsOldest : (c c' : ChunkCache) → evict c ≡ drops c' → DropsOldest c c'
unfolding evict
evict-DropsOldest c c' e = elim (Bool-cases (ltb c.size (length c.cache))) [
  | inl over ↦ from c.cache refl (ground arith) (rw over at e)
  | inr within ↦ absurd (ground arith)
]
  where
    from :
        (es : List Entry)
        → c.cache ≡ es
        → c.size < length c.cache
        → evict_from c es ≡ drops c'
        → DropsOldest c c'
    from [] q o e = absurd (ground arith)
    from (front ∷ others) q o e =
        choice-DropsOldest c c' front others (last_free others) q o (last_free-LastFree others) e

-- A thread that holds one of the listed chunks.
read_by_one : (e : Entry) (es : List Entry) → 0 < e.readers → 0 < readers_of e.start (e ∷ es)
read_by_one e es h = ground arith

evict-waits : (c : ChunkCache) → 1 ≤ c.size → evict c ≡ waits → (s : ℕ) × (0 < readers_of s c.cache)
unfolding evict
evict-waits c p e = elim (Bool-cases (ltb c.size (length c.cache))) [
  | inl over ↦ from c.cache (ground arith) (rw over at e)
  | inr within ↦ absurd (ground arith)
]
  where
    pick :
        (front : Entry) (others : List Entry)
        → 1 < length (front ∷ others)
        → AllRead others
        → (s : ℕ) × (0 < readers_of s (front ∷ others))
    pick front [] l r = absurd (omega arith)
    pick front (e ∷ es) l r = (e.start, omega (arith, read_by_one e es r.0))

    behind :
        (front : Entry) (others : List Entry) (found : Option (Entry × List Entry))
        → 1 < length (front ∷ others)
        → LastFree others found
        → choice c front found ≡ waits
        → (s : ℕ) × (0 < readers_of s (front ∷ others))
    behind front others none l r k = pick front others l r
    behind front others (some (v, rest)) l r k = absurd (ground arith)

    from :
        (es : List Entry)
        → 1 < length es
        → evict_from c es ≡ waits
        → (s : ℕ) × (0 < readers_of s es)
    from [] l e = absurd (omega arith)
    from (front ∷ others) l e =
        behind front others (last_free others) l (last_free-LastFree others) e

-- In every state that is reachable from an empty cache of a size between 1 and the cap, if a thread
-- that makes room has to wait, then some thread holds a hit.
pub waits_for_reader :
    {size cap : ℕ} {w : World}
    → 1 ≤ size
    → size ≤ cap
    → Reach size cap w
    → evict w.chunks ≡ waits
    → (start : ℕ) × (0 < count start w.hits)
waits_for_reader {w} h k r e =
    let i = Reach-IsConsistent h k r in
    let (s, p) = evict-waits w.chunks i.size_pos e in (s, omega (arith, i.held s))

-- How the loop ends: the cache is within its size, or no chunk can be dropped.
abbrev pub Ended : ChunkCache × Eviction → Type 0
Ended (c, settled) = length c.cache ≤ c.size
Ended (c, drops c') = ⊥
Ended (c, waits) = evict c ≡ waits

settle_round :
    (fuel : ℕ) (c : ChunkCache) (o : Eviction)
    → evict c ≡ o
    → length c.cache ≤ suc fuel
    → 1 ≤ c.size
    → ((c' : ChunkCache) → length c'.cache ≤ fuel → 1 ≤ c'.size → Ended (settle fuel c'))
    → Ended (elim o as (λ _. ChunkCache × Eviction) [
      | settled ↦ (c, settled)
      | drops c' ↦ settle fuel c'
      | waits ↦ (c, waits)
    ])
settle_round fuel c settled e l p next = evict-settled c e p
settle_round fuel c (drops c') e l p next =
    let (d, _) = evict-drops c c' e in next c' (omega (arith, d.length)) (omega (arith, d.size))
settle_round fuel c waits e l p next = e

Ended-empty :
    (c : ChunkCache) (o : Eviction) → evict c ≡ o → length c.cache ≤ 0 → 1 ≤ c.size → Ended (c, o)
Ended-empty c settled e l p = evict-settled c e p
Ended-empty c (drops c') e l p = let (d, _) = evict-drops c c' e in absurd (omega (arith, d.length))
Ended-empty c waits e l p = e

settle_ends :
    (fuel : ℕ) (c : ChunkCache) → length c.cache ≤ fuel → 1 ≤ c.size → Ended (settle fuel c)
unfolding settle
settle_ends zero c l p = Ended-empty c (evict c) refl l p
settle_ends (suc fuel) c l p = settle_round fuel c (evict c) refl l p (settle_ends fuel)

-- What the loop leaves alone: the size, the computations, and the readers of every chunk.
abbrev pub KeepsReaders : ChunkCache → ChunkCache → Type 0
KeepsReaders c c' =
    (c'.size ≡ c.size)
    × (c'.computing ≡ c.computing)
    × ((s : ℕ) → readers_of s c'.cache ≡ readers_of s c.cache)

keeps_round :
    (fuel : ℕ) (c : ChunkCache) (o : Eviction)
    → evict c ≡ o
    → ((c' : ChunkCache) → KeepsReaders c' (settle fuel c').0)
    → KeepsReaders c
        (elim o as (λ _. ChunkCache × Eviction) [
          | settled ↦ (c, settled)
          | drops c' ↦ settle fuel c'
          | waits ↦ (c, waits)
        ]).0
keeps_round fuel c settled e next = (refl, refl, λ s. refl)
keeps_round fuel c waits e next = (refl, refl, λ s. refl)
keeps_round fuel c (drops c') e next =
    let (d, _) = evict-drops c c' e in
    let (a, b, f) = next c' in (a ∙ d.size, b ∙ d.computing, λ s. f s ∙ d.readers_same s)

settle_keeps : (fuel : ℕ) (c : ChunkCache) → KeepsReaders c (settle fuel c).0
unfolding settle
settle_keeps zero c = (refl, refl, λ s. refl)
settle_keeps (suc fuel) c = keeps_round fuel c (evict c) refl (settle_keeps fuel)

-- For a size of at least 1 the loop that makes room ends: after at most as many rounds as there are
-- chunks, either the cache is within its size or no chunk can be dropped, and the thread waits. The
-- loop changes neither the size nor the computations nor the readers of any chunk.
pub settle-Ended :
    (fuel : ℕ) (c : ChunkCache)
    → length c.cache ≤ fuel
    → 1 ≤ c.size
    → Ended (settle fuel c) × KeepsReaders c (settle fuel c).0
settle-Ended fuel c l p = (settle_ends fuel c l p, settle_keeps fuel c)
