-- ===== src/ChunkCache/Effects.antt =====
-- What each operation of a ChunkCache changes.
use vapoursynth_nssfactory.Base.{
  ℕ, suc, ◌+◌, ◌≤◌, ◌<◌, ◌≡◌, refl, sym, ap, inl, inr, false, List, [], ◌∷◌, ◌++◌, Option, none,
  some, ◌==◌, ltb, if◌then◌else◌, length, length-append, arith, Bool-cases,
}
use mathlib.Core.Path.{subst}
use vapoursynth_nssfactory.ChunkCache.Entries.{
  Entry, contains, count, copies, readers_of, contains-count, length-erase, Taken, LastFree,
  last_free, last_free-LastFree, copies-append, readers_of-append,
}
use vapoursynth_nssfactory.ChunkCache.{
  ChunkCache, Request, hit, busy, miss, grow, Eviction, evict, evict_from, settled, drops, waits,
  pop_front_to,
}

unfoldable pub one_at : ℕ → ℕ → ℕ
one_at s r = if s == r then 1 else 0

-- What a hit changes.
pub record IsHit (c : ChunkCache) (s : ℕ) (c' : ChunkCache) : Type 0 where
  pub size : c'.size ≡ c.size
  pub cap : c'.cap ≡ c.cap
  pub dropped : c'.dropped ≡ c.dropped
  pub computing : c'.computing ≡ c.computing
  pub length : length c'.cache ≡ length c.cache
  pub copies_same : (r : ℕ) → copies r c'.cache ≡ copies r c.cache
  pub readers_more : (r : ℕ) → readers_of r c'.cache ≡ one_at s r + readers_of r c.cache

-- What a miss changes: the cache itself is as it was.
pub record IsMiss (c : ChunkCache) (s : ℕ) (c' : ChunkCache) : Type 0 where
  pub cache : c'.cache ≡ c.cache
  pub absent : copies s c.cache ≡ 0
  pub idle : count s c.computing ≡ 0
  pub computing : c'.computing ≡ s ∷ c.computing
  pub cap : c'.cap ≡ c.cap
  pub size_grows : c.size ≤ c'.size
  pub size_cap : c.size ≤ c.cap → c'.size ≤ c.cap
  pub dropped : length c'.dropped ≤ length c.dropped

abbrev pub answer : ChunkCache → ℕ → Option (Entry × List Entry) → Request
answer c start found = elim found [
  | some (e, rest) ↦ hit (record c { cache = record e { readers = e.readers + 1 } ∷ rest })
  | none ↦
      if contains start c.computing
      then busy
      else let grown = grow c start in miss (record grown { computing = start ∷ grown.computing })
]

pub answer-hit :
    (c : ChunkCache) (s : ℕ) (found : Option (Entry × List Entry)) (c' : ChunkCache)
    → Taken s c.cache found
    → answer c s found ≡ hit c'
    → IsHit c s c'
unfolding one_at
answer-hit c s none c' t e = absurd (ground arith)
answer-hit c s (some (f, rest)) c' (a, b, d, g) e =
    let same : c' ≡ record c { cache = record f { readers = f.readers + 1 } ∷ rest } =
      ground arith in
    subst (IsHit c s) (sym same) (record {
      size = refl;
      cap = refl;
      dropped = refl;
      computing = refl;
      length = omega arith;
      copies_same = λ r. omega (arith, d r);
      readers_more = λ r. ground (arith, g r);
    })

grow_cases :
    (c : ChunkCache) (s : ℕ)
    → (c.size ≤ (grow c s).size)
      × (c.size ≤ c.cap → (grow c s).size ≤ c.cap)
      × (length (grow c s).dropped ≤ length c.dropped)
      × ((grow c s).cap ≡ c.cap)
      × ((grow c s).cache ≡ c.cache)
      × ((grow c s).computing ≡ c.computing)
unfolding grow
grow_cases c s = (
  ground arith,
  λ h. ground arith,
  ground (arith, length-erase s c.dropped),
  ground arith,
  ground arith,
  ground arith,
)

pub answer-miss :
    (c : ChunkCache) (s : ℕ) (found : Option (Entry × List Entry)) (c' : ChunkCache)
    → Taken s c.cache found
    → answer c s found ≡ miss c'
    → IsMiss c s c'
answer-miss c s (some (f, rest)) c' t e = absurd (ground arith)
answer-miss c s none c' t e =
    let (a, b, d, g, h, i) = grow_cases c s in
    let same : c' ≡ record (grow c s) { computing = s ∷ (grow c s).computing } = ground arith in
    let idle : contains s c.computing ≡ false = ground arith in
    subst (IsMiss c s) (sym same) (record {
      cache = h;
      absent = t;
      idle = contains-count s c.computing idle;
      computing = ap (◌∷◌ s) i;
      cap = g;
      size_grows = a;
      size_cap = b;
      dropped = d;
    })

-- What dropping a chunk changes, where `es` is the cache.
pub record IsDrop (c : ChunkCache) (es : List Entry) (c' : ChunkCache) : Type 0 where
  pub size : c'.size ≡ c.size
  pub cap : c'.cap ≡ c.cap
  pub computing : c'.computing ≡ c.computing
  pub length : length es ≡ suc (length c'.cache)
  pub copies_less : (r : ℕ) → copies r c'.cache ≤ copies r es
  pub readers_same : (r : ℕ) → readers_of r c'.cache ≡ readers_of r es

abbrev pub choice : ChunkCache → Entry → Option (Entry × List Entry) → Eviction
choice c front found = elim found [
  | some (victim, rest) ↦
      drops (record c { dropped = c.dropped ++ victim.start ∷ []; cache = front ∷ rest })
  | none ↦ waits
]

choice-drops :
    (c : ChunkCache) (front : Entry) (others : List Entry) (found : Option (Entry × List Entry))
    (c' : ChunkCache)
    → LastFree others found
    → choice c front found ≡ drops c'
    → IsDrop c (front ∷ others) c'
choice-drops c front others none c' l e = absurd (ground arith)
choice-drops c front others (some (v, rest)) c' (before, behind, a, b, free, _) e =
    let same : c' ≡ record c { dropped = c.dropped ++ v.start ∷ []; cache = front ∷ rest } =
      ground arith in
    subst (IsDrop c (front ∷ others)) (sym same) (record {
      size = refl;
      cap = refl;
      computing = refl;
      length =
          rw (a, b) (omega (arith, length-append before (v ∷ behind), length-append before behind));
      copies_less = λ r.
          rw (a, b)
            (omega (arith, copies-append r before (v ∷ behind), copies-append r before behind));
      readers_same = λ r.
          rw (a, b)
            (ground (
              arith,
              free,
              readers_of-append r before (v ∷ behind),
              readers_of-append r before behind,
            ));
    })

pub evict-drops :
    (c c' : ChunkCache) → evict c ≡ drops c' → IsDrop c c.cache c' × (c.size < length c.cache)
unfolding evict
evict-drops c c' e = elim (Bool-cases (ltb c.size (length c.cache))) [
  | inl over ↦ (from c.cache (rw over at e), ground arith)
  | inr within ↦ absurd (ground arith)
]
  where
    from : (es : List Entry) → evict_from c es ≡ drops c' → IsDrop c es c'
    from [] e = absurd (ground arith)
    from (front ∷ others) e =
        choice-drops c front others (last_free others) c' (last_free-LastFree others) e

pub evict-settled : (c : ChunkCache) → evict c ≡ settled → 1 ≤ c.size → length c.cache ≤ c.size
unfolding evict
evict-settled c e h = elim (Bool-cases (ltb c.size (length c.cache))) [
  | inl over ↦ absurd (from c.cache (ground arith) (rw over at e))
  | inr within ↦ ground arith
]
  where
    choice-settled :
        (front : Entry) (found : Option (Entry × List Entry)) → choice c front found ≡ settled → ⊥
    choice-settled front none k = ground arith
    choice-settled front (some (v, rest)) k = ground arith

    from : (es : List Entry) → 0 < length es → evict_from c es ≡ settled → ⊥
    from [] p e = omega arith
    from (front ∷ others) p e = choice-settled front (last_free others) e

pub length-pop_front_to : (limit : ℕ) (ds : List ℕ) → length (pop_front_to limit ds) ≤ limit
unfolding pop_front_to
length-pop_front_to limit [] = omega arith
length-pop_front_to limit (d ∷ ds) = ground (arith, length-pop_front_to limit ds)
