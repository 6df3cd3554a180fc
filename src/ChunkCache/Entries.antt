-- ===== src/ChunkCache/Entries.antt =====
-- The lists of a ChunkCache.
use vapoursynth_nssfactory.Base.{
  ℕ, suc, ◌+◌, ◌-◌, ◌≤◌, ◌<◌, ◌≡◌, refl, ap, inl, inr, Bool, true, false, List, [], ◌∷◌, ◌++◌,
  Option, none, some, ◌==◌, if◌then◌else◌, length, arith, Bool-cases,
}

pub record Entry : Type 0 where
  pub start : ℕ
  pub readers : ℕ

-- std::set::count, and std::find in a deque.
unfoldable pub contains : ℕ → List ℕ → Bool
contains s [] = false
contains s (x ∷ xs) = if x == s then true else contains s xs

-- erase() of the element that was found.
unfoldable pub erase : ℕ → List ℕ → List ℕ
erase s [] = []
erase s (x ∷ xs) = if x == s then xs else x ∷ erase s xs

-- The search for a chunk, and the list without it.
unfoldable pub take_entry : ℕ → List Entry → Option (Entry × List Entry)
take_entry s [] = none
take_entry s (e ∷ es) =
    let found = take_entry s es in
    if e.start == s
    then some (e, es)
    else elim found [ some (f, rest) ↦ some (f, e ∷ rest) | none ↦ none ]

-- The search for the last chunk that has no reader, and the list without it.
unfoldable pub last_free : List Entry → Option (Entry × List Entry)
last_free [] = none
last_free (e ∷ es) = elim (last_free es) [
  | some (v, rest) ↦ some (v, e ∷ rest)
  | none ↦ if e.readers == 0 then some (e, es) else none
]

-- `--entry->readers`, where the entry of a hit is the one that starts there.
unfoldable pub release_entry : ℕ → List Entry → List Entry
release_entry s [] = []
release_entry s (e ∷ es) =
    if e.start == s then record e { readers = e.readers - 1 } ∷ es else e ∷ release_entry s es

-- How often a number is listed, how many entries a chunk has, and how many readers.
abbrev pub count : ℕ → List ℕ → ℕ
count s [] = 0
count s (x ∷ xs) = (if x == s then 1 else 0) + count s xs

abbrev pub copies : ℕ → List Entry → ℕ
copies s [] = 0
copies s (e ∷ es) = (if e.start == s then 1 else 0) + copies s es

abbrev pub readers_of : ℕ → List Entry → ℕ
readers_of s [] = 0
readers_of s (e ∷ es) = (if e.start == s then e.readers else 0) + readers_of s es

pub contains-count : (s : ℕ) (xs : List ℕ) → contains s xs ≡ false → count s xs ≡ 0
unfolding contains
contains-count s [] h = refl
contains-count s (x ∷ xs) h = ground (arith, contains-count s xs)

pub count-contains : (s : ℕ) (xs : List ℕ) → contains s xs ≡ true → 0 < count s xs
unfolding contains
count-contains s [] h = cc
count-contains s (x ∷ xs) h = ground (arith, count-contains s xs)

pub count-erase :
    (s r : ℕ) (xs : List ℕ)
    → count r (erase s xs) ≡ count r xs - (if s == r then (if contains s xs then 1 else 0) else 0)
unfolding erase contains
count-erase s r [] = ground arith
count-erase s r (x ∷ xs) = ground (arith, count-erase s r xs)

pub length-erase : (s : ℕ) (xs : List ℕ) → length (erase s xs) ≤ length xs
unfolding erase
length-erase s [] = omega arith
length-erase s (x ∷ xs) = ground (arith, length-erase s xs)

-- What taking an entry out changes.
abbrev pub Taken : ℕ → List Entry → Option (Entry × List Entry) → Type 0
Taken s es none = copies s es ≡ 0
Taken s es (some (e, rest)) =
    (e.start ≡ s)
    × (length es ≡ suc (length rest))
    × ((r : ℕ) → copies r es ≡ (if e.start == r then 1 else 0) + copies r rest)
    × ((r : ℕ) → readers_of r es ≡ (if e.start == r then e.readers else 0) + readers_of r rest)

abbrev later : Entry → Option (Entry × List Entry) → Option (Entry × List Entry)
later e found = elim found [ some (f, rest) ↦ some (f, e ∷ rest) | none ↦ none ]

later-Taken :
    (s : ℕ) (e : Entry) (es : List Entry) (found : Option (Entry × List Entry))
    → (e.start == s) ≡ false
    → Taken s es found
    → Taken s (e ∷ es) (later e found)
later-Taken s e es none miss t = ground (arith, t)
later-Taken s e es (some (f, rest)) miss (a, b, c, d) =
    (a, omega arith, λ r. omega (arith, c r), λ r. omega (arith, d r))

pub take_entry-Taken : (s : ℕ) (es : List Entry) → Taken s es (take_entry s es)
unfolding take_entry
take_entry-Taken s [] = refl
take_entry-Taken s (e ∷ es) = elim (Bool-cases (e.start == s)) [
  | inl here ↦ rw here (ground arith, refl, λ r. refl, λ r. refl)
  | inr there ↦ rw there (later-Taken s e es (take_entry s es) there (take_entry-Taken s es))
]

-- Every one of the entries has a reader.
abbrev pub AllRead : List Entry → Type 0
AllRead [] = Unit
AllRead (e ∷ es) = (0 < e.readers) × AllRead es

-- The last entry without a reader: all behind it are read.
abbrev pub LastFree : List Entry → Option (Entry × List Entry) → Type 0
LastFree es none = AllRead es
LastFree es (some (v, rest)) =
    (front : List Entry) × (behind : List Entry) × (es ≡ front ++ v ∷ behind)
    × (rest ≡ front ++ behind)
    × (v.readers ≡ 0)
    × AllRead behind

free_behind-LastFree :
    (e : Entry) (es : List Entry) (o : Option (Entry × List Entry))
    → LastFree es o
    → LastFree (e ∷ es) (elim o [
      | some (v, rest) ↦ some (v, e ∷ rest)
      | none ↦ if e.readers == 0 then some (e, es) else none
    ])
free_behind-LastFree e es (some (v, rest)) (front, behind, a, b, c, d) =
    (e ∷ front, behind, ap (◌∷◌ e) a, ap (◌∷◌ e) b, c, d)
free_behind-LastFree e es none h = elim (Bool-cases (e.readers == 0)) [
  | inl free ↦ rw free ([], es, refl, refl, ground arith, h)
  | inr read ↦ rw read (ground arith, h)
]

pub last_free-LastFree : (es : List Entry) → LastFree es (last_free es)
unfolding last_free
last_free-LastFree [] = tt
last_free-LastFree (e ∷ es) = free_behind-LastFree e es (last_free es) (last_free-LastFree es)

pub copies-append : (s : ℕ) (es fs : List Entry) → copies s (es ++ fs) ≡ copies s es + copies s fs
copies-append s [] fs = omega arith
copies-append s (e ∷ es) fs = omega (arith, copies-append s es fs)

pub readers_of-append :
    (s : ℕ) (es fs : List Entry) → readers_of s (es ++ fs) ≡ readers_of s es + readers_of s fs
readers_of-append s [] fs = omega arith
readers_of-append s (e ∷ es) fs = omega (arith, readers_of-append s es fs)

pub copies-release : (s r : ℕ) (es : List Entry) → copies r (release_entry s es) ≡ copies r es
unfolding release_entry
copies-release s r [] = refl
copies-release s r (e ∷ es) = ground (arith, copies-release s r es)

pub length-release : (s : ℕ) (es : List Entry) → length (release_entry s es) ≡ length es
unfolding release_entry
length-release s [] = refl
length-release s (e ∷ es) = ground (arith, length-release s es)

pub readers_of-none : (r : ℕ) (es : List Entry) → copies r es ≡ 0 → readers_of r es ≡ 0
readers_of-none r [] h = refl
readers_of-none r (e ∷ es) h = ground (arith, readers_of-none r es)

-- A chunk has one entry, so that the one that is found is the one that the reader holds.
pub readers_of-release :
    (s r : ℕ) (es : List Entry)
    → copies s es ≤ 1
    → readers_of r (release_entry s es) ≡ readers_of r es - (if s == r then 1 else 0)
unfolding release_entry
readers_of-release s r [] h = ground arith
readers_of-release s r (e ∷ es) h = ground (arith, readers_of-release s r es, readers_of-none s es)
