-- ===== src/Matcher/TopK/Sorted.antt =====
-- SortedTopK: the kept values in ascending order as soon as the storage is full.
pub mod Shift
pub mod Laws
use vapoursynth_nssfactory.Base.{
  ℕ, zero, suc, ◌+◌, ◌-◌, Bool, List, [], ◌∷◌, ◌++◌, ◌&&◌, ltb, ◌==◌, not, if◌then◌else◌, length,
  get_or, set,
}
use vapoursynth_nssfactory.Matcher.TopK.Sort.{sort}

pub record SortedTopK {ℓ} (A : Type ℓ) : Type ℓ where
  pub items : List A
  pub capacity : ℕ

abbrev pub empty {ℓ} : {A : Type ℓ} → ℕ → SortedTopK A
empty capacity = record { items = []; capacity = capacity }

module _ {ℓ} {A : Type ℓ} (less : A → A → Bool) where
  -- `while (pos > 0 && match_less(candidate, storage[pos - 1])) { storage[pos] = storage[pos - 1];
  -- --pos; } storage[pos] = candidate;`
  pub shift : A → ℕ → List A → List A
  shift m zero storage = set storage 0 m
  shift m (suc pos) storage =
      if less m (get_or storage pos m)
      then shift m pos (set storage (suc pos) (get_or storage pos m))
      else set storage (suc pos) m

  pub add : SortedTopK A → A → SortedTopK A
  unfolding shift
  add s m =
      if s.capacity == 0
      then s
      else if ltb (length s.items) s.capacity
      then (let pushed = s.items ++ m ∷ [] in
          record s { items = if length pushed == s.capacity then sort less pushed else pushed })
      else if not (less m (get_or s.items (length s.items - 1) m))
      then s
      else record s { items = shift m (length s.items - 1) s.items }

  pub finish : SortedTopK A → List A
  finish s =
      if ltb 1 (length s.items) && ltb (length s.items) s.capacity
      then sort less s.items
      else s.items
