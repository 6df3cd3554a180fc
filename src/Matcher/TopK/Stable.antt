-- ===== src/Matcher/TopK/Stable.antt =====
-- StableTopK: the kept values in the order of their arrival, and a scan for the worst.
use mathlib.Core.List.{mem-cons_self, mem-cons_of_mem, append-nil}
use mathlib.Core.List.Perm
use vapoursynth_nssfactory.Base.{
  ℕ, zero, suc, ◌≤◌, ◌<◌, ◌≡◌, refl, ap, Bool, true, false, List, [], ◌∷◌, ◌++◌, Mem, some, ltb,
  ◌==◌, if◌then◌else◌, length, get_elem?, get_or, set, take, arith, Bool-cases, inl, inr, ℤ, pos,
  negsuc,
}
use vapoursynth_nssfactory.Matcher.Order.{StrictWeak}
use vapoursynth_nssfactory.Matcher.TopK.Sort.{
  IsSorted, sort, sort-IsSorted, scan, AllBefore, AllBefore-trans, IsWorst, scan-IsWorst,
}
use vapoursynth_nssfactory.Matcher.TopK.Best.{IsBest, IsBest-perm, Before}
use vapoursynth_nssfactory.Matcher.TopK.Steps.{
  IsBest-keep, IsBest-refuse, IsBest-exchange, IsBest-nil, IsBest-sort, set-perm,
}
use vapoursynth_nssfactory.Matcher.TopK.Stream.{
  feed, feed_inv, seen_after, seen_after-perm, seen_all-perm,
}

pub record StableTopK {ℓ} (A : Type ℓ) : Type ℓ where
  pub items : List A
  pub capacity : ℕ

abbrev pub empty {ℓ} : {A : Type ℓ} → ℕ → StableTopK A
empty capacity = record { items = []; capacity = capacity }

module _ {ℓ} {A : Type ℓ} (less : A → A → Bool) where
  unfoldable pub add : StableTopK A → A → StableTopK A
  add s candidate =
      if s.capacity == 0
      then s
      else if ltb (length s.items) s.capacity
      then record s { items = s.items ++ candidate ∷ [] }
      else let worst = scan less s.items in
        if less candidate (get_or s.items worst candidate)
        then record s { items = set s.items worst candidate }
        else s

  -- What `finish` leaves in the storage; it returns the number of these.
  unfoldable pub finish : StableTopK A → List A
  finish s = if ltb 1 (length s.items) then sort less s.items else s.items

-- `storage` is what the storage holds: its first values count as already kept.
unfoldable pub adopt {ℓ} : {A : Type ℓ} → StableTopK A → List A → ℤ → StableTopK A
adopt s storage (negsuc n) = record s { items = [] }
adopt s storage (pos already) =
    if s.capacity == 0
    then record s { items = [] }
    else record s { items = take (if ltb s.capacity already then s.capacity else already) storage }

pub get_elem?-mem {ℓ} :
    {A : Type ℓ} (xs : List A) (i : ℕ) (a : A) → get_elem? xs i ≡ some a → Mem a xs
get_elem?-mem [] i a e = cc
get_elem?-mem (x ∷ xs) zero a e = let same : a ≡ x = cc in rw same mem-cons_self
get_elem?-mem (x ∷ xs) (suc i) a e = mem-cons_of_mem x (get_elem?-mem xs i a e)

pub get_or-eq {ℓ} :
    {A : Type ℓ} (xs : List A) (i : ℕ) (a d : A) → get_elem? xs i ≡ some a → get_or xs i d ≡ a
get_or-eq [] i a d e = cc
get_or-eq (x ∷ xs) zero a d e = cc
get_or-eq (x ∷ xs) (suc i) a d e = get_or-eq xs i a d e

module _ {ℓ} {A : Type ℓ} {less : A → A → Bool} (o : StrictWeak less) where
  -- The candidate against a full storage whose worst value is known.
  pub IsBest-challenge :
      {k : ℕ} (seen kept : List A) (m : A) (i : ℕ)
      → IsBest less k seen kept
      → k ≤ length kept
      → IsWorst less kept i
      → IsBest less k (m ∷ seen) (if less m (get_or kept i m) then set kept i m else kept)
  IsBest-challenge seen kept m i b full v =
      let e = get_or-eq kept i v.value m v.at in
      elim (Bool-cases (less m v.value)) [
        | inl h ↦
            rw (e, h)
              (IsBest-exchange o seen kept (set kept i m) m v.value b full
                (get_elem?-mem kept i v.value v.at) v.last h (set-perm kept i v.value m v.at))
        | inr h ↦
            rw (e, h)
              (IsBest-refuse o seen kept m b full (AllBefore-trans o kept v.value m v.last h))
      ]

  pub AllBefore-empty : (xs : List A) (a : A) → length xs ≡ 0 → AllBefore less xs a
  AllBefore-empty [] a e = tt
  AllBefore-empty (x ∷ xs) a e = absurd (omega arith)

  scan-IsWorst_full : (kept : List A) → 0 < length kept → IsWorst less kept (scan less kept)
  scan-IsWorst_full [] h = absurd (omega arith)
  scan-IsWorst_full (x ∷ kept) h = scan-IsWorst o x kept

  -- The invariant of a policy: its items are the best of what has been seen.
  abbrev pub Keeps : ℕ → List A → StableTopK A → Type ℓ
  Keeps k seen s = (s.capacity ≡ k) × IsBest less k seen s.items

  add-Keeps :
      (k : ℕ) (seen : List A) (s : StableTopK A) (m : A)
      → Keeps k seen s
      → Keeps k (m ∷ seen) (add less s m)
  unfolding add
  add-Keeps k seen s m (c, b) = elim (Bool-cases (s.capacity == 0)) [
    | inl zero_capacity ↦ rw zero_capacity (
      c,
      IsBest-refuse o seen s.items m b (ground arith)
          (AllBefore-empty s.items m (ground (arith, b.size))),
    )
    | inr some_capacity ↦ elim (Bool-cases (ltb (length s.items) s.capacity)) [
      | inl room ↦ rw (some_capacity, room) (c, IsBest-keep o seen s.items m b (ground arith))
      | inr full ↦
          rw (some_capacity, full)
            (challenged _ (scan less s.items) c (
              IsBest-challenge seen s.items m (scan less s.items) b (ground arith)
                (scan-IsWorst_full s.items (ground arith))))
    ]
  ]
    where
      challenged :
          (b : Bool) (i : ℕ)
          → s.capacity ≡ k
          → IsBest less k (m ∷ seen) (if b then set s.items i m else s.items)
          → Keeps k (m ∷ seen) (if b then record s { items = set s.items i m } else s)
      challenged true i c h = (c, h)
      challenged false i c h = (c, h)

  finish-IsBest :
      (k : ℕ) (seen : List A) (s : StableTopK A)
      → Keeps k seen s
      → IsBest less k seen (finish less s) × IsSorted less (finish less s)
  unfolding finish
  finish-IsBest k seen s (c, b) = elim (Bool-cases (ltb 1 (length s.items))) [
    | inl h ↦ rw h (IsBest-sort o seen s.items b, sort-IsSorted o s.items)
    | inr h ↦ rw h (b, short s.items (ground arith))
  ]
    where
      short : (xs : List A) → length xs ≤ 1 → IsSorted less xs
      short [] h = tt
      short (x ∷ []) h = (tt, tt)
      short (x ∷ y ∷ xs) h = absurd (omega arith)

  -- More candidates, on top of those seen.
  pub finish-feed-IsBest :
      (k : ℕ) (seen : List A) (s : StableTopK A) (ms : List A)
      → Keeps k seen s
      → let kept = finish less (feed (add less) s ms) in
        IsBest less k (ms ++ seen) kept × IsSorted less kept
  finish-feed-IsBest k seen s ms h =
      let (b, s) =
        finish-IsBest k (seen_after ms seen) _
          (feed_inv (add less) (Keeps k) (add-Keeps k) seen s ms h) in
      (IsBest-perm o (seen_after-perm ms seen) b, s)

  take_all : (xs : List A) → take (length xs) xs ≡ xs
  take_all [] = refl
  take_all (x ∷ xs) = ap (λ ys. x ∷ ys) (take_all xs)

  Before-nil : (xs : List A) → Before less xs []
  Before-nil [] = tt
  Before-nil (x ∷ xs) = (tt, Before-nil xs)

  -- A list is the best of itself.
  pub IsBest-all : (k : ℕ) (xs : List A) → length xs ≤ k → IsBest less k xs xs
  IsBest-all k xs h = record {
    rejected = [];
    perm = rw append-nil Perm.rfl;
    best = Before-nil xs;
    size = omega (arith, h);
  }

  pub IsBest-none : (xs : List A) → IsBest less 0 xs []
  IsBest-none xs = record { rejected = xs; perm = Perm.rfl; best = tt; size = omega arith }

  -- What `adopt` takes over, where there is room for it.
  pub adopt-Keeps :
      (k : ℕ) (seen : List A)
      → length seen ≤ k
      → Keeps k seen (adopt (empty k) seen (pos (length seen)))
  unfolding adopt
  adopt-Keeps k seen h = elim (Bool-cases (k == 0)) [
    | inl none_fit ↦ rw none_fit (refl, nothing seen (ground arith))
    | inr some_fit ↦
        let room : ltb k (length seen) ≡ false = ground arith in
        rw (some_fit, room, take_all seen) (refl, IsBest-all k seen h)
  ]
    where
      nothing : (xs : List A) → length xs ≡ 0 → IsBest less k xs []
      nothing [] h = IsBest-nil o k
      nothing (x ∷ xs) h = absurd (omega arith)

  -- After any stream of candidates, `finish` of a StableTopK leaves in ascending order as many of
  -- the candidates as the capacity allows, and no other candidate comes before one of them.
  pub StableTopK-IsBest :
      (capacity : ℕ) (candidates : List A)
      → let kept = finish less (feed (add less) (empty capacity) candidates) in
        IsBest less capacity candidates kept × IsSorted less kept
  StableTopK-IsBest k ms =
      let (b, s) =
        finish-IsBest k (seen_after ms []) _
          (feed_inv (add less) (Keeps k) (add-Keeps k) [] (empty k) ms (refl, IsBest-nil o k)) in
      (IsBest-perm o (seen_all-perm ms) b, s)
