-- ===== src/Matcher/TopK/Sorted/Laws.antt =====
-- SortedTopK keeps the best candidates, in order.
use mathlib.Core.List.Perm
use mathlib.Core.List.{perm_append_singleton, mem-cons_self}
use mathlib.Core.Path.{subst}
use native.Mathlib.Nat.{add-zero}
use vapoursynth_nssfactory.Base.{
  ℕ, ◌-◌, ◌≤◌, ◌<◌, ◌≡◌, refl, sym, Bool, true, false, List, [], ◌∷◌, ◌++◌, ◌&&◌, ltb, ◌==◌, not,
  if◌then◌else◌, length, length-append, get_or, arith, Bool-cases, inl, inr, Perm,
}
use vapoursynth_nssfactory.Matcher.Order.{StrictWeak}
use vapoursynth_nssfactory.Matcher.TopK.Sort.{IsSorted, sort, sort-IsSorted, AllBefore-trans}
use vapoursynth_nssfactory.Matcher.TopK.Best.{IsBest, IsBest-perm}
use vapoursynth_nssfactory.Matcher.TopK.Steps.{
  IsBest-keep, IsBest-refuse, IsBest-exchange, IsBest-nil, IsBest-sort,
}
use vapoursynth_nssfactory.Matcher.TopK.Stream.{feed, feed_inv, seen_after, seen_all-perm}
use vapoursynth_nssfactory.Matcher.TopK.Stable.{AllBefore-empty}
use vapoursynth_nssfactory.Matcher.TopK.Sorted.{SortedTopK, empty, shift, add, finish}
use vapoursynth_nssfactory.Matcher.TopK.Sorted.Shift.{
  shunt, length-shunt, get_or-shunt, shunt-append, place, shift-place, place-perm, shunt-IsSorted,
  place-IsSorted, last_of_IsSorted,
}

module _ {ℓ} {A : Type ℓ} {less : A → A → Bool} (o : StrictWeak less) where
  -- A list that is not empty, cut before its last value.
  cut_last :
      (rl : List A) (x : A) (xs : List A)
      → (l : List A) × (w : A) × (shunt rl (x ∷ xs) ≡ shunt l (w ∷ []))
  cut_last rl x [] = (rl, x, refl)
  cut_last rl x (y ∷ xs) = cut_last (x ∷ rl) y xs

  -- The candidate against a full ascending storage.
  IsBest-shift :
      {k : ℕ} (seen : List A) (m : A) (rl : List A) (w : A)
      → IsBest less k seen (shunt rl (w ∷ []))
      → k ≤ length (shunt rl (w ∷ []))
      → IsSorted less (shunt rl (w ∷ []))
      → less m w ≡ true
      → let kept = place less m rl [] in IsBest less k (m ∷ seen) kept × IsSorted less kept
  IsBest-shift seen m rl w b full s h =
      let e = shunt-append rl (w ∷ []) in
      let q : Perm (shunt rl (w ∷ [])) (w ∷ shunt rl []) =
        rw e (perm_append_singleton w (shunt rl [])) in
      (
        IsBest-exchange o seen (shunt rl (w ∷ [])) (place less m rl []) m w b full
            ((Perm.mem_iff q).1 mem-cons_self)
            (rw e (last_of_IsSorted o (shunt rl []) w (rw e at s))) h
            (Perm.trans (Perm.cons w (place-perm less m rl []))
              (Perm.trans (Perm.swap m w (shunt rl [])) (Perm.cons m (Perm.symm q)))),
        place-IsSorted o m rl [] (shorter rl s) tt tt,
      )
    where
      shorter : (rl : List A) → IsSorted less (shunt rl (w ∷ [])) → IsSorted less (shunt rl [])
      shorter rl k = shunt-IsSorted o rl (w ∷ []) [] (λ _. tt) (λ _ _. tt) k

  abbrev inserted : A → List A → List A
  inserted m items =
      let last = length items - 1 in
      if not (less m (get_or items last m)) then items else shift less m last items

  abbrev Improved : ℕ → List A → A → List A → Type ℓ
  Improved k seen m items =
      IsBest less k seen items
      → k ≤ length items
      → IsSorted less items
      → IsBest less k (m ∷ seen) (inserted m items) × IsSorted less (inserted m items)

  insert-cut :
      (k : ℕ) (seen : List A) (m : A) (rl : List A) (w : A) → Improved k seen m (shunt rl (w ∷ []))
  insert-cut k seen m rl w b full s =
      let places : length (shunt rl (w ∷ [])) - 1 ≡ length rl =
        omega (arith, length-shunt rl (w ∷ [])) in
      let last : get_or (shunt rl (w ∷ [])) (length rl) m ≡ w =
        rw add-zero at (get_or-shunt rl (w ∷ []) 0 m) in
      let e = shunt-append rl (w ∷ []) in
      rw (places, last)
        (elim (Bool-cases (less m w)) [
          | inl h ↦ rw (h, shift-place less m rl w []) (IsBest-shift seen m rl w b full s h)
          | inr h ↦ rw h (
            IsBest-refuse o seen (shunt rl (w ∷ [])) m b full
                (AllBefore-trans o _ w m (rw e (last_of_IsSorted o (shunt rl []) w (rw e at s))) h),
            s,
          )
        ])

  insert-Improved :
      (k : ℕ) (seen : List A) (m : A) (items : List A) → 0 < length items → Improved k seen m items
  insert-Improved k seen m [] h = absurd (omega arith)
  insert-Improved k seen m (x ∷ xs) h =
      let (rl, w, e) = cut_last [] x xs in
      subst (Improved k seen m) (sym e) (insert-cut k seen m rl w)

  -- The invariant: the items are the best of what has been seen, and in order when there is no room.
  abbrev Keeps : ℕ → List A → SortedTopK A → Type ℓ
  Keeps k seen s =
      (s.capacity ≡ k) × IsBest less k seen s.items × (k ≤ length s.items → IsSorted less s.items)

  empty-IsSorted : (xs : List A) → length xs ≡ 0 → IsSorted less xs
  empty-IsSorted [] e = tt
  empty-IsSorted (x ∷ xs) e = absurd (omega arith)

  push-Keeps :
      (seen : List A) (s : SortedTopK A) (m : A)
      → IsBest less s.capacity seen s.items
      → length s.items < s.capacity
      → let pushed = s.items ++ m ∷ [] in
        Keeps s.capacity
          (m ∷ seen)
          (record s { items = if length pushed == s.capacity then sort less pushed else pushed })
  push-Keeps seen s m b room =
      let c = IsBest-keep o seen s.items m b room in
      elim (Bool-cases (length (s.items ++ m ∷ []) == s.capacity)) [
        | inl now ↦ rw now (refl, IsBest-sort o _ _ c, λ _. sort-IsSorted o (s.items ++ m ∷ []))
        | inr not_yet ↦
            rw not_yet (refl, c, λ full. absurd (ground (arith, length-append s.items (m ∷ []))))
      ]

  add-Keeps :
      (seen : List A) (s : SortedTopK A) (m : A)
      → Keeps s.capacity seen s
      → Keeps s.capacity (m ∷ seen) (add less s m)
  unfolding add
  add-Keeps seen s m (_, b, sorted) = elim (Bool-cases (s.capacity == 0)) [
    | inl nothing ↦ rw nothing (
      refl,
      IsBest-refuse o seen s.items m b (ground arith)
          (AllBefore-empty o s.items m (ground (arith, b.size))),
      λ _. empty-IsSorted s.items (ground (arith, b.size)),
    )
    | inr some_capacity ↦ elim (Bool-cases (ltb (length s.items) s.capacity)) [
      | inl room ↦ rw (some_capacity, room) (push-Keeps seen s m b (ground arith))
      | inr full ↦
          let full_le : s.capacity ≤ length s.items = ground arith in
          let (c, t) =
            insert-Improved s.capacity seen m s.items (ground arith) b full_le (sorted full_le) in
          rw (some_capacity, full)
            (chosen (not (less m (get_or s.items (length s.items - 1) m))) _ c t)
    ]
  ]
    where
      chosen :
          (refused : Bool) (items : List A)
          → IsBest less s.capacity (m ∷ seen) (if refused then s.items else items)
          → IsSorted less (if refused then s.items else items)
          → Keeps s.capacity (m ∷ seen) (if refused then s else record s { items = items })
      chosen true items c t = (refl, c, λ _. t)
      chosen false items c t = (refl, c, λ _. t)

  finish-IsBest :
      (k : ℕ) (seen : List A) (s : SortedTopK A)
      → Keeps k seen s
      → IsBest less k seen (finish less s) × IsSorted less (finish less s)
  unfolding finish
  finish-IsBest k seen s (c, b, sorted) =
      elim (Bool-cases (ltb 1 (length s.items) && ltb (length s.items) s.capacity)) [
        | inl h ↦ rw h (IsBest-sort o seen s.items b, sort-IsSorted o s.items)
        | inr h ↦ rw h (
          b,
          elim (Bool-cases (ltb 1 (length s.items))) [
            | inl many ↦ sorted (ground arith)
            | inr few ↦ short s.items (ground arith)
          ],
        )
      ]
    where
      short : (xs : List A) → length xs ≤ 1 → IsSorted less xs
      short [] h = tt
      short (x ∷ []) h = (tt, tt)
      short (x ∷ y ∷ xs) h = absurd (omega arith)

  -- After any stream of candidates, `finish` of a SortedTopK leaves in ascending order as many of
  -- the candidates as the capacity allows, and no other candidate comes before one of them.
  pub SortedTopK-IsBest :
      (capacity : ℕ) (candidates : List A)
      → let kept = finish less (feed (add less) (empty capacity) candidates) in
        IsBest less capacity candidates kept × IsSorted less kept
  SortedTopK-IsBest k ms =
      let (b, t) =
        finish-IsBest k (seen_after ms []) _
          (feed_inv (add less) (Keeps k) step [] (empty k) ms (refl, IsBest-nil o k, λ _. tt)) in
      (IsBest-perm o (seen_all-perm ms) b, t)
    where
      step :
          (seen : List A) (s : SortedTopK A) (m : A)
          → Keeps k seen s
          → Keeps k (m ∷ seen) (add less s m)
      step seen s m h =
          subst (λ c. Keeps c seen s → Keeps c (m ∷ seen) (add less s m)) h.0 (add-Keeps seen s m) h
