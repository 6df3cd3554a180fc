-- ===== src/Matcher/TopK/Sorted/Shift.antt =====
-- The insertion loop of SortedTopK on a list cut at the place that is free.
use mathlib.Core.List.Perm
use mathlib.Core.List.{append_assoc, perm_middle, mem-append_right, mem-cons_self}
use native.Mathlib.Nat.{zero-add, add-zero}
use native.Mathlib.Numerals.{add-one}
use vapoursynth_nssfactory.Base.{
  ℕ, suc, ◌+◌, ◌≡◌, refl, ap, ◌∙◌, sym, Bool, List, [], ◌∷◌, ◌++◌, if◌then◌else◌, length, get_or,
  set, arith, Bool-cases, inl, inr, Perm,
}
use vapoursynth_nssfactory.Matcher.Order.{StrictWeak}
use vapoursynth_nssfactory.Matcher.TopK.Sort.{IsSorted, irrefl, AllBefore, AllAfter}
use vapoursynth_nssfactory.Matcher.TopK.Best.{AllAfter-mem}
use vapoursynth_nssfactory.Matcher.TopK.Sorted.{shift}

-- A list as a reversed first part and a rest.
abbrev pub shunt {ℓ} : {A : Type ℓ} → List A → List A → List A
shunt [] r = r
shunt (y ∷ rl) r = shunt rl (y ∷ r)

module _ {ℓ} {A : Type ℓ} where
  pub length-shunt : (rl r : List A) → length (shunt rl r) ≡ length rl + length r
  length-shunt [] r = omega arith
  length-shunt (y ∷ rl) r = omega (arith, length-shunt rl (y ∷ r))

  pub get_or-shunt :
      (rl r : List A) (i : ℕ) (d : A) → get_or (shunt rl r) (length rl + i) d ≡ get_or r i d
  get_or-shunt [] r i d = rw zero-add
  get_or-shunt (y ∷ rl) r i d =
      let e : suc (length rl) + i ≡ length rl + suc i = omega arith in
      rw e (get_or-shunt rl (y ∷ r) (suc i) d)

  set-shunt :
      (rl r : List A) (i : ℕ) (v : A) → set (shunt rl r) (length rl + i) v ≡ shunt rl (set r i v)
  set-shunt [] r i v = rw zero-add
  set-shunt (y ∷ rl) r i v =
      let e : suc (length rl) + i ≡ length rl + suc i = omega arith in
      rw e (set-shunt rl (y ∷ r) (suc i) v)

  pub shunt-append : (rl r : List A) → shunt rl r ≡ shunt rl [] ++ r
  shunt-append [] r = refl
  shunt-append (y ∷ rl) r =
      shunt-append rl (y ∷ r)
      ∙ sym (append_assoc (shunt rl []) (y ∷ []) r)
      ∙ ap (λ l. l ++ r) (sym (shunt-append rl (y ∷ [])))

  shunt-middle :
      (rl : List A) (y m : A) (r : List A) → Perm (shunt rl (y ∷ m ∷ r)) (m ∷ shunt rl (y ∷ r))
  shunt-middle rl y m r =
      rw (shunt-append rl (y ∷ m ∷ r), shunt-append rl (y ∷ r))
        (Perm.trans (Perm.append_left (shunt rl []) (Perm.swap m y r))
          (perm_middle (shunt rl []) (y ∷ r)))

module _ {ℓ} {A : Type ℓ} (less : A → A → Bool) where
  -- The loop on a list cut at its place: the first part backwards, then the rest behind the place.
  pub place : A → List A → List A → List A
  place m [] r = m ∷ r
  place m (y ∷ rl) r = if less m y then place m rl (y ∷ r) else shunt (y ∷ rl) (m ∷ r)

  pub shift-place :
      (m : A) (rl : List A) (x : A) (r : List A)
      → shift less m (length rl) (shunt rl (x ∷ r)) ≡ place m rl r
  unfolding shift place
  shift-place m [] x r = refl
  shift-place m (y ∷ rl) x r =
      let at : get_or (shunt rl (y ∷ x ∷ r)) (length rl) m ≡ y =
        rw (add-zero) at (get_or-shunt rl (y ∷ x ∷ r) 0 m) in
      let write : (v : A) → set (shunt rl (y ∷ x ∷ r)) (suc (length rl)) v ≡ shunt rl (y ∷ v ∷ r) =
        λ v. rw add-one at (set-shunt rl (y ∷ x ∷ r) 1 v) in
      rw (at, write y, write m)
        (ap (λ l. if less m y then l else shunt rl (y ∷ m ∷ r)) (shift-place m rl y (y ∷ r)))

  pub place-perm : (m : A) (rl r : List A) → Perm (place m rl r) (m ∷ shunt rl r)
  unfolding place
  place-perm m [] r = Perm.rfl
  place-perm m (y ∷ rl) r = elim (Bool-cases (less m y)) [
    | inl h ↦ rw h (place-perm m rl (y ∷ r))
    | inr h ↦ rw h (shunt-middle rl y m r)
  ]

module _ {ℓ} {A : Type ℓ} {less : A → A → Bool} (o : StrictWeak less) where
  pub shunt-IsSorted :
      (rl s s' : List A)
      → (IsSorted less s → IsSorted less s')
      → ((a : A) → AllAfter less a s → AllAfter less a s')
      → IsSorted less (shunt rl s)
      → IsSorted less (shunt rl s')
  shunt-IsSorted [] s s' f g h = f h
  shunt-IsSorted (z ∷ rl) s s' f g h =
      shunt-IsSorted rl (z ∷ s) (z ∷ s') (λ k. (g z k.0, f k.1)) (λ a k. (k.0, g a k.1)) h

  pub place-IsSorted :
      (m : A) (rl r : List A)
      → IsSorted less (shunt rl r)
      → IsSorted less r
      → AllAfter less m r
      → IsSorted less (place less m rl r)
  unfolding place
  place-IsSorted m [] r s t h = (h, t)
  place-IsSorted m (y ∷ rl) r s t h = elim (Bool-cases (less m y)) [
    | inl e ↦ rw e (place-IsSorted m rl (y ∷ r) s (suffix rl (y ∷ r) s) (o.asym m y e, h))
    | inr e ↦ rw e (
        shunt-IsSorted rl (y ∷ r) (y ∷ m ∷ r) (λ k. ((e, k.0), (h, t)))
          (λ a k. (k.0, (o.trans a y m k.0 e, k.1))) s)
  ]
    where
      suffix : (rl r : List A) → IsSorted less (shunt rl r) → IsSorted less r
      suffix [] r k = k
      suffix (z ∷ rl) r k = (suffix rl (z ∷ r) k).1

  pub last_of_IsSorted :
      (ys : List A) (w : A) → IsSorted less (ys ++ w ∷ []) → AllBefore less (ys ++ w ∷ []) w
  last_of_IsSorted [] w s = (irrefl o w, tt)
  last_of_IsSorted (y ∷ ys) w s = (
    AllAfter-mem o y w (ys ++ w ∷ []) s.0 (mem-append_right ys mem-cons_self),
    last_of_IsSorted ys w s.1,
  )
