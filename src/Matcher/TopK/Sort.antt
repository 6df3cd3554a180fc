-- ===== src/Matcher/TopK/Sort.antt =====
-- std::sort, and the scan for the worst of the kept values.
use mathlib.Core.List.{append_assoc, append-nil}
use mathlib.Core.List.Perm
use vapoursynth_nssfactory.Base.{
  ℕ, suc, ◌≡◌, refl, sym, ◌∙◌, inl, inr, Bool, false, List, [], ◌∷◌, ◌++◌, Perm, some,
  if◌then◌else◌, length, length-append, get_elem?, arith, Bool-cases,
}
use vapoursynth_nssfactory.Matcher.Order.{StrictWeak}

-- A value and all of a list: none of the list comes before it, or it comes before none of the list.
module _ {ℓ} {A : Type ℓ} (less : A → A → Bool) where
  abbrev pub AllAfter : A → List A → Type 0
  AllAfter a [] = Unit
  AllAfter a (x ∷ xs) = (less x a ≡ false) × AllAfter a xs

  abbrev pub AllBefore : List A → A → Type 0
  AllBefore [] b = Unit
  AllBefore (x ∷ xs) b = (less b x ≡ false) × AllBefore xs b

  -- No later value comes before an earlier one.
  abbrev pub IsSorted : List A → Type 0
  IsSorted [] = Unit
  IsSorted (x ∷ xs) = AllAfter x xs × IsSorted xs

  -- An insertion sort stands for std::sort.
  unfoldable pub insert : A → List A → List A
  insert a [] = a ∷ []
  insert a (b ∷ bs) = if less b a then b ∷ insert a bs else a ∷ b ∷ bs

  unfoldable pub sort : List A → List A
  unfolding insert
  sort [] = []
  sort (a ∷ rest) = insert a (sort rest)

  -- `for (; i < size; ++i) if (match_less(storage[worst], storage[i])) worst = i;` where `rest` is
  -- storage[i, size) and `w` is storage[worst].
  unfoldable pub scan_from : A → ℕ → ℕ → List A → ℕ
  scan_from w worst i [] = worst
  scan_from w worst i (a ∷ rest) =
      scan_from (if less w a then a else w) (if less w a then i else worst) (suc i) rest

  unfoldable pub scan : List A → ℕ
  unfolding scan_from
  scan [] = 0
  scan (a ∷ rest) = scan_from a 0 1 rest

get_elem?-middle {ℓ} :
    {A : Type ℓ} (pre : List A) (a : A) (rest : List A)
    → get_elem? (pre ++ a ∷ rest) (length pre) ≡ some a
get_elem?-middle [] a rest = refl
get_elem?-middle (x ∷ pre) a rest = get_elem?-middle pre a rest

module _ {ℓ} {A : Type ℓ} {less : A → A → Bool} (o : StrictWeak less) where
  pub irrefl : (a : A) → less a a ≡ false
  irrefl a = ground (arith, o.asym a a)

  AllAfter-trans :
      (a b : A) (xs : List A) → less b a ≡ false → AllAfter less b xs → AllAfter less a xs
  AllAfter-trans a b [] h k = tt
  AllAfter-trans a b (x ∷ xs) h k = (o.trans a b x h k.0, AllAfter-trans a b xs h k.1)

  pub AllBefore-trans :
      (xs : List A) (b c : A) → AllBefore less xs b → less c b ≡ false → AllBefore less xs c
  AllBefore-trans [] b c h k = tt
  AllBefore-trans (x ∷ xs) b c h k = (o.trans x b c h.0 k, AllBefore-trans xs b c h.1 k)

  insert-AllAfter :
      (a b : A) (xs : List A)
      → less b a ≡ false
      → AllAfter less a xs
      → AllAfter less a (insert less b xs)
  unfolding insert
  insert-AllAfter a b [] h k = (h, tt)
  insert-AllAfter a b (x ∷ xs) h k = ground (arith, insert-AllAfter a b xs h k.1)

  insert-IsSorted : (a : A) (xs : List A) → IsSorted less xs → IsSorted less (insert less a xs)
  unfolding insert
  insert-IsSorted a [] s = (tt, tt)
  insert-IsSorted a (x ∷ xs) s = elim (Bool-cases (less x a)) [
    | inl h ↦ rw h (insert-AllAfter x a xs (o.asym x a h) s.0, insert-IsSorted a xs s.1)
    | inr h ↦ rw h ((h, AllAfter-trans a x xs h s.0), s)
  ]

  pub sort-IsSorted : (xs : List A) → IsSorted less (sort less xs)
  unfolding sort
  sort-IsSorted [] = tt
  sort-IsSorted (x ∷ xs) = insert-IsSorted x (sort less xs) (sort-IsSorted xs)

module _ {ℓ} {A : Type ℓ} (less : A → A → Bool) where
  insert-perm : (a : A) (xs : List A) → Perm (insert less a xs) (a ∷ xs)
  unfolding insert
  insert-perm a [] = Perm.rfl
  insert-perm a (x ∷ xs) = elim (Bool-cases (less x a)) [
    | inl h ↦ rw h (Perm.trans (Perm.cons x (insert-perm a xs)) (Perm.swap a x xs))
    | inr h ↦ rw h Perm.rfl
  ]

  pub sort-perm : (xs : List A) → Perm (sort less xs) xs
  unfolding sort
  sort-perm [] = Perm.rfl
  sort-perm (x ∷ xs) = Perm.trans (insert-perm x (sort less xs)) (Perm.cons x (sort-perm xs))

-- A place of the list that holds a value which none of the list comes after.
pub record IsWorst {ℓ} {A : Type ℓ} (less : A → A → Bool) (items : List A) (i : ℕ) : Type ℓ where
  pub value : A
  pub at : get_elem? items i ≡ some value
  pub last : AllBefore less items value

module _ {ℓ} {A : Type ℓ} {less : A → A → Bool} (o : StrictWeak less) where
  AllBefore-snoc :
      (xs : List A) (a b : A)
      → AllBefore less xs b
      → less b a ≡ false
      → AllBefore less (xs ++ a ∷ []) b
  AllBefore-snoc [] a b h k = (k, tt)
  AllBefore-snoc (x ∷ xs) a b h k = (h.0, AllBefore-snoc xs a b h.1 k)

  scan_from-IsWorst :
      (full pre rest : List A) (w : A) (worst i : ℕ)
      → full ≡ pre ++ rest
      → i ≡ length pre
      → get_elem? full worst ≡ some w
      → AllBefore less pre w
      → IsWorst less full (scan_from less w worst i rest)
  unfolding scan_from
  scan_from-IsWorst full pre [] w worst i e l at last = record {
    value = w;
    at = at;
    last = rw (e, append-nil pre) last;
  }
  scan_from-IsWorst full pre (a ∷ rest) w worst i e l at last =
      let e' : full ≡ (pre ++ a ∷ []) ++ rest = e ∙ sym (append_assoc pre (a ∷ []) rest) in
      let l' : suc i ≡ length (pre ++ a ∷ []) = omega (arith, length-append pre (a ∷ [])) in
      elim (Bool-cases (less w a)) [
        | inl h ↦ rw h (
            scan_from-IsWorst full (pre ++ a ∷ []) rest a i (suc i) e' l'
              (rw (e, l) (get_elem?-middle pre a rest))
              (AllBefore-snoc pre a a (AllBefore-trans o pre w a last (o.asym w a h)) (irrefl o a)))
        | inr h ↦ rw h (
            scan_from-IsWorst full (pre ++ a ∷ []) rest w worst (suc i) e' l' at
              (AllBefore-snoc pre a w last h))
      ]

  pub scan-IsWorst : (a : A) (rest : List A) → IsWorst less (a ∷ rest) (scan less (a ∷ rest))
  unfolding scan
  scan-IsWorst a rest =
      scan_from-IsWorst (a ∷ rest) (a ∷ []) rest a 0 1 refl refl refl (irrefl o a, tt)
