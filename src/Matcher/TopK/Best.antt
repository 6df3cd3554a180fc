-- ===== src/Matcher/TopK/Best.antt =====
-- What a policy has to keep: the best of the values seen, as many as there is room for.
use mathlib.Core.Bool.{Bool-set}
use mathlib.Core.Path.{ap₂}
use mathlib.Core.Logic.{∥∥₁_elim}
use mathlib.Core.Logic.Or
use mathlib.Core.List.{Permᴰ, mem-cons, mem-cons_self, mem-cons_of_mem, not-mem-nil}
use mathlib.Core.List.Perm
use native.Mathlib.Nat.{ℕ_set}
use vapoursynth_nssfactory.Base.{
  ℕ, suc, ◌≡◌, refl, sym, ap, ◌∙◌, Bool, false, List, [], ◌∷◌, ◌++◌, Perm, Mem, length, arith, min,
}
use vapoursynth_nssfactory.Matcher.Order.{StrictWeak}
use vapoursynth_nssfactory.Matcher.TopK.Sort.{
  AllAfter, IsSorted, sort, sort-IsSorted, sort-perm, irrefl,
}

module _ {ℓ} {A : Type ℓ} (less : A → A → Bool) where
  -- None of the second list comes before one of the first.
  abbrev pub Before : List A → List A → Type 0
  Before [] rejected = Unit
  Before (x ∷ xs) rejected = AllAfter less x rejected × Before xs rejected

  -- `kept` are `capacity` of the values of `seen`, or all if there are fewer, and none of the
  -- others comes before one of them.
  pub record IsBest (capacity : ℕ) (seen kept : List A) : Type ℓ where
    pub rejected : List A
    pub perm : Perm (kept ++ rejected) seen
    pub best : Before kept rejected
    pub size : length kept ≡ min capacity (length seen)

module _ {ℓ} {A : Type ℓ} where
  length-permᴰ : {xs ys : List A} → Permᴰ xs ys → length xs ≡ length ys
  length-permᴰ Permᴰ.nil = refl
  length-permᴰ (Permᴰ.cons e p) = ap suc (length-permᴰ p)
  length-permᴰ (Permᴰ.swap e f) = refl
  length-permᴰ (Permᴰ.trans p q) = length-permᴰ p ∙ length-permᴰ q

  pub length-perm : {xs ys : List A} → Perm xs ys → length xs ≡ length ys
  length-perm p = ∥∥₁_elim p (ℕ_set _ _) length-permᴰ

  append_cancel : (xs ys r s : List A) → length xs ≡ length ys → xs ++ r ≡ ys ++ s → xs ≡ ys
  append_cancel [] [] r s l e = refl
  append_cancel [] (y ∷ ys) r s l e = absurd (omega arith)
  append_cancel (x ∷ xs) [] r s l e = absurd (omega arith)
  append_cancel (x ∷ xs) (y ∷ ys) r s l e =
      let tails : xs ≡ ys = append_cancel xs ys r s (omega arith) (cc) in cc

-- No two different values of the list are alike in the order.
abbrev pub Separates {ℓ} : {A : Type ℓ} → (A → A → Bool) → List A → Type ℓ
Separates {A} less xs =
    (a b : A) → Mem a xs → Mem b xs → less a b ≡ false → less b a ≡ false → a ≡ b

module _ {ℓ} {A : Type ℓ} {less : A → A → Bool} (o : StrictWeak less) where
  pub IsBest-perm :
      {k : ℕ} {xs ys kept : List A} → Perm xs ys → IsBest less k xs kept → IsBest less k ys kept
  IsBest-perm {k} p b = record {
    rejected = b.rejected;
    perm = Perm.trans b.perm p;
    best = b.best;
    size = b.size ∙ ap (min k) (length-perm p);
  }

  pub AllAfter-mem : (a x : A) (xs : List A) → AllAfter less a xs → Mem x xs → less x a ≡ false
  AllAfter-mem a x [] h m = absurd (not-mem-nil m)
  AllAfter-mem a x (y ∷ xs) h m =
      Or.elim (Bool-set _ _) (mem-cons.0 m) (λ e. rw e h.0) (AllAfter-mem a x xs h.1)

  pub AllAfter-of_mem :
      (a : A) (xs : List A) → ((x : A) → Mem x xs → less x a ≡ false) → AllAfter less a xs
  AllAfter-of_mem a [] h = tt
  AllAfter-of_mem a (x ∷ xs) h =
      (h x mem-cons_self, AllAfter-of_mem a xs (λ y m. h y (mem-cons_of_mem x m)))

  head_after :
      (a b : A) (l r : List A) → IsSorted less (a ∷ l) → Perm (b ∷ r) (a ∷ l) → less b a ≡ false
  head_after a b l r s p =
      AllAfter-mem a b (a ∷ l) (irrefl o a, s.0) ((Perm.mem_iff p).0 mem-cons_self)

  -- Sorted lists of the same values are equal, if the order tells their values apart.
  pub IsSorted-eq_of_perm :
      (l r : List A) → Separates less l → IsSorted less l → IsSorted less r → Perm l r → l ≡ r
  IsSorted-eq_of_perm [] r d sl sr p = Perm.nil-eq p
  IsSorted-eq_of_perm (a ∷ l) [] d sl sr p = Perm.eq-nil p
  IsSorted-eq_of_perm (a ∷ l) (b ∷ r) d sl sr p =
      let heads : a ≡ b =
        d a b mem-cons_self ((Perm.mem_iff p).1 mem-cons_self) (head_after b a r l sr p)
          (head_after a b l r sl (Perm.symm p)) in
      let tails = Perm.cons_inv (Perm.trans p (Perm.symm (Perm.cons' heads Perm.rfl))) in
      ap₂ ◌∷◌ heads (
        IsSorted-eq_of_perm l r (λ x y m n. d x y (mem-cons_of_mem a m) (mem-cons_of_mem a n)) sl.1
          sr.1 tails)

  AllAfter-perm : (a : A) (xs ys : List A) → Perm ys xs → AllAfter less a xs → AllAfter less a ys
  AllAfter-perm a xs ys p h =
      AllAfter-of_mem a ys (λ x m. AllAfter-mem a x xs h ((Perm.mem_iff p).0 m))

  AllAfter-append :
      (a : A) (xs ys : List A)
      → AllAfter less a xs
      → AllAfter less a ys
      → AllAfter less a (xs ++ ys)
  AllAfter-append a [] ys h k = k
  AllAfter-append a (x ∷ xs) ys h k = (h.0, AllAfter-append a xs ys h.1 k)

  IsSorted-append :
      (kept rest rejected : List A)
      → IsSorted less kept
      → IsSorted less rest
      → Perm rest rejected
      → Before less kept rejected
      → IsSorted less (kept ++ rest)
  IsSorted-append [] rest rejected s t p b = t
  IsSorted-append (x ∷ kept) rest rejected s t p b = (
    AllAfter-append x kept rest s.0 (AllAfter-perm x rejected rest p b.0),
    IsSorted-append kept rest rejected s.1 t p b.1,
  )

  -- Whatever policy keeps the best values in order, keeps the same list.
  pub IsBest-unique :
      {k : ℕ} (seen kept kept' : List A)
      → Separates less seen
      → IsBest less k seen kept
      → IsSorted less kept
      → IsBest less k seen kept'
      → IsSorted less kept'
      → kept ≡ kept'
  IsBest-unique seen kept kept' d b s b' s' =
      append_cancel kept kept' (sort less b.rejected) (sort less b'.rejected) (b.size ∙ sym b'.size)
        (IsSorted-eq_of_perm _ _ separate (whole kept b s) (whole kept' b' s')
          (Perm.trans (all kept b) (Perm.symm (all kept' b'))))
    where
      all : {k : ℕ} (l : List A) (c : IsBest less k seen l) → Perm (l ++ sort less c.rejected) seen
      all l c = Perm.trans (Perm.append_left l (sort-perm less c.rejected)) c.perm

      whole :
          {k : ℕ} (l : List A) (c : IsBest less k seen l)
          → IsSorted less l
          → IsSorted less (l ++ sort less c.rejected)
      whole l c t =
          IsSorted-append l _ c.rejected t (sort-IsSorted o c.rejected) (sort-perm less c.rejected)
            c.best

      separate : Separates less (kept ++ sort less b.rejected)
      separate x y m n = d x y ((Perm.mem_iff (all kept b)).0 m) ((Perm.mem_iff (all kept b)).0 n)
