-- ===== src/Matcher/TopK/Steps.antt =====
-- The three things a policy does with a candidate: keep it, refuse it, or take it for the worst.
use mathlib.Core.Bool.{Bool-set}
use mathlib.Core.Logic.Or
use mathlib.Core.List.{
  append-nil, perm_middle, perm_append_singleton, mem-cons, mem-cons_self, mem-cons_of_mem,
  not-mem-nil,
}
use mathlib.Core.List.Perm
use vapoursynth_nssfactory.Base.{
  ℕ, zero, suc, ◌+◌, ◌≤◌, ◌<◌, ◌≡◌, refl, sym, ◌∙◌, Bool, true, false, List, [], ◌∷◌, ◌++◌, Perm,
  Mem, some, length, length-append, get_elem?, set, arith,
}
use vapoursynth_nssfactory.Matcher.Order.{StrictWeak}
use vapoursynth_nssfactory.Matcher.TopK.Sort.{AllBefore, sort, sort-perm}
use vapoursynth_nssfactory.Matcher.TopK.Best.{
  Before, IsBest, length-perm, AllAfter-mem, AllAfter-of_mem,
}

-- A write to a place of a list exchanges the value there.
pub set-perm {ℓ} :
    {A : Type ℓ} (xs : List A) (i : ℕ) (w m : A)
    → get_elem? xs i ≡ some w
    → Perm (w ∷ set xs i m) (m ∷ xs)
set-perm [] i w m e = cc
set-perm (x ∷ xs) zero w m e =
    let same : x ≡ w = cc in
    Perm.trans (Perm.swap m w xs) (Perm.cons m (Perm.cons' (sym same) Perm.rfl))
set-perm (x ∷ xs) (suc i) w m e =
    Perm.trans (Perm.swap x w (set xs i m))
      (Perm.trans (Perm.cons x (set-perm xs i w m e)) (Perm.swap m x xs))

module _ {ℓ} {A : Type ℓ} {less : A → A → Bool} (o : StrictWeak less) where
  AllBefore-mem : (xs : List A) (a x : A) → AllBefore less xs a → Mem x xs → less a x ≡ false
  AllBefore-mem [] a x h m = absurd (not-mem-nil m)
  AllBefore-mem (y ∷ xs) a x h m =
      Or.elim (Bool-set _ _) (mem-cons.0 m) (λ e. rw e h.0) (AllBefore-mem xs a x h.1)

  Before-mem : (xs r : List A) (x y : A) → Before less xs r → Mem x xs → Mem y r → less y x ≡ false
  Before-mem [] r x y b m n = absurd (not-mem-nil m)
  Before-mem (z ∷ xs) r x y b m n =
      Or.elim (Bool-set _ _) (mem-cons.0 m) (λ e. rw e (AllAfter-mem o z y r b.0 n))
        (λ k. Before-mem xs r x y b.1 k n)

  Before-of_mem :
      (xs r : List A) → ((x y : A) → Mem x xs → Mem y r → less y x ≡ false) → Before less xs r
  Before-of_mem [] r h = tt
  Before-of_mem (x ∷ xs) r h = (
    AllAfter-of_mem o x r (λ y n. h x y mem-cons_self n),
    Before-of_mem xs r (λ z y m n. h z y (mem-cons_of_mem x m) n),
  )

  Before-cons :
      (xs r : List A) (m : A) → AllBefore less xs m → Before less xs r → Before less xs (m ∷ r)
  Before-cons [] r m h b = tt
  Before-cons (x ∷ xs) r m h b = ((h.0, b.0), Before-cons xs r m h.1 b.1)

  IsBest-length :
      {k : ℕ} {seen kept : List A} (b : IsBest less k seen kept)
      → length kept + length b.rejected ≡ length seen
  IsBest-length {seen} {kept} b = sym (length-append kept b.rejected) ∙ length-perm b.perm

  -- While there is room nothing has been rejected.
  rejected-nil :
      {k : ℕ} {seen kept : List A} (b : IsBest less k seen kept) → length kept < k → b.rejected ≡ []
  rejected-nil b room = empty b.rejected (omega (arith, IsBest-length b, b.size))
    where
      empty : (r : List A) → length r ≡ 0 → r ≡ []
      empty [] e = refl
      empty (x ∷ r) e = absurd (omega arith)

  -- There is room: the candidate is kept.
  pub IsBest-keep :
      {k : ℕ} (seen kept : List A) (m : A)
      → IsBest less k seen kept
      → length kept < k
      → IsBest less k (m ∷ seen) (kept ++ m ∷ [])
  IsBest-keep {k} seen kept m b room =
      let e : b.rejected ≡ [] = rejected-nil b room in
      let p : Perm kept seen = rw append-nil at (rw e at b.perm) in
      record {
        rejected = [];
        perm = rw append-nil (Perm.trans (perm_append_singleton m kept) (Perm.cons m p));
        best = Before-of_mem _ [] (λ x y _ n. absurd (not-mem-nil n));
        size = omega (arith, length-append kept (m ∷ []), length-perm p, b.size);
      }

  -- There is none, and no kept value comes after the candidate: it is refused.
  pub IsBest-refuse :
      {k : ℕ} (seen kept : List A) (m : A)
      → IsBest less k seen kept
      → k ≤ length kept
      → AllBefore less kept m
      → IsBest less k (m ∷ seen) kept
  IsBest-refuse seen kept m b full h = record {
    rejected = m ∷ b.rejected;
    perm = Perm.trans (perm_middle kept b.rejected) (Perm.cons m b.perm);
    best = Before-cons kept b.rejected m h b.best;
    size = omega (arith, b.size);
  }

  -- There is none, and the candidate comes before the worst of the kept: it takes its room.
  pub IsBest-exchange :
      {k : ℕ} (seen kept kept' : List A) (m w : A)
      → IsBest less k seen kept
      → k ≤ length kept
      → Mem w kept
      → AllBefore less kept w
      → less m w ≡ true
      → Perm (w ∷ kept') (m ∷ kept)
      → IsBest less k (m ∷ seen) kept'
  IsBest-exchange seen kept kept' m w b full at last h p = record {
    rejected = w ∷ b.rejected;
    perm =
        Perm.trans (perm_middle kept' b.rejected)
          (Perm.trans (Perm.append_right b.rejected p) (Perm.cons m b.perm));
    best = Before-of_mem kept' (w ∷ b.rejected) (λ x y i j.
        Or.elim (Bool-set _ _) (mem-cons.0 ((Perm.mem_iff p).0 (mem-cons_of_mem w i)))
          (λ e. rw e (after_m y j)) (λ k. after_kept x y k j));
    size = omega (arith, b.size, length-perm p);
  }
    where
      after_m : (y : A) → Mem y (w ∷ b.rejected) → less y m ≡ false
      after_m y j =
          Or.elim (Bool-set _ _) (mem-cons.0 j) (λ e. rw e (o.asym m w h))
            (λ k. o.trans m w y (o.asym m w h) (Before-mem kept b.rejected w y b.best at k))

      after_kept : (x y : A) → Mem x kept → Mem y (w ∷ b.rejected) → less y x ≡ false
      after_kept x y i j =
          Or.elim (Bool-set _ _) (mem-cons.0 j) (λ e. rw e (AllBefore-mem kept w x last i))
            (Before-mem kept b.rejected x y b.best i)

  -- Nothing was seen, and a new order of what is kept.
  pub IsBest-nil : (k : ℕ) → IsBest less k [] []
  IsBest-nil k = record { rejected = []; perm = Perm.rfl; best = tt; size = omega arith }

  pub IsBest-sort :
      {k : ℕ} (seen kept : List A) → IsBest less k seen kept → IsBest less k seen (sort less kept)
  IsBest-sort seen kept b =
      let p = sort-perm less kept in
      record {
        rejected = b.rejected;
        perm = Perm.trans (Perm.append_right b.rejected p) b.perm;
        best =
            Before-of_mem _ _
              (λ x y m n. Before-mem kept b.rejected x y b.best ((Perm.mem_iff p).0 m) n);
        size = length-perm p ∙ b.size;
      }
