-- ===== src/WindowCache/Loop/Rounds.antt =====
-- One round of the loop.
use mathlib.Core.Path.{subst}
use vapoursynth_nssfactory.Base.{
  ℕ, zero, suc, ◌+◌, ◌≡◌, ◌≢◌, refl, sym, ◌∙◌, ap, inl, inr, Bool, true, false, ◌||◌, ◌==◌, ℤ, eq_ℤ,
  eq_ℤ_comm, none, some, List, [], ◌∷◌, ◌++◌, get_elem?, arith, ◌&&◌, Bool-cases, ==_iff,
}
use vapoursynth_nssfactory.WindowCache.{
  WindowFrame, has_number, has_place, in_found, count_free, is_free, modify,
}
use vapoursynth_nssfactory.WindowCache.Frames.{
  get_elem?-modify_self, get_elem?-modify_ne, one, count_where-modify,
}
use vapoursynth_nssfactory.WindowCache.Changes.{holders-modify}
use vapoursynth_nssfactory.WindowCache.Loop.{Todo, numbers, founds, Reads, Located}

pub and_false : (a : Bool) → (a && false) ≡ false
and_false true = refl
and_false false = refl

left_false : (a b : Bool) → (a || b) ≡ false → a ≡ false
left_false a b h = ground arith

pub has_place-append :
    (r s : ℕ) (rs : List ℕ) → has_place r (rs ++ s ∷ []) ≡ (has_place r rs || (s == r))
has_place-append r s [] = ground arith
has_place-append r s (x ∷ rs) = ground (arith, has_place-append r s rs)

pub modify-modify :
    (g h : WindowFrame → WindowFrame) (fs : List WindowFrame) (r : ℕ)
    → modify g r (modify h r fs) ≡ modify (λ f. g (h f)) r fs
modify-modify g h [] r = refl
modify-modify g h (f ∷ fs) zero = refl
modify-modify g h (f ∷ fs) (suc r) = ap (λ rest. f ∷ rest) (modify-modify g h fs r)

-- What a round does to the frame at r, before and after.
module _ (fs : List WindowFrame) (r : ℕ) (f : WindowFrame) (change : WindowFrame → WindowFrame)
    (at : get_elem? fs r ≡ some f) where
  -- The frames of the numbers that are still to come keep their places.
  pub Reads-modify_self :
      (fn : ℤ)
      → (change f).n ≡ f.n
      → (change f).failed ≡ f.failed
      → Reads fs fn r
      → Reads (modify change r fs) fn r
  Reads-modify_self fn same_n same_failed (g, at_g, num, fine) =
      let same : f ≡ g = ground arith in
      (
        change f,
        get_elem?-modify_self change fs r f at,
        same_n ∙ ap (λ (x : WindowFrame). x.n) same ∙ num,
        same_failed ∙ ap (λ (x : WindowFrame). x.failed) same ∙ fine,
      )

  pub Reads-modify_ne : (fn : ℤ) (s : ℕ) → r ≢ s → Reads fs fn s → Reads (modify change r fs) fn s
  Reads-modify_ne fn s other (g, at_g, num, fine) =
      (g, get_elem?-modify_ne change fs r s other ∙ at_g, num, fine)

  -- A frame that is found is pinned.
  pub Located-pin :
      (todo : Todo)
      → (change f).n ≡ f.n
      → (change f).failed ≡ f.failed
      → Located fs todo
      → Located (modify change r fs) todo
  Located-pin [] p q h = tt
  Located-pin ((fn, some s) ∷ todo) p q (reads, rest) = elim (Bool-cases (r == s)) [
    | inl here ↦
        let place : r ≡ s = (==_iff r s).0 here in
        (
          subst (λ k. Reads (modify change r fs) fn k) place
              (Reads-modify_self fn p q (subst (Reads fs fn) (sym place) reads)),
          Located-pin todo p q rest,
        )
    | inr there ↦ (Reads-modify_ne fn s (λ e. ground arith) reads, Located-pin todo p q rest)
  ]
  Located-pin ((fn, none) ∷ todo) p q (absent, rest) =
      let same = ap (λ v. one (eq_ℤ v fn)) p in
      (omega (arith, holders-modify fs r f change at fn, same), Located-pin todo p q rest)

  -- A frame that is free gets a number that none of those to come is.
  pub Located-replace :
      (todo : Todo)
      → in_found r (founds todo) ≡ false
      → has_number (change f).n (numbers todo) ≡ false
      → Located fs todo
      → Located (modify change r fs) todo
  Located-replace [] p q h = tt
  Located-replace ((fn, some s) ∷ todo) p q (reads, rest) = (
    Reads-modify_ne fn s (λ e. ground arith) reads,
    Located-replace todo (ground arith) (ground arith) rest,
  )
  Located-replace ((fn, none) ∷ todo) p q (absent, rest) =
      let other : eq_ℤ (change f).n fn ≡ false = eq_ℤ_comm (change f).n fn ∙ left_false _ _ q in
      (
        omega (arith, holders-modify fs r f change at fn, ap one other),
        Located-replace todo p (ground arith) rest,
      )

  -- The frames that are free after a round in which the frame at r is pinned.
  pub count_free-pin :
      (taken after : ℕ → Bool)
      → after r ≡ true
      → ((j : ℕ) → j ≢ r → after j ≡ taken j)
      → count_free after (modify change r fs) + one (is_free (taken r) f) ≡ count_free taken fs
  unfolding count_free
  count_free-pin taken after now same =
      let e =
        count_where-modify (λ j g. is_free (taken j) g) (λ j g. is_free (after j) g) change 0 r fs f
          at (λ j y other. ap (λ t. is_free t y) (same j (λ p. other (omega arith)))) in
      let place : 0 + r ≡ r = omega arith in
      let shut : is_free (after r) (change f) ≡ false = rw now (and_false ((change f).pins == 0)) in
      let counted = rw (place, shut) at e in omega (arith, counted)
