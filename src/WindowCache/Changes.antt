-- ===== src/WindowCache/Changes.antt =====
-- What a write to one frame keeps of the others.
use mathlib.Core.Path.{subst}
use vapoursynth_nssfactory.Base.{
  ℕ, suc, ◌+◌, ◌≤◌, ◌<◌, ◌≡◌, refl, sym, ◌∙◌, ap, inl, inr, true, false, ◌==◌, ℤ, pos, eq_ℤ, Option,
  none, some, List, [], ◌∷◌, get_elem?, arith, ==_iff, Bool-cases,
}
use vapoursynth_nssfactory.WindowCache.{WindowFrame, modify, no_frame}
use vapoursynth_nssfactory.WindowCache.Frames.{
  get_elem?-modify_self, get_elem?-modify_ne, get_elem?-modify, one, count_where-modify,
}
use vapoursynth_nssfactory.WindowCache.Search.{holders, numbered}

abbrev pub pins_in : Option WindowFrame → ℕ
pins_in none = 0
pins_in (some f) = f.pins

-- The pins of the frame at a place.
abbrev pub pins_of : List WindowFrame → ℕ → ℕ
pins_of fs r = pins_in (get_elem? fs r)

-- How often a place is in a list.
abbrev pub count_place : ℕ → List ℕ → ℕ
count_place r [] = 0
count_place r (s ∷ ss) = one (s == r) + count_place r ss

-- A frame that is given up has no number.
abbrev pub GivenUp : List WindowFrame → Type 0
GivenUp fs = (r : ℕ) (f : WindowFrame) → get_elem? fs r ≡ some f → f.failed ≡ true → f.n ≡ no_frame

-- No number is that of two frames.
abbrev pub IsUnique : List WindowFrame → Type 0
IsUnique fs = (m : ℕ) → holders (pos m) fs ≤ 1

-- What the frame of a pinned place keeps.
pub record Same (f g : WindowFrame) : Type 0 where
  pub n : g.n ≡ f.n
  pub failed : g.failed ≡ f.failed
  pub queued : g.queued ≡ f.queued
  pub pins : f.pins ≤ g.pins

abbrev pub KeepsPinned : List WindowFrame → List WindowFrame → Type 0
KeepsPinned fs gs =
    (r : ℕ) (f : WindowFrame)
    → get_elem? fs r ≡ some f
    → 0 < f.pins
    → (g : WindowFrame) × (get_elem? gs r ≡ some g) × Same f g

pub KeepsPinned-trans :
    (fs gs hs : List WindowFrame) → KeepsPinned fs gs → KeepsPinned gs hs → KeepsPinned fs hs
KeepsPinned-trans fs gs hs p q r f at pinned =
    let (g, at_g, s) = p r f at pinned in
    let (h, at_h, t) = q r g at_g (omega (arith, s.pins)) in
    (
      h,
      at_h,
      record {
        n = t.n ∙ s.n;
        failed = t.failed ∙ s.failed;
        queued = t.queued ∙ s.queued;
        pins = omega (arith, s.pins, t.pins);
      },
    )

-- The write of a round of the constructor's loop, for the number fn: another pin, and what a pinned
-- frame is stays.
pub record Pins (fn : ℤ) (f g : WindowFrame) : Type 0 where
  pub n : g.n ≡ fn
  pub failed : g.failed ≡ false
  pub pins : g.pins ≡ suc f.pins
  pub keeps : 0 < f.pins → Same f g

module _ (fs : List WindowFrame) (r : ℕ) (f : WindowFrame) (change : WindowFrame → WindowFrame)
    (at : get_elem? fs r ≡ some f) where
  pub KeepsPinned-modify : ((0 < f.pins) → Same f (change f)) → KeepsPinned fs (modify change r fs)
  KeepsPinned-modify keeps s g at_g pinned = elim (Bool-cases (r == s)) [
    | inl here ↦
        let place : r ≡ s = (==_iff r s).0 here in
        let same : f ≡ g = ground (arith, ap (get_elem? fs) place) in
        (
          change f,
          subst (λ k. get_elem? (modify change r fs) k ≡ some (change f)) place
              (get_elem?-modify_self change fs r f at),
          subst (λ x. Same x (change f)) same
              (keeps (subst (λ (x : WindowFrame). 0 < x.pins) (sym same) pinned)),
        )
    | inr there ↦ (
      g,
      get_elem?-modify_ne change fs r s (λ e. ground arith) ∙ at_g,
      record { n = refl; failed = refl; queued = refl; pins = omega arith },
    )
  ]

  pub pins_of-modify :
      (change f).pins ≡ suc f.pins
      → (s : ℕ) → pins_of (modify change r fs) s ≡ pins_of fs s + one (r == s)
  pins_of-modify more s = elim (Bool-cases (r == s)) [
    | inl here ↦
        let place : r ≡ s = (==_iff r s).0 here in
        rw here (
          subst (λ k. pins_of (modify change r fs) k ≡ pins_of fs k + 1) place
            (rw (get_elem?-modify_self change fs r f at, at) (omega arith)))
    | inr there ↦ rw (there, get_elem?-modify_ne change fs r s (λ e. ground arith)) (omega arith)
  ]

  pub GivenUp-modify :
      ((change f).failed ≡ true → (change f).n ≡ no_frame)
      → GivenUp fs
      → GivenUp (modify change r fs)
  GivenUp-modify fine h s g at_g bad =
      let (x, at_x, cases) = get_elem?-modify change fs r s g at_g in
      elim cases [
        | inl (e, k) ↦
            let same : f ≡ x = ground (arith, ap (get_elem? fs) e) in
            let now : g ≡ change f = k ∙ ap change (sym same) in
            ap (λ (y : WindowFrame). y.n) now
            ∙ fine (ap (λ (y : WindowFrame). y.failed) (sym now) ∙ bad)
        | inr (e, k) ↦
            ap (λ (y : WindowFrame). y.n) k
            ∙ h s x at_x (ap (λ (y : WindowFrame). y.failed) (sym k) ∙ bad)
      ]

  pub holders-modify :
      (v : ℤ)
      → holders v (modify change r fs) + one (eq_ℤ f.n v) ≡ holders v fs + one (eq_ℤ (change f).n v)
  unfolding holders
  holders-modify v = count_where-modify (numbered v) (numbered v) change 0 r fs f at (λ j y e. refl)
