-- ===== src/Base/Members.antt =====
-- What holds of every value of a list.
use mathlib.Core.List.{
  List, [], ◌∷◌, ◌++◌, Mem, mem-cons, mem-cons_self, mem-cons_of_mem, not-mem-nil,
}
use mathlib.Core.Bool.{Bool, true, false}
use mathlib.Core.Logic.Or
use mathlib.Core.Path.{sym, subst}
use vapoursynth_nssfactory.Base.Tests.{if◌then◌else◌}

abbrev pub Every {ℓ} : {A : Type ℓ} → (A → Type 0) → List A → Type 0
Every P [] = Unit
Every P (x ∷ xs) = P x × Every P xs

pub Every-append {ℓ} :
    {A : Type ℓ} (P : A → Type 0) (xs ys : List A) → Every P xs → Every P ys → Every P (xs ++ ys)
Every-append P [] ys h k = k
Every-append P (x ∷ xs) ys (p, h) k = (p, Every-append P xs ys h k)

pub Every-Mem {ℓ} :
    {A : Type ℓ} (P : A → Type 0)
    → ((a : A) → IsProp (P a))
    → (xs : List A) (a : A) → Every P xs
    → Mem a xs
    → P a
Every-Mem P p [] a h m = absurd (not-mem-nil m)
Every-Mem P p (x ∷ xs) a (q, h) m =
    Or.elim (p a) (mem-cons.0 m) (λ e. subst P (sym e) q) (λ n. Every-Mem P p xs a h n)

pub Every-of_mem {ℓ} :
    {A : Type ℓ} (P : A → Type 0) (xs : List A) → ((a : A) → Mem a xs → P a) → Every P xs
Every-of_mem P [] h = tt
Every-of_mem P (x ∷ xs) h =
    (h x mem-cons_self, Every-of_mem P xs (λ a m. h a (mem-cons_of_mem x m)))

pub Every-map :
    {A : Type 0} (P Q : A → Type 0)
    → ((a : A) → P a → Q a)
    → (xs : List A) → Every P xs
    → Every Q xs
Every-map P Q f [] h = tt
Every-map P Q f (x ∷ xs) (p, h) = (f x p, Every-map P Q f xs h)

pub Every-if {ℓ} :
    {A : Type ℓ} (P : A → Type 0) (ended : Bool) (xs : List A)
    → Every P xs
    → Every P (if ended then [] else xs)
Every-if P true xs h = tt
Every-if P false xs h = h
