-- ===== src/WindowCache/Frames.antt =====
-- The frames of the cache as a list: writes at a place, and counts.
use vapoursynth_nssfactory.Base.{
  ℕ, zero, suc, ◌+◌, ◌≤◌, ◌≡◌, refl, ◌≢◌, ap, inl, inr, ◌⊎◌, Bool, true, false, some, List, [], ◌∷◌,
  get_elem?, arith,
}
use vapoursynth_nssfactory.WindowCache.{modify, count_where}

module _ {ℓ} {A : Type ℓ} (g : A → A) where
  pub get_elem?-modify_self :
      (xs : List A) (i : ℕ) (x : A)
      → get_elem? xs i ≡ some x
      → get_elem? (modify g i xs) i ≡ some (g x)
  get_elem?-modify_self [] i x h = absurd (ground arith)
  get_elem?-modify_self (y ∷ xs) zero x h = ground arith
  get_elem?-modify_self (y ∷ xs) (suc i) x h = get_elem?-modify_self xs i x h

  pub get_elem?-modify_ne :
      (xs : List A) (i j : ℕ) → i ≢ j → get_elem? (modify g i xs) j ≡ get_elem? xs j
  get_elem?-modify_ne [] i j h = refl
  get_elem?-modify_ne (x ∷ xs) zero zero h = absurd (h refl)
  get_elem?-modify_ne (x ∷ xs) zero (suc j) h = refl
  get_elem?-modify_ne (x ∷ xs) (suc i) zero h = refl
  get_elem?-modify_ne (x ∷ xs) (suc i) (suc j) h = get_elem?-modify_ne xs i j (λ e. h (ap suc e))

  -- With a function that is applied to the element at i or to none.
  pub get_elem?-modify :
      (xs : List A) (i j : ℕ) (y : A)
      → get_elem? (modify g i xs) j ≡ some y
      → (x : A) × (get_elem? xs j ≡ some x) × (((i ≡ j) × (y ≡ g x)) ⊎ ((i ≢ j) × (y ≡ x)))
  get_elem?-modify [] i j y h = absurd (ground arith)
  get_elem?-modify (x ∷ xs) zero zero y h = (x, refl, inl (refl, ground arith))
  get_elem?-modify (x ∷ xs) zero (suc j) y h = (y, h, inr ((λ e. omega arith), refl))
  get_elem?-modify (x ∷ xs) (suc i) zero y h = (x, refl, inr ((λ e. omega arith), ground arith))
  get_elem?-modify (x ∷ xs) (suc i) (suc j) y h =
      let (z, at, cases) = get_elem?-modify xs i j y h in
      (
        z,
        at,
        elim cases [
          | inl (e, k) ↦ inl (ap suc e, k)
          | inr (e, k) ↦ inr ((λ q. e (omega arith)), k)
        ],
      )

abbrev pub one : Bool → ℕ
one true = 1
one false = 0

module _ {ℓ} {A : Type ℓ} (test after : ℕ → A → Bool) where
  pub count_where-cong :
      (i : ℕ) (xs : List A)
      → ((j : ℕ) (y : A) → i ≤ j → after j y ≡ test j y)
      → count_where after i xs ≡ count_where test i xs
  unfolding count_where
  count_where-cong i [] h = refl
  count_where-cong i (x ∷ xs) h =
      ground (arith, h i x, count_where-cong (suc i) xs (λ j y l. h j y (omega arith)))

  -- A write at one place, and a test that changes at that place only.
  pub count_where-modify :
      (g : A → A) (i r : ℕ) (xs : List A) (x : A)
      → get_elem? xs r ≡ some x
      → ((j : ℕ) (y : A) → j ≢ i + r → after j y ≡ test j y)
      → count_where after i (modify g r xs) + one (test (i + r) x)
        ≡ count_where test i xs + one (after (i + r) (g x))
  unfolding count_where
  count_where-modify g i r [] x e h = absurd (ground arith)
  count_where-modify g i zero (y ∷ xs) x e h =
      let same = count_where-cong (suc i) xs (λ j y l. h j y (λ q. omega arith)) in
      let place : i + 0 ≡ i = omega arith in rw (place, same) (ground arith)
  count_where-modify g i (suc r) (y ∷ xs) x e h =
      let place : i + suc r ≡ suc i + r = omega arith in
      let rest = count_where-modify g (suc i) r xs x e (λ j z q. h j z (λ p. q (omega arith))) in
      let same = h i y (λ q. omega arith) in rw (place, same) (ground (arith, rest))
