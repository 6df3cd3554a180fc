-- ===== src/Raster/Columns.antt =====
-- The two loops in closed form.
use vapoursynth_nssfactory.Base.{
  ℕ, zero, suc, ◌+◌, ◌-◌, ◌*◌, ◌≤◌, ◌<◌, ◌≡◌, refl, ap, List, [], ◌∷◌, ◌++◌, some, ltb, length,
  get_elem?, arith, true, false,
}
use vapoursynth_nssfactory.Raster.{job, columns}

pub get_elem?-left {ℓ} :
    {A : Type ℓ} (xs ys : List A) (i : ℕ) → i < length xs → get_elem? (xs ++ ys) i ≡ get_elem? xs i
get_elem?-left [] ys i h = absurd (omega arith)
get_elem?-left (x ∷ xs) ys zero h = refl
get_elem?-left (x ∷ xs) ys (suc i) h = get_elem?-left xs ys i (omega arith)

pub get_elem?-right {ℓ} :
    {A : Type ℓ} (xs ys : List A) (i j : ℕ)
    → j ≡ length xs + i
    → get_elem? (xs ++ ys) j ≡ get_elem? ys i
get_elem?-right [] ys i j e = let same : j ≡ i = omega arith in ap (get_elem? ys) same
get_elem?-right (x ∷ xs) ys i zero e = absurd (omega arith)
get_elem?-right (x ∷ xs) ys i (suc j) e = get_elem?-right xs ys i j (omega arith)

-- A loop that starts at `start` and adds `step` has `n` rounds before it passes `end`.
abbrev pub Rounds : ℕ → ℕ → ℕ → ℕ → Type 0
Rounds step end start n = (end ≤ start + n * step) × (start + n * step < end + step)

pub Rounds-next :
    (step end start n : ℕ) → Rounds step end start (suc n) → Rounds step end (start + step) n
Rounds-next step end start n (h, k) = (grind arith, grind arith)

pub Rounds-more : (step end start n : ℕ) → Rounds step end start (suc n) → ltb start end ≡ true
Rounds-more step end start n (h, k) =
    let next : start + step + n * step < end + step = (Rounds-next step end start n (h, k)).1 in
    ground arith

pub Rounds-over : (step end start : ℕ) → Rounds step end start 0 → ltb start end ≡ false
Rounds-over step end start (h, k) = ground arith

module _ {ℓ} {K : Type ℓ} (width height block step : ℕ) (key : K) (t : ℕ) where
  pub length-columns :
      (n fuel begin by0 ordinal : ℕ)
      → 1 ≤ step
      → n ≤ fuel
      → Rounds step (width - block + step) begin n
      → length (columns width height block step key t fuel begin by0 ordinal) ≡ n
  unfolding columns
  length-columns zero zero begin by0 ordinal p f r = refl
  length-columns zero (suc fuel) begin by0 ordinal p f r = rw (Rounds-over step _ begin r) refl
  length-columns (suc n) zero begin by0 ordinal p f r = absurd (omega arith)
  length-columns (suc n) (suc fuel) begin by0 ordinal p f r = rw (Rounds-more step _ begin n r) (
      ap suc (
        length-columns n fuel (begin + step) by0 (suc ordinal) p (omega arith)
          (Rounds-next step _ begin n r)))

  first_job :
      (ordinal begin by0 : ℕ)
      → some (job width height block step key t ordinal begin by0)
        ≡ some (job width height block step key t (ordinal + 0) (begin + 0 * step) by0)
  first_job ordinal begin by0 =
      let place : begin + 0 * step ≡ begin = omega arith in
      let number : ordinal + 0 ≡ ordinal = omega arith in rw (place, number) refl

  pub column-at :
      (n fuel begin by0 ordinal j : ℕ)
      → 1 ≤ step
      → n ≤ fuel
      → Rounds step (width - block + step) begin n
      → j < n
      → get_elem? (columns width height block step key t fuel begin by0 ordinal) j
        ≡ some (job width height block step key t (ordinal + j) (begin + j * step) by0)
  unfolding columns
  column-at zero fuel begin by0 ordinal j p f r h = absurd (omega arith)
  column-at (suc n) zero begin by0 ordinal j p f r h = absurd (omega arith)
  column-at (suc n) (suc fuel) begin by0 ordinal zero p f r h =
      rw (Rounds-more step _ begin n r) (first_job ordinal begin by0)
  column-at (suc n) (suc fuel) begin by0 ordinal (suc j) p f r h =
      let later =
        column-at n fuel (begin + step) by0 (suc ordinal) j p (omega arith)
          (Rounds-next step _ begin n r) (omega arith) in
      let place : begin + step + j * step ≡ begin + suc j * step = grind arith in
      let number : suc ordinal + j ≡ ordinal + suc j = omega arith in
      rw (Rounds-more step _ begin n r) (rw (place, number) at later)
