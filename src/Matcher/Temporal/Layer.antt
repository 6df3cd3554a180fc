-- ===== src/Matcher/Temporal/Layer.antt =====
-- The blocks of a layer.
use vapoursynth_nssfactory.Base.{
  ℕ, zero, suc, ◌+◌, ◌-◌, ◌≤◌, ◌<◌, ◌≡◌, refl, sym, ◌∙◌, ap, inl, inr, Bool, true, false, ◌&&◌,
  ◌||◌, ltb, leb, ◌==◌, if◌then◌else◌, ==_iff, List, [], ◌∷◌, ◌++◌, map, arith, Bool-cases,
}
use vapoursynth_nssfactory.Matcher.{Match}
use vapoursynth_nssfactory.Matcher.TopK.Sort.{sort}
use vapoursynth_nssfactory.Matcher.Temporal.{
  TemporalSearch, interval_less, interval_of, intervals_at, is_near, y_begin, y_end, row_places,
  places_from, layer_places, sweep,
}
use vapoursynth_nssfactory.Matcher.Temporal.Sweep.{in_interval, covered, times, times-row}

-- How often a place is in a list.
abbrev pub times_at : ℕ → ℕ → List (ℕ × ℕ) → ℕ
times_at x y [] = 0
times_at x y ((a, b) ∷ places) =
    if (a == x) && (b == y) then suc (times_at x y places) else times_at x y places

times_at-append :
    (x y : ℕ) (ps qs : List (ℕ × ℕ)) → times_at x y (ps ++ qs) ≡ times_at x y ps + times_at x y qs
times_at-append x y [] qs = omega arith
times_at-append x y ((a, b) ∷ ps) qs = ground (arith, times_at-append x y ps qs)

times_at-row :
    (x y b : ℕ) (xs : List ℕ)
    → times_at x y (map (λ a. (a, b)) xs) ≡ (if b == y then times x xs else 0)
times_at-row x y b [] = ground arith
times_at-row x y b (a ∷ xs) = ground (arith, times_at-row x y b xs)

and_true : (a b c d w : Bool) → d ≡ true → ((a && b && c) || w) ≡ ((a && b && (c && d)) || w)
and_true false b c d w h = refl
and_true true false c d w h = refl
and_true true true false d w h = refl
and_true true true true d w h = ap (λ e. e || w) (sym h)

le-leb : (m n : ℕ) → m ≤ n → leb m n ≡ true
le-leb m n h = ground arith

split_count :
    (first count y times_here times_later : ℕ) (is_covered : Bool)
    → times_here ≡ (if first == y then (if is_covered then 1 else 0) else 0)
    → times_later ≡ (
        if leb (suc first) y && ltb y (suc first + count) then (if is_covered then 1 else 0) else 0)
    → times_here + times_later
      ≡ (if leb first y && ltb y (first + suc count) then (if is_covered then 1 else 0) else 0)
split_count first count y m n c h k = grind (arith, h, k)

abbrev one_if : Bool → ℕ
one_if b = if b then 1 else 0

-- The rows outside the windows add nothing.
within_rows :
    (first end limit y : ℕ) (is_covered is_inside : Bool)
    → end ≤ suc limit
    → (y ≤ limit → is_covered ≡ is_inside)
    → (is_inside ≡ true → (first ≤ y) × (y < end))
    → (if leb first y && ltb y (first + (end - first)) then one_if is_covered else 0)
      ≡ one_if is_inside
within_rows first end limit y c true h same rows =
    let (l, u) = rows refl in rw (same (omega (arith, h, l, u))) ground (arith, l, u)
within_rows first end limit y true false h same rows = elim (Bool-cases (leb y limit)) [
  | inl here ↦ absurd (ground (arith, same (ground arith)))
  | inr there ↦ ground arith
]
within_rows first end limit y false false h same rows = ground arith

module _ (s : TemporalSearch) where
  open s use {width, height, block, ps_range}

  -- Whether a block is in the window around a center: at most ps_range away in x and in y, and within the
  -- plane.
  abbrev pub in_window : ℕ → ℕ → Match → Bool
  in_window x y c =
      (leb (y - c.y) ps_range && leb (c.y - y) ps_range)
      && (leb (x - c.x) ps_range && leb (c.x - x) ps_range)
      && (leb x (width - block) && leb y (height - block))

  abbrev pub in_windows : ℕ → ℕ → List Match → Bool
  in_windows x y [] = false
  in_windows x y (c ∷ centers) = in_window x y c || in_windows x y centers

  in_interval-window :
      (x : ℕ) (c : Match)
      → in_interval x (interval_of s c)
        ≡ (leb (x - c.x) ps_range && leb (c.x - x) ps_range && leb x (width - block))
  in_interval-window x c = ground arith

  covered-windows :
      (x y : ℕ) (centers : List Match)
      → y ≤ height - block
      → covered x (intervals_at s y centers) ≡ in_windows x y centers
  covered-windows x y [] h = refl
  covered-windows x y (c ∷ centers) h = elim (Bool-cases (is_near s y c)) [
    | inl near ↦
        rw (near, in_interval-window x c, covered-windows x y centers h)
          (and_true (leb (x - c.x) ps_range) (leb (c.x - x) ps_range) (leb x (width - block))
            (leb y (height - block)) (in_windows x y centers) (le-leb y (height - block) h))
    | inr far ↦ rw (far, covered-windows x y centers h) refl
  ]

  -- The rows of a layer: those of the windows.
  y_end-le : (centers : List Match) → y_end s centers ≤ suc (height - block)
  y_end-le [] = omega arith
  y_end-le (c ∷ centers) = omega (arith, y_end-le centers)

  rows_of_windows :
      (x y : ℕ) (centers : List Match)
      → in_windows x y centers ≡ true
      → (y_begin s centers ≤ y) × (y < y_end s centers)
  rows_of_windows x y [] h = absurd (ground arith)
  rows_of_windows x y (c ∷ centers) h = elim (Bool-cases (in_window x y c)) [
    | inl here ↦ ground arith
    | inr there ↦
        let (l, u) = rows_of_windows x y centers (ground arith) in (omega arith, omega arith)
  ]

  times_at-row_places :
      (x y first : ℕ) (centers : List Match)
      → times_at x y (row_places s first centers)
        ≡ (if first == y then (if covered x (intervals_at s y centers) then 1 else 0) else 0)
  unfolding row_places
  times_at-row_places x y first centers =
      times_at-row x y first (sweep 0 (sort interval_less (intervals_at s first centers)))
      ∙ rw (times-row x (intervals_at s first centers)) (elim (Bool-cases (first == y)) [
        | inl same ↦
            ap
              (λ r.
                if first == y then (if covered x (intervals_at s r centers) then 1 else 0) else 0)
              ((==_iff first y).0 same)
        | inr other ↦ rw other refl
      ])

  times_at-places :
      (x y count first : ℕ) (centers : List Match)
      → times_at x y (places_from s count first centers) ≡ (
          if leb first y && ltb y (first + count)
          then (if covered x (intervals_at s y centers) then 1 else 0)
          else 0)
  unfolding places_from row_places
  times_at-places x y zero first centers = ground arith
  times_at-places x y (suc count) first centers =
      times_at-append x y (row_places s first centers) (places_from s count (suc first) centers)
      ∙ split_count first count y _ _ (covered x (intervals_at s y centers))
          (times_at-row_places x y first centers) (times_at-places x y count (suc first) centers)

  -- Each block in one of the windows is visited once and no other block is.
  pub times_at-layer_places :
      (x y : ℕ) (centers : List Match)
      → times_at x y (layer_places s centers) ≡ (if in_windows x y centers then 1 else 0)
  unfolding layer_places
  times_at-layer_places x y centers =
      times_at-places x y (y_end s centers - y_begin s centers) (y_begin s centers) centers
      ∙ within_rows (y_begin s centers) (y_end s centers) (height - block) y _ _ (y_end-le centers)
          (covered-windows x y centers) (rows_of_windows x y centers)
