-- ===== src/Matcher/Spatial/Window.antt =====
-- The candidates of a search are the blocks of its window.
use mathlib.Core.List.{mem-append_left, mem-append_right, mem-cons_self, mem-cons_of_mem}
use vapoursynth_nssfactory.Base.{
  ℕ, zero, suc, ◌+◌, ◌-◌, ◌*◌, ◌≤◌, ◌<◌, ◌≡◌, refl, Bool, true, false, ◌&&◌, inl, inr, List, [],
  ◌∷◌, ◌++◌, ltb, leb, ◌==◌, if◌then◌else◌, Mem, arith, Bool-cases, length, length-append,
}
use vapoursynth_nssfactory.Matcher.{Match}
use vapoursynth_nssfactory.Matcher.Spatial.{
  Search, center_x, center_y, top, bottom, left, right, row, rows, candidates,
}

one_if : Bool → ℕ
one_if b = if b then 1 else 0

-- One row more, in numbers: `a` and `b` are the candidates of the row and of the rows below it.
count_rows :
    (a b c y cy n lx cx : ℕ)
    → a + one_if ((y == cy) && leb lx cx && ltb cx (lx + c)) ≡ c
    → b + one_if (leb (suc y) cy && ltb cy (suc y + n)) ≡ n * c
    → lx ≤ cx
    → cx < lx + c
    → a + b + one_if (leb y cy && ltb cy (y + suc n)) ≡ suc n * c
unfolding one_if
count_rows a b c y cy n lx cx h k l r = ground arith

module _ (s : Search) where
  -- A block of the window with its distance.
  pub record IsCandidate (m : Match) : Type 0 where
    pub from_left : left s ≤ m.x
    pub to_right : m.x ≤ right s
    pub from_top : top s ≤ m.y
    pub to_bottom : m.y ≤ bottom s
    pub this_frame : m.t ≡ 0
    pub measured : m.dist ≡ s.distance (center_x s) (center_y s) m.x m.y

  abbrev pub All : (Match → Type 0) → List Match → Type 0
  All P [] = Unit
  All P (m ∷ ms) = P m × All P ms

  All-append : (P : Match → Type 0) (ms ns : List Match) → All P ms → All P ns → All P (ms ++ ns)
  All-append P [] ns h k = k
  All-append P (m ∷ ms) ns h k = (h.0, All-append P ms ns h.1 k)

  row-All :
      (n x y ordinal : ℕ)
      → left s ≤ x
      → x + n ≤ suc (right s)
      → top s ≤ y
      → y ≤ bottom s
      → All IsCandidate (row s n x y ordinal)
  unfolding row
  row-All zero x y ordinal l r t b = tt
  row-All (suc n) x y ordinal l r t b =
      let rest = row-All n (suc x) y (suc ordinal) (omega arith) (omega arith) t b in
      elim (Bool-cases ((x == center_x s) && (y == center_y s))) [
        | inl e ↦ rw e rest
        | inr e ↦ rw e (
          record {
            from_left = l;
            to_right = omega arith;
            from_top = t;
            to_bottom = b;
            this_frame = refl;
            measured = refl;
          },
          rest,
        )
      ]

  rows-All :
      (n y ordinal : ℕ)
      → left s ≤ suc (right s)
      → top s ≤ y
      → y + n ≤ suc (bottom s)
      → All IsCandidate (rows s n y ordinal)
  unfolding rows
  rows-All zero y ordinal w t b = tt
  rows-All (suc n) y ordinal w t b =
      All-append IsCandidate _ _
        (row-All (suc (right s) - left s) (left s) y ordinal (omega arith) (omega arith) t
          (omega arith))
        (rows-All n (suc y) _ w (omega arith) (omega arith))

  pub candidates-All : All IsCandidate (candidates s)
  unfolding candidates
  candidates-All =
      rows-All (suc (bottom s) - top s) (top s) 1 (omega arith) (omega arith) (omega arith)

  -- A place among the listed matches.
  abbrev pub Holds : List Match → ℕ → ℕ → Type 0
  Holds ms x y = (m : Match) × Mem m ms × (m.x ≡ x) × (m.y ≡ y)

  row-Holds :
      (n x₀ y ordinal x : ℕ)
      → x₀ ≤ x
      → x < x₀ + n
      → ((x == center_x s) && (y == center_y s)) ≡ false
      → Holds (row s n x₀ y ordinal) x y
  unfolding row
  row-Holds zero x₀ y ordinal x h k e = absurd (omega arith)
  row-Holds (suc n) x₀ y ordinal x h k e = elim (Bool-cases (x₀ == x)) [
    | inl here ↦ let same : x₀ ≡ x = ground arith in rw (same, e) ((_, mem-cons_self, refl, refl))
    | inr there ↦
        let (m, i, p, q) = row-Holds n (suc x₀) y (suc ordinal) x (ground arith) (omega arith) e in
        elim (Bool-cases ((x₀ == center_x s) && (y == center_y s))) [
          | inl c ↦ rw c (m, i, p, q)
          | inr c ↦ rw c (m, mem-cons_of_mem _ i, p, q)
        ]
  ]

  rows-Holds :
      (n y₀ ordinal x y : ℕ)
      → left s ≤ x
      → x ≤ right s
      → y₀ ≤ y
      → y < y₀ + n
      → ((x == center_x s) && (y == center_y s)) ≡ false
      → Holds (rows s n y₀ ordinal) x y
  unfolding rows
  rows-Holds zero y₀ ordinal x y l r h k e = absurd (omega arith)
  rows-Holds (suc n) y₀ ordinal x y l r h k e = elim (Bool-cases (y₀ == y)) [
    | inl here ↦
        let same : y₀ ≡ y = ground arith in
        let (m, i, p, q) =
          row-Holds (suc (right s) - left s) (left s) y ordinal x l (omega arith) e in
        rw same (m, mem-append_left _ i, p, q)
    | inr there ↦
        let (m, i, p, q) =
          rows-Holds n (suc y₀) (ordinal + (suc (right s) - left s)) x y l r (ground arith)
            (omega arith) e in
        (m, mem-append_right _ i, p, q)
  ]

  -- Every other block of the window is a candidate.
  pub candidates-Holds :
      (x y : ℕ)
      → left s ≤ x
      → x ≤ right s
      → top s ≤ y
      → y ≤ bottom s
      → ((x == center_x s) && (y == center_y s)) ≡ false
      → Holds (candidates s) x y
  unfolding candidates
  candidates-Holds x y l r t b e =
      rows-Holds (suc (bottom s) - top s) (top s) 1 x y l r t (omega arith) e

  length-row :
      (n x y ordinal : ℕ)
      → length (row s n x y ordinal)
          + one_if ((y == center_y s) && leb x (center_x s) && ltb (center_x s) (x + n))
        ≡ n
  unfolding row one_if
  length-row zero x y ordinal = ground arith
  length-row (suc n) x y ordinal = ground (arith, length-row n (suc x) y (suc ordinal))

  length-rows :
      (n y ordinal : ℕ)
      → length (rows s n y ordinal) + one_if (leb y (center_y s) && ltb (center_y s) (y + n))
        ≡ n * (suc (right s) - left s)
  unfolding rows one_if
  length-rows zero y ordinal = ground arith
  length-rows (suc n) y ordinal =
      let columns = suc (right s) - left s in
      let split =
        length-append (row s columns (left s) y ordinal) (rows s n (suc y) (ordinal + columns)) in
      rw split (
        count_rows _ _ columns y (center_y s) n (left s) (center_x s)
          (length-row columns (left s) y ordinal) (length-rows n (suc y) (ordinal + columns))
          (omega arith) (omega arith))

  -- They are as many as the blocks of the window without the reference block.
  pub length-candidates :
      suc (length (candidates s)) ≡ (suc (bottom s) - top s) * (suc (right s) - left s)
  unfolding candidates one_if
  length-candidates =
      let n = suc (bottom s) - top s in
      let inside : (leb (top s) (center_y s) && ltb (center_y s) (top s + n)) ≡ true =
        inside_test (top s) (center_y s) (top s + n) (omega arith) (omega arith) in
      omega (arith, rw inside at (length-rows n (top s) 1))
    where
      inside_test : (a b c : ℕ) → a ≤ b → b < c → (leb a b && ltb b c) ≡ true
      inside_test a b c h k = ground arith
