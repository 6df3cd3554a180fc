-- ===== src/Raster/Laws.antt =====
-- The list of jobs is the grid.
use vapoursynth_nssfactory.Base.{
  ℕ, zero, suc, ◌+◌, ◌-◌, ◌*◌, ◌/◌, ◌%◌, ◌≤◌, ◌<◌, ◌≡◌, refl, ◌∙◌, ◌||◌, List, [], ◌∷◌, some, none,
  inl, inr, Bool-cases, ltb, if◌then◌else◌, length, length-append, get_elem?, arith, false,
}
use vapoursynth_nssfactory.Raster.{
  GroupJob, job, columns, rows, append_raster_jobs, grid_count, raster_job,
}
use vapoursynth_nssfactory.Raster.Columns.{
  get_elem?-left, get_elem?-right, Rounds, Rounds-next, Rounds-more, Rounds-over, length-columns,
  column-at,
}

-- The loops have as many rounds as the grid has columns or rows.
grid-Rounds :
    (size block step : ℕ)
    → 1 ≤ step
    → Rounds step (size - block + step) 0 (grid_count size block step)
unfolding grid_count
grid-Rounds size block step p = (grind arith, grind arith)

grid_fuel : (size block step : ℕ) → 1 ≤ step → grid_count size block step ≤ size - block + step
unfolding grid_count
grid_fuel size block step p = grind arith

get_elem?-over {ℓ} : {A : Type ℓ} (xs : List A) (i : ℕ) → length xs ≤ i → get_elem? xs i ≡ none
get_elem?-over [] i h = refl
get_elem?-over (x ∷ xs) zero h = absurd (omega arith)
get_elem?-over (x ∷ xs) (suc i) h = get_elem?-over xs i (omega arith)

module _ {ℓ} {K : Type ℓ} (width height block step : ℕ) (key : K) (t : ℕ) (p : 1 ≤ step) where
  nx : ℕ
  nx = grid_count width block step

  line : ℕ → ℕ → List (GroupJob K)
  line by0 ordinal = columns width height block step key t (width - block + step) 0 by0 ordinal

  length-line : (by0 ordinal : ℕ) → length (line by0 ordinal) ≡ nx
  unfolding line nx
  length-line by0 ordinal =
      length-columns width height block step key t nx _ 0 by0 ordinal p
        (grid_fuel width block step p) (grid-Rounds width block step p)

  length-rows :
      (n fuel begin ordinal : ℕ)
      → n ≤ fuel
      → Rounds step (height - block + step) begin n
      → length (rows width height block step key t fuel begin ordinal) ≡ n * nx
  unfolding rows line
  length-rows zero zero begin ordinal f r = omega arith
  length-rows zero (suc fuel) begin ordinal f r = rw (Rounds-over step _ begin r) (omega arith)
  length-rows (suc n) zero begin ordinal f r = absurd (omega arith)
  length-rows (suc n) (suc fuel) begin ordinal f r =
      let width_of = length-line begin ordinal in
      let rest =
        length-rows n fuel (begin + step) (ordinal + length (line begin ordinal)) (omega arith)
          (Rounds-next step _ begin n r) in
      let total : nx + n * nx ≡ suc n * nx = grind arith in
      rw (Rounds-more step _ begin n r)
        (length-append (line begin ordinal) _ ∙ omega (arith, rest, width_of, total))

  row-at :
      (n fuel begin ordinal r j : ℕ)
      → n ≤ fuel
      → Rounds step (height - block + step) begin n
      → r < n
      → j < nx
      → get_elem? (rows width height block step key t fuel begin ordinal) (r * nx + j)
        ≡ some (
            job width height block step key t
              (ordinal + (r * nx + j))
              (0 + j * step)
              (begin + r * step))
  unfolding rows line nx grid_count
  row-at zero fuel begin ordinal r j f q h k = absurd (omega arith)
  row-at (suc n) zero begin ordinal r j f q h k = absurd (omega arith)
  row-at (suc n) (suc fuel) begin ordinal zero j f q h k =
      let index : 0 * nx + j ≡ j = omega arith in
      let place : begin + 0 * step ≡ begin = omega arith in
      let inside : j < length (line begin ordinal) = omega (arith, length-line begin ordinal) in
      rw (Rounds-more step _ begin n q, index, place)
        (get_elem?-left (line begin ordinal) _ j inside
          ∙ column-at width height block step key t nx _ 0 begin ordinal j p
              (grid_fuel width block step p) (grid-Rounds width block step p) k)
  row-at (suc n) (suc fuel) begin ordinal (suc r) j f q h k =
      let skip : suc r * nx + j ≡ length (line begin ordinal) + (r * nx + j) =
        grind (arith, length-line begin ordinal) in
      let number : ordinal + length (line begin ordinal) + (r * nx + j)
          ≡ ordinal + (suc r * nx + j) =
        omega (arith, skip) in
      let place : begin + step + r * step ≡ begin + suc r * step = grind arith in
      let rest =
        row-at n fuel (begin + step) (ordinal + length (line begin ordinal)) r j (omega arith)
          (Rounds-next step _ begin n q) (omega arith) k in
      rw (Rounds-more step _ begin n q) (
        get_elem?-right (line begin ordinal) _ (r * nx + j) (suc r * nx + j) skip
        ∙ rw (number, place) at rest)

  ny : ℕ
  ny = grid_count height block step

  all_rows : List (GroupJob K)
  all_rows = rows width height block step key t (height - block + step) 0 0

  length-all_rows : length all_rows ≡ ny * nx
  unfolding all_rows ny
  length-all_rows =
      length-rows ny _ 0 0 (grid_fuel height block step p) (grid-Rounds height block step p)

  all_rows-at :
      (i : ℕ)
      → i < nx * ny
      → get_elem? all_rows i ≡ some (raster_job width height block step key t i)
  unfolding all_rows ny raster_job nx
  all_rows-at i h =
      let wide : 0 < nx = omega arith in
      let split : i / nx * nx + i % nx ≡ i = grind arith in
      let low : i / nx < ny = grind arith in
      let near : i % nx < nx = grind arith in
      let number : 0 + i ≡ i = omega arith in
      let left : 0 + i % nx * step ≡ i % nx * step = omega arith in
      let top : 0 + i / nx * step ≡ i / nx * step = omega arith in
      rw (split, number, left, top) at
        (row-at ny _ 0 0 (i / nx) (i % nx) (grid_fuel height block step p)
          (grid-Rounds height block step p) low near)

  -- For a frame that has a block, and a step of at least 1, the list of jobs has one job for each
  -- place of the grid and no other: its job `i` is the one that a RasterJobs has at `i`, at column
  -- `i % nx` and row `i / nx` of the grid, the last column and the last row clamped to the frame.
  pub raster_jobs_agree :
      (i : ℕ)
      → block ≤ width
      → block ≤ height
      → get_elem? (append_raster_jobs width height block step key t []) i ≡ (
          if ltb i (grid_count width block step * grid_count height block step)
          then some (raster_job width height block step key t i)
          else none)
  unfolding append_raster_jobs all_rows nx ny
  raster_jobs_agree i w h = rw accepted (elim (Bool-cases (ltb i (nx * ny))) [
    | inl within ↦ rw within (all_rows-at i (ground arith))
    | inr beyond ↦ rw beyond (get_elem?-over all_rows i (ground (arith, length-all_rows, swap)))
  ])
    where
      accepted : (ltb width block || ltb height block || ltb step 1) ≡ false
      accepted = ground arith

      swap : ny * nx ≡ nx * ny
      swap = grind arith
