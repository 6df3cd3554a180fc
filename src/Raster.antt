-- ===== src/Raster.antt =====
-- src/host/batch_runner.hpp: the reference blocks of a frame as a list of jobs (append_raster_jobs),
-- and as jobs by index (RasterJobs). Sizes and steps are not negative, as the callers' arguments; the
-- sums stay below what an int64 holds.
pub mod Columns
pub mod Laws
use vapoursynth_nssfactory.Base.{
  ℕ, zero, suc, ◌+◌, ◌-◌, ◌*◌, ◌/◌, ◌%◌, Bool, ◌||◌, List, [], ◌∷◌, ◌++◌, ltb, if◌then◌else◌,
  length, min,
}

-- A GroupJob. Its key is of a type that the grid does not look at.
pub record GroupJob {ℓ} (K : Type ℓ) : Type ℓ where
  pub ordinal : ℕ
  pub x : ℕ
  pub y : ℕ
  pub t : ℕ
  pub key : K

module _ {ℓ} {K : Type ℓ} (width height block step : ℕ) (key : K) (t : ℕ) where
  abbrev pub job : ℕ → ℕ → ℕ → GroupJob K
  job ordinal bx0 by0 = record {
    ordinal = ordinal;
    x = min bx0 (width - block);
    y = min by0 (height - block);
    t = t;
    key = key;
  }

  -- The loop over bx0 and the loop over by0, with fuel: every round adds at least 1.
  unfoldable pub columns : ℕ → ℕ → ℕ → ℕ → List (GroupJob K)
  columns zero bx0 by0 ordinal = []
  columns (suc fuel) bx0 by0 ordinal =
      let rest = columns fuel (bx0 + step) by0 (suc ordinal) in
      if ltb bx0 (width - block + step) then job ordinal bx0 by0 ∷ rest else []

  unfoldable pub rows : ℕ → ℕ → ℕ → List (GroupJob K)
  unfolding columns
  rows zero by0 ordinal = []
  rows (suc fuel) by0 ordinal =
      let line = columns (width - block + step) 0 by0 ordinal in
      let rest = rows fuel (by0 + step) (ordinal + length line) in
      if ltb by0 (height - block + step) then line ++ rest else []

  unfoldable pub append_raster_jobs : List (GroupJob K) → List (GroupJob K)
  unfolding rows
  append_raster_jobs jobs =
      if ltb width block || ltb height block || ltb step 1
      then jobs
      else jobs ++ rows (height - block + step) 0 (length jobs)

-- nx_ and ny_ of a RasterJobs, which fit in an int.
unfoldable pub grid_count : ℕ → ℕ → ℕ → ℕ
grid_count size block step = (size - block + step - 1) / step + 1

-- RasterJobs::operator[].
unfoldable pub raster_job {ℓ} : {K : Type ℓ} → ℕ → ℕ → ℕ → ℕ → K → ℕ → ℕ → GroupJob K
unfolding grid_count
raster_job width height block step key t i =
    let nx = grid_count width block step in
    record {
      ordinal = i;
      x = min (i % nx * step) (width - block);
      y = min (i / nx * step) (height - block);
      t = t;
      key = key;
    }
