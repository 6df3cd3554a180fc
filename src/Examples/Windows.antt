-- ===== src/Examples/Windows.antt =====
-- A grid of blocks, and radius 3 around frame 1 of a clip of 4 frames.
use vapoursynth_nssfactory.Base.{ℕ, ◌*◌, ◌≡◌, arith, get_elem?, [], if◌then◌else◌, ltb, some, none}
use vapoursynth_nssfactory.Raster.{append_raster_jobs, grid_count, raster_job}
use vapoursynth_nssfactory.Raster.Laws.{raster_jobs_agree}

abbrev some_key : ℕ
some_key = 7

-- A frame of 5 by 4, in blocks of 2 at a step of 2: job 5 is the last of the second row.
raster_jobs_agree_example : get_elem? (append_raster_jobs 5 4 2 2 some_key 0 []) 5 ≡ (
    if ltb 5 (grid_count 5 2 2 * grid_count 4 2 2)
    then some (raster_job 5 4 2 2 some_key 0 5)
    else none)
raster_jobs_agree_example =
    raster_jobs_agree 5 4 2 2 some_key 0 (omega arith) 5 (omega arith) (omega arith)
