-- ===== src/Examples/Searches.antt =====
-- A temporal search of three frames of 5 by 4 for blocks of 2 by 2.
use vapoursynth_nssfactory.Base.{
  ℕ, zero, suc, ◌≡◌, refl, arith, List, [], ◌∷◌, map, pos, negsuc, true, false, ◌||◌, ltb, Every,
  if◌then◌else◌,
}
use vapoursynth_nssfactory.Float.{F32}
use vapoursynth_nssfactory.Matcher.{Match}
use vapoursynth_nssfactory.Matcher.Temporal.{
  TemporalSearch, assign_temporal_order, layer_places, offered, collect_temporal,
}
use vapoursynth_nssfactory.Matcher.Nch.{
  NchSearch, refuses_arguments, refuses_frames, refuses_planes, predictive_match_nch,
}
use vapoursynth_nssfactory.Matcher.Nch.Laws.{Group, predictive_match_nch-Group}
use vapoursynth_nssfactory.Matcher.Spatial.{Policy, keep}
use vapoursynth_nssfactory.Matcher.Temporal.Bounds.{IsOffered, offered-Every}
use vapoursynth_nssfactory.Matcher.Temporal.Layer.{times_at, in_windows, times_at-layer_places}
use vapoursynth_nssfactory.Matcher.Temporal.Laws.{Follows, collect_temporal-Follows}

-- The float32 1.0 in the frame before, and 2.0 in the one after.
abbrev by_frame : ℕ → ℕ → ℕ → F32
by_frame zero x y = 0x3f800000
by_frame (suc t) x y = 0x40000000

abbrev three_frames : TemporalSearch
three_frames = record {
  width = 5;
  height = 4;
  t0 = 1;
  ntemp = 3;
  block = 2;
  group = 3;
  radius = 1;
  ps_num = 2;
  ps_range = 1;
  valid_t_begin = 0;
  valid_t_end = negsuc 0;
  distance = by_frame;
}

abbrev found_at : ℕ → ℕ → F32 → ℕ → Match
found_at x y dist ordinal = record { x = x; y = y; t = 0; dist = dist; ordinal = ordinal }

-- Two windows that overlap.
abbrev two_centers : List Match
two_centers = found_at 2 0 0 0 ∷ found_at 1 1 0x40400000 3 ∷ []

first_rows :
    layer_places three_frames (found_at 3 1 0 0 ∷ found_at 0 0 0 0 ∷ [])
    ≡ ((0, 0) ∷ (1, 0) ∷ (2, 0) ∷ (3, 0) ∷ (0, 1) ∷ (1, 1) ∷ (2, 1) ∷ (3, 1) ∷ (2, 2) ∷ (3, 2) ∷ [])
unfolding layer_places
first_rows = refl

times_at-layer_places_example :
    times_at 2 1 (layer_places three_frames two_centers)
    ≡ (if in_windows three_frames 2 1 two_centers then 1 else 0)
times_at-layer_places_example = times_at-layer_places three_frames 2 1 two_centers

offered-Every_example : Every (IsOffered three_frames) (offered three_frames two_centers)
offered-Every_example = offered-Every three_frames two_centers

collect_temporal-Follows_example :
    Follows three_frames
      (assign_temporal_order 1 1 (found_at 2 0 0 0))
      (map (assign_temporal_order 1 1) (found_at 1 1 0x40400000 3 ∷ []))
      (collect_temporal three_frames two_centers)
collect_temporal-Follows_example =
    collect_temporal-Follows three_frames (found_at 2 0 0 0) (found_at 1 1 0x40400000 3 ∷ [])
      (omega arith) (omega arith)

-- Two channels of three frames.
abbrev two_channels : NchSearch
two_channels = record {
  has_refs = true;
  has_strides = true;
  has_out = true;
  refs = λ i. ltb i 6;
  strides = λ c. pos 8;
  nch = pos 2;
  ntemp = pos 3;
  width = pos 5;
  height = pos 4;
  bx = pos 1;
  by = pos 0;
  t0 = pos 1;
  cfg = record {
    block = pos 2;
    step = pos 1;
    group = pos 3;
    bm_range = pos 1;
    radius = pos 1;
    ps_num = pos 2;
    ps_range = pos 1;
    valid_t_begin = pos 0;
    valid_t_end = negsuc 0;
  };
  spatial_distance = λ cx cy x y. 0x3f800000;
  temporal_distance = λ cx cy t x y. by_frame t x y;
}

accepted_channels :
    (refuses_arguments two_channels || refuses_frames two_channels || refuses_planes two_channels)
    ≡ false
unfolding refuses_arguments refuses_frames refuses_planes
accepted_channels = refl

predictive_match_nch-Group_example :
    Group two_channels (predictive_match_nch two_channels (keep Policy.stable))
predictive_match_nch-Group_example =
    predictive_match_nch-Group two_channels Policy.stable accepted_channels
