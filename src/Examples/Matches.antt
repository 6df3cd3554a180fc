-- ===== src/Examples/Matches.antt =====
-- A search of a 5 by 4 frame for blocks of 2 by 2 around column 1 and row 0.
use vapoursynth_nssfactory.Base.{ℕ, zero, suc, ◌≡◌, refl, arith, List, [], ◌∷◌, pos}
use vapoursynth_nssfactory.Float.{F32}
use vapoursynth_nssfactory.Matcher.{Match}
use vapoursynth_nssfactory.Matcher.Spatial.{
  Search, candidates, collect_spatial_coords, Policy, keep,
}
use vapoursynth_nssfactory.Matcher.Spatial.Window.{Holds, candidates-Holds}
use vapoursynth_nssfactory.Matcher.Spatial.Laws.{
  Returns, spatial_policies, collect_spatial_coords-Returns,
}

-- The float32 1.0, 2.0, +inf and a NaN.
abbrev one : F32
one = 0x3f800000

abbrev two : F32
two = 0x40000000

abbrev infinity : F32
infinity = 0x7f800000

abbrev nan : F32
nan = 0x7fc00000

-- The distance is NaN on the left, infinite on the right, and 1 or 2 by the row in between.
abbrev measure : ℕ → ℕ → ℕ → ℕ → F32
measure rx ry zero y = nan
measure rx ry (suc (suc (suc x))) y = infinity
measure rx ry (suc x) zero = two
measure rx ry (suc x) (suc y) = one

abbrev search : Search
search = record {
  width = 5;
  height = 4;
  bx = pos 1;
  by = pos 0;
  block = 2;
  bm_range = pos 2;
  group = 4;
  distance = measure;
}

abbrev at_place : ℕ → ℕ → F32 → ℕ → Match
at_place x y dist ordinal = record { x = x; y = y; t = 0; dist = dist; ordinal = ordinal }

abbrev few : List Match
few = at_place 0 0 nan 1 ∷ at_place 1 0 two 2 ∷ at_place 2 0 one 3 ∷ at_place 3 0 infinity 4 ∷ []

collect_spatial_coords-Returns_example :
    Returns search (collect_spatial_coords search (keep Policy.cached_worst))
collect_spatial_coords-Returns_example =
    collect_spatial_coords-Returns search Policy.cached_worst
      (omega arith, omega arith, omega arith, omega arith, omega arith, omega arith)

spatial_policies_example :
    collect_spatial_coords search (keep Policy.spatial_sorted)
    ≡ collect_spatial_coords search (keep Policy.stable)
spatial_policies_example = spatial_policies search Policy.spatial_sorted Policy.stable

candidates-Holds_example : Holds search (candidates search) 3 1
candidates-Holds_example =
    candidates-Holds search 3 1 (omega arith) (omega arith) (omega arith) (omega arith) refl
