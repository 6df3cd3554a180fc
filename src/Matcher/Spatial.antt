-- ===== src/Matcher/Spatial.antt =====
-- src/cpu/bm/matcher.hpp, collect_spatial_coords: the search of one frame around a reference block.
-- A width, height, block or group of 0 stands for every one below 1, which are refused alike.
pub mod Window
pub mod Laws
use vapoursynth_nssfactory.Base.{
  ℕ, zero, suc, ◌+◌, ◌-◌, ◌%◌, ◌^◌, Bool, ◌&&◌, ◌||◌, List, [], ◌∷◌, ◌++◌, ltb, ◌==◌, if◌then◌else◌,
  ℤ, pos_part, min,
}
use vapoursynth_nssfactory.Float.{F32}
use vapoursynth_nssfactory.Matcher.{Match, match_less}
use vapoursynth_nssfactory.Matcher.TopK.Stream.{feed}
use vapoursynth_nssfactory.Matcher.TopK.Stable
use vapoursynth_nssfactory.Matcher.TopK.Sorted
use vapoursynth_nssfactory.Matcher.TopK.CachedWorst

-- kBmMaxGroup.
abbrev pub max_group : ℕ
max_group = 64

-- The arguments that the loop does not change.
pub record Search : Type 0 where
  pub width : ℕ
  pub height : ℕ
  pub bx : ℤ
  pub by : ℤ
  pub block : ℕ
  pub bm_range : ℤ
  pub group : ℕ
  pub distance : ℕ → ℕ → ℕ → ℕ → F32

-- The locals: std::clamp(v, 0, hi), and std::max(v, 0).
abbrev pub clamp : ℤ → ℕ → ℕ
clamp v hi = min (pos_part v) hi

module _ (s : Search) where
  open s use {width, height, block, distance}

  abbrev pub max_x : ℕ
  max_x = width - block

  abbrev pub max_y : ℕ
  max_y = height - block

  abbrev pub center_x : ℕ
  center_x = clamp s.bx max_x

  abbrev pub center_y : ℕ
  center_y = clamp s.by max_y

  abbrev pub range : ℕ
  range = pos_part s.bm_range

  abbrev pub top : ℕ
  top = center_y - range

  abbrev pub bottom : ℕ
  bottom = min (center_y + range) max_y

  abbrev pub left : ℕ
  left = center_x - range

  abbrev pub right : ℕ
  right = min (center_x + range) max_x

  -- The inner loop over `n` columns from x: the candidates that it adds. The ordinal is a
  -- std::uint32_t, and counts the reference block too.
  pub row : ℕ → ℕ → ℕ → ℕ → List Match
  row zero x y ordinal = []
  row (suc n) x y ordinal =
      let rest = row n (suc x) y (suc ordinal) in
      if (x == center_x) && (y == center_y)
      then rest
      else record {
        x = x;
        y = y;
        t = 0;
        dist = distance center_x center_y x y;
        ordinal = ordinal % 2 ^ 32;
      }
        ∷ rest

  -- The outer loop over `n` rows from y.
  pub rows : ℕ → ℕ → ℕ → List Match
  unfolding row
  rows zero y ordinal = []
  rows (suc n) y ordinal =
      let columns = suc right - left in
      row columns left y ordinal ++ rows n (suc y) (ordinal + columns)

  pub candidates : List Match
  unfolding rows
  candidates = rows (suc bottom - top) top 1

  abbrev pub reference : Match
  reference = record { x = center_x; y = center_y; t = 0; dist = 0; ordinal = 0 }

  -- `kept` is what the policy keeps of the stream of candidates, with its capacity.
  -- The list is out[0, n) for the returned n.
  pub collect_spatial_coords : (ℕ → List Match → List Match) → List Match
  unfolding candidates
  collect_spatial_coords kept =
      if ltb width 1
        || ltb height 1
        || ltb block 1
        || ltb width block
        || ltb height block
        || ltb s.group 1
      then []
      else let wanted = min s.group max_group in
        if wanted == 1 then reference ∷ [] else reference ∷ kept (wanted - 1) candidates

-- The policy that a build selects: CandidateTopK, which is a StableTopK or, by NSS_BM_EXPERIMENT, a
-- CachedWorstTopK, and SpatialSortedTopK on ARM, whose code is that of SortedTopK.
pub data Policy : Type 0 where
  stable cached_worst spatial_sorted : Policy

unfoldable pub keep : Policy → ℕ → List Match → List Match
keep stable capacity ms =
    Stable.finish match_less (feed (Stable.add match_less) (Stable.empty capacity) ms)
keep cached_worst capacity ms =
    CachedWorst.finish match_less
      (feed (CachedWorst.add match_less) (CachedWorst.empty capacity) ms)
keep spatial_sorted capacity ms =
    Sorted.finish match_less (feed (Sorted.add match_less) (Sorted.empty capacity) ms)
