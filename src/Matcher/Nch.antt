-- ===== src/Matcher/Nch.antt =====
-- src/cpu/mcwnnm/match_nch.cpp: the searches over several channels. A pointer that may be null is a
-- Bool, which is true of one that is not, and the distances are arguments. SpatialMatchNch
-- has a second path for three channels and blocks of 8, which refuses the same arguments and differs from
-- the first in how it computes a distance.
pub mod Checks
pub mod Laws
use vapoursynth_nssfactory.Base.{
  ℕ, zero, suc, Bool, true, false, ◌&&◌, ◌||◌, not, if◌then◌else◌, ℤ, pos, negsuc, pos_part, ltb_ℤ,
  eq_ℤ, List, [], ◌+◌, ◌-◌, ◌*◌,
}
use vapoursynth_nssfactory.Float.{F32}
use vapoursynth_nssfactory.Matcher.{Match}
use vapoursynth_nssfactory.Matcher.Spatial.{Search, max_group, clamp, collect_spatial_coords}
use vapoursynth_nssfactory.Matcher.Temporal.{TemporalSearch, collect_temporal}

-- kBmMaxRadius.
abbrev pub max_radius : ℕ
max_radius = 16

-- The fields of SearchConfig.
pub record SearchConfig : Type 0 where
  pub block : ℤ
  pub step : ℤ
  pub group : ℤ
  pub bm_range : ℤ
  pub radius : ℤ
  pub ps_num : ℤ
  pub ps_range : ℤ
  pub valid_t_begin : ℤ
  pub valid_t_end : ℤ

-- The arguments of predictive_match_nch. `refs` are the planes, those of a channel in the order of their
-- frames. The distances take the place of the reference block first.
pub record NchSearch : Type 0 where
  pub has_refs : Bool
  pub has_strides : Bool
  pub has_out : Bool
  pub refs : ℕ → Bool
  pub strides : ℕ → ℤ
  pub nch : ℤ
  pub ntemp : ℤ
  pub width : ℤ
  pub height : ℤ
  pub bx : ℤ
  pub by : ℤ
  pub t0 : ℤ
  pub cfg : SearchConfig
  pub spatial_distance : ℕ → ℕ → ℕ → ℕ → F32
  pub temporal_distance : ℕ → ℕ → ℕ → ℕ → ℕ → F32

-- Whether one of the numbers below `count` passes the test.
abbrev pub any_below : ℕ → (ℕ → Bool) → Bool
any_below zero test = false
any_below (suc n) test = test n || any_below n test

module _ (s : NchSearch) where
  open s use {nch, ntemp, width, height, bx, by, t0, cfg}

  -- The first `if` of SpatialMatchNch and its loop over the channels, for the planes of frame t0.
  unfoldable pub refuses_spatial : Bool
  refuses_spatial =
      ltb_ℤ nch (pos 1)
      || ltb_ℤ (pos 3) nch
      || ltb_ℤ width (pos 1)
      || ltb_ℤ height (pos 1)
      || ltb_ℤ cfg.block (pos 1)
      || ltb_ℤ cfg.group (pos 1)
      || ltb_ℤ (pos max_group) cfg.group
      || ltb_ℤ cfg.bm_range (pos 0)
      || any_below (pos_part nch)
          (λ c. not (s.refs (c * pos_part ntemp + pos_part t0)) || ltb_ℤ (s.strides c) width)

  abbrev pub spatial_search : Search
  spatial_search = record {
    width = pos_part width;
    height = pos_part height;
    bx = bx;
    by = by;
    block = pos_part cfg.block;
    bm_range = cfg.bm_range;
    group = pos_part cfg.group;
    distance = s.spatial_distance;
  }

  unfoldable pub spatial_match_nch : (ℕ → List Match → List Match) → List Match
  unfolding refuses_spatial
  spatial_match_nch kept =
      if refuses_spatial then [] else collect_spatial_coords spatial_search kept

  -- The first two `if`s and the loop over the channels.
  unfoldable pub refuses_arguments : Bool
  refuses_arguments =
      not s.has_refs
      || not s.has_strides
      || not s.has_out
      || ltb_ℤ nch (pos 1)
      || ltb_ℤ (pos 3) nch
      || ltb_ℤ ntemp (pos 1)
      || ltb_ℤ t0 (pos 0)
      || not (ltb_ℤ t0 ntemp)
      || ltb_ℤ width cfg.block
      || ltb_ℤ height cfg.block
      || ltb_ℤ cfg.block (pos 1)
      || ltb_ℤ cfg.group (pos 1)
      || ltb_ℤ (pos max_group) cfg.group
      || ltb_ℤ cfg.step (pos 1)
      || ltb_ℤ cfg.bm_range (pos 0)
      || ltb_ℤ cfg.ps_num (pos 1)
      || ltb_ℤ cfg.ps_range (pos 0)
      || ltb_ℤ cfg.radius (pos 0)
      || ltb_ℤ (pos max_radius) cfg.radius

  unfoldable pub refuses_frames : Bool
  refuses_frames =
      ltb_ℤ cfg.valid_t_begin (pos 0)
      || ltb_ℤ t0 cfg.valid_t_begin
      || (not (eq_ℤ cfg.valid_t_end (negsuc 0))
          && (not (ltb_ℤ t0 cfg.valid_t_end) || ltb_ℤ ntemp cfg.valid_t_end))

  unfoldable pub refuses_planes : Bool
  refuses_planes = any_below (pos_part nch) (λ c.
      ltb_ℤ (s.strides c) width
      || any_below (pos_part ntemp) (λ t. not (s.refs (c * pos_part ntemp + t))))

  abbrev pub temporal_search : TemporalSearch
  temporal_search = record {
    width = pos_part width;
    height = pos_part height;
    t0 = pos_part t0;
    ntemp = pos_part ntemp;
    block = pos_part cfg.block;
    group = pos_part cfg.group;
    radius = pos_part cfg.radius;
    ps_num = pos_part cfg.ps_num;
    ps_range = pos_part cfg.ps_range;
    valid_t_begin = pos_part cfg.valid_t_begin;
    valid_t_end = cfg.valid_t_end;
    distance =
        s.temporal_distance (clamp bx (pos_part width - pos_part cfg.block))
          (clamp by (pos_part height - pos_part cfg.block));
  }

  -- out[0, n) for the returned n.
  unfoldable pub predictive_match_nch : (ℕ → List Match → List Match) → List Match
  unfolding refuses_arguments refuses_frames refuses_planes spatial_match_nch
  predictive_match_nch kept =
      if refuses_arguments || refuses_frames || refuses_planes
      then []
      else collect_temporal temporal_search (spatial_match_nch kept)
