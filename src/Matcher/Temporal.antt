-- ===== src/Matcher/Temporal.antt =====
-- src/cpu/bm/matcher.hpp, assign_temporal_order and collect_temporal: the search of the frames around the
-- reference frame, which follows the best blocks from frame to frame. The callers refuse negative
-- arguments, so all but valid_t_end are numbers; CandidateTopK is StableTopK, as in a build without
-- NSS_BM_EXPERIMENT. `next_ordinal`, which is only written, is left out.
pub mod Sweep
pub mod Layer
pub mod Bounds
pub mod Laws
use vapoursynth_nssfactory.Base.{
  ℕ, zero, suc, ◌+◌, ◌-◌, ◌*◌, ◌%◌, ◌^◌, Bool, true, false, ◌&&◌, ◌||◌, not, ltb, leb, ◌==◌,
  if◌then◌else◌, ℤ, pos, negsuc, min, max, Option, none, some, List, [], ◌∷◌, ◌++◌, map, length,
  take,
}
use vapoursynth_nssfactory.Float.{F32}
use vapoursynth_nssfactory.Matcher.{Match, match_less}
use vapoursynth_nssfactory.Matcher.Spatial.{max_group}
use vapoursynth_nssfactory.Matcher.TopK.Sort.{sort}
use vapoursynth_nssfactory.Matcher.TopK.Stream.{feed}
use vapoursynth_nssfactory.Matcher.TopK.Stable
use vapoursynth_nssfactory.Matcher.TopK.Stable.{StableTopK}

-- The arguments that the loops do not change.
pub record TemporalSearch : Type 0 where
  pub width : ℕ
  pub height : ℕ
  pub t0 : ℕ
  pub ntemp : ℕ
  pub block : ℕ
  pub group : ℕ
  pub radius : ℕ
  pub ps_num : ℕ
  pub ps_range : ℕ
  pub valid_t_begin : ℕ
  pub valid_t_end : ℤ
  pub distance : ℕ → ℕ → ℕ → F32

-- kFrameStride.
abbrev pub frame_stride : ℕ
frame_stride = 2 ^ 20

-- A round of assign_temporal_order; an ordinal is a std::uint32_t.
unfoldable pub assign_temporal_order : ℕ → ℕ → Match → Match
assign_temporal_order t reference_t m = record m {
  t = t;
  ordinal =
      if (t == reference_t) && (m.ordinal == 0)
      then 0
      else ((t + 1) * frame_stride + m.ordinal) % 2 ^ 32;
}

-- An interval of columns, and the order of std::pair.
abbrev pub Interval : Type 0
Interval = ℕ × ℕ

abbrev pub interval_less : Interval → Interval → Bool
interval_less (a, b) (c, d) = if ltb a c then true else if ltb c a then false else ltb b d

-- `for (x = first; ...; ++x)` over `count` columns.
abbrev pub columns_from : ℕ → ℕ → List ℕ
columns_from zero x = []
columns_from (suc count) x = x ∷ columns_from count (suc x)

-- The loop over the sorted intervals of a row: the columns that it visits. `next` is done + 1.
unfoldable pub sweep : ℕ → List Interval → List ℕ
sweep next [] = []
sweep next ((first, last) ∷ intervals) =
    let start = max next first in
    columns_from (suc last - start) start ++ sweep (max next (suc last)) intervals

-- `valid_t_end < 0 ? ntemp : std::min(ntemp, valid_t_end)`.
abbrev pub valid_end : ℕ → ℤ → ℕ
valid_end ntemp (pos n) = min ntemp n
valid_end ntemp (negsuc n) = ntemp

module _ (s : TemporalSearch) where
  open s use {width, height, t0, ntemp, block, group, radius, ps_num, ps_range}

  -- `std::abs(y - center.y) <= ps_range`.
  abbrev pub is_near : ℕ → Match → Bool
  is_near y c = leb (y - c.y) ps_range && leb (c.y - y) ps_range

  abbrev pub interval_of : Match → Interval
  interval_of c = (c.x - ps_range, min (width - block) (c.x + ps_range))

  abbrev pub intervals_at : ℕ → List Match → List Interval
  intervals_at y [] = []
  intervals_at y (c ∷ centers) =
      let rest = intervals_at y centers in if is_near y c then interval_of c ∷ rest else rest

  -- ymin, and ymax + 1.
  abbrev pub y_begin : List Match → ℕ
  y_begin [] = height
  y_begin (c ∷ centers) = min (c.y - ps_range) (y_begin centers)

  abbrev pub y_end : List Match → ℕ
  y_end [] = 0
  y_end (c ∷ centers) = max (suc (min (height - block) (c.y + ps_range))) (y_end centers)

  unfoldable pub row_places : ℕ → List Match → List (ℕ × ℕ)
  unfolding sort sweep
  row_places y centers = map (λ x. (x, y)) (sweep 0 (sort interval_less (intervals_at y centers)))

  -- The places of `count` rows from y.
  unfoldable pub places_from : ℕ → ℕ → List Match → List (ℕ × ℕ)
  unfolding row_places
  places_from zero y centers = []
  places_from (suc count) y centers = row_places y centers ++ places_from count (suc y) centers

  -- The blocks of a layer in the order in which they are visited.
  unfoldable pub layer_places : List Match → List (ℕ × ℕ)
  unfolding places_from
  layer_places centers = places_from (y_end centers - y_begin centers) (y_begin centers) centers

  -- With the counter `visit`, a std::uint32_t.
  abbrev pub visited : ℕ → ℕ → List (ℕ × ℕ) → List Match
  visited t visit [] = []
  visited t visit ((x, y) ∷ places) =
      assign_temporal_order t t0
        record { x = x; y = y; t = t; dist = s.distance t x y; ordinal = visit % 2 ^ 32 }
      ∷ visited t (suc visit) places

  -- local[0, nc) after top.finish().
  unfoldable pub search_layer : ℕ → List Match → List Match
  unfolding layer_places assign_temporal_order
  search_layer t centers = Stable.finish match_less (
      feed (Stable.add match_less) (Stable.empty (min ps_num group))
        (visited t 1 (layer_places centers)))

  abbrev pub first_frame : ℕ
  first_frame = s.valid_t_begin

  abbrev pub last_frame : ℕ
  last_frame = valid_end ntemp s.valid_t_end

  -- t0 + sign * dt for a sign of -1 and 1, or none where the loop breaks.
  abbrev pub layer_frame : Bool → ℕ → Option ℕ
  layer_frame backward dt =
      let t = if backward then t0 - dt else t0 + dt in
      if (backward && ltb t0 dt) || ltb t first_frame || leb last_frame t then none else some t

  abbrev pub is_none_left : List Match → Bool
  is_none_left [] = true
  is_none_left (m ∷ ms) = false

  -- The loop over dt, for `rounds` rounds: the values that are added to `global`, in order.
  unfoldable pub layers : ℕ → Bool → ℕ → List Match → List Match
  unfolding search_layer
  layers zero backward dt centers = []
  layers (suc rounds) backward dt centers = elim (layer_frame backward dt) [
    | none ↦ []
    | some t ↦
        let found = search_layer t centers in
        let later = layers rounds backward (suc dt) found in
        found ++ (if is_none_left found then [] else later)
  ]

  -- What is added to `global` from the frames on both sides.
  unfoldable pub offered : List Match → List Match
  unfolding layers
  offered own =
      let seeds = take (min (length own) (min ps_num max_group)) own in
      layers radius true 1 seeds ++ layers radius false 1 seeds

  -- Past assign_temporal_order: the list is out[0, n).
  unfoldable pub merge_layers : List Match → List Match
  unfolding offered
  merge_layers [] = []
  merge_layers (reference ∷ others) =
      if (radius == 0) || (ntemp == 1) || (group == 1)
      then reference ∷ others
      else let global = Stable.adopt (Stable.empty (group - 1)) others (pos (length others)) in
        reference
        ∷ Stable.finish match_less
            (feed (Stable.add match_less) global (offered (reference ∷ others)))

  -- `out` holds what collect_spatial has found; the result is out[0, n) for the returned n.
  unfoldable pub collect_temporal : List Match → List Match
  unfolding merge_layers assign_temporal_order
  collect_temporal out = merge_layers (map (assign_temporal_order t0 t0) out)
