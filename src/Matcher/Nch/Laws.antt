-- ===== src/Matcher/Nch/Laws.antt =====
-- A search over several channels as a whole.
use mathlib.Core.List.{mem-cons_self, mem-cons_of_mem, mem-append_left}
use mathlib.Core.List.Perm
use native.Mathlib.Bridge.{le_prop}
use vapoursynth_nssfactory.Base.{
  ℕ, ◌+◌, ◌-◌, ◌≤◌, ◌<◌, ◌≡◌, refl, ◌∙◌, ap, false, ◌||◌, pos_part, List, [], ◌∷◌, Mem, map, length,
  arith, ==_iff, Every, Every-append, Every-Mem, Every-of_mem, Every-map,
}
use vapoursynth_nssfactory.Matcher.{Match}
use vapoursynth_nssfactory.Matcher.Spatial.{reference, clamp, Policy, keep}
use vapoursynth_nssfactory.Matcher.Spatial.Window.{IsCandidate}
use vapoursynth_nssfactory.Matcher.Spatial.Laws.{Returns, collect_spatial_coords-Returns}
use vapoursynth_nssfactory.Matcher.Temporal.{
  assign_temporal_order, first_frame, last_frame, offered, collect_temporal,
}
use vapoursynth_nssfactory.Matcher.Temporal.Bounds.{IsOffered, offered-Every}
use vapoursynth_nssfactory.Matcher.Temporal.Laws.{collect_temporal-Follows}
use vapoursynth_nssfactory.Matcher.Nch.{
  NchSearch, refuses_arguments, refuses_frames, refuses_planes, spatial_search, spatial_match_nch,
  temporal_search, predictive_match_nch,
}
use vapoursynth_nssfactory.Matcher.Nch.Checks.{
  Numbers, either_false, arguments-Numbers, spatial-Passes, spatial-Accepted, valid_frames,
  not_negative,
}

-- The reference block keeps its ordinal of 0.
reference-tagged :
    (x y t : ℕ)
    → assign_temporal_order t t record { x = x; y = y; t = 0; dist = 0; ordinal = 0 }
      ≡ record { x = x; y = y; t = t; dist = 0; ordinal = 0 }
unfolding assign_temporal_order
reference-tagged x y t = rw ((==_iff t t).1 refl) refl

module _ (s : NchSearch) where
  open s use {nch, ntemp, width, height, bx, by, t0, cfg}

  -- A block that is returned: in the plane, and in a frame that is valid and at most `radius` from t0.
  pub record IsMember (m : Match) : Type 0 where
    pub to_right : m.x ≤ pos_part width - pos_part cfg.block
    pub to_bottom : m.y ≤ pos_part height - pos_part cfg.block
    pub from_first : first_frame (temporal_search s) ≤ m.t
    pub before_last : m.t < last_frame (temporal_search s)
    pub not_before : pos_part t0 ≤ m.t + pos_part cfg.radius
    pub not_after : m.t ≤ pos_part t0 + pos_part cfg.radius

  IsMember-prop : (m : Match) → IsProp (IsMember m)
  IsMember-prop m = hlevel le_prop

  offered-IsMember : (m : Match) → IsOffered (temporal_search s) m → IsMember m
  offered-IsMember m o = record {
    to_right = o.block.place.0;
    to_bottom = o.block.place.1;
    from_first = o.from_first;
    before_last = o.before_last;
    not_before = o.not_before;
    not_after = o.not_after;
  }

  -- The reference block, and then the others.
  pub record Group (found : List Match) : Type 0 where
    pub kept : List Match
    pub shape :
        found
        ≡ record {
          x = clamp bx (pos_part width - pos_part cfg.block);
          y = clamp by (pos_part height - pos_part cfg.block);
          t = pos_part t0;
          dist = 0;
          ordinal = 0;
        }
          ∷ kept
    pub size : length found ≤ pos_part cfg.group
    pub members : Every IsMember kept

  retagged-IsMember :
      (ms : List Match)
      → (first_frame (temporal_search s) ≤ pos_part t0)
        × (pos_part t0 < last_frame (temporal_search s))
      → ((m : Match) → Mem m ms → IsCandidate (spatial_search s) m)
      → Every IsMember (map (assign_temporal_order (pos_part t0) (pos_part t0)) ms)
  unfolding assign_temporal_order
  retagged-IsMember [] v h = tt
  retagged-IsMember (m ∷ ms) (f, l) h =
      let c = h m mem-cons_self in
      (
        record {
          to_right = omega (arith, c.to_right);
          to_bottom = omega (arith, c.to_bottom);
          from_first = f;
          before_last = l;
          not_before = omega arith;
          not_after = omega arith;
        },
        retagged-IsMember ms (f, l) (λ n i. h n (mem-cons_of_mem m i)),
      )

  -- The search over the frames, from what that of the reference frame has returned.
  follow-Group :
      Numbers s
      → (first_frame (temporal_search s) ≤ pos_part t0)
        × (pos_part t0 < last_frame (temporal_search s))
      → (spatial : List Match) → Returns (spatial_search s) spatial
      → Group (collect_temporal (temporal_search s) spatial)
  follow-Group n v spatial r =
      let few : length r.kept < pos_part cfg.group = omega (arith, r.best.size, n.group) in
      let f =
        collect_temporal-Follows (temporal_search s) (reference (spatial_search s)) r.kept n.frame
          few in
      rw r.shape record {
        kept = f.kept;
        shape = f.shape ∙ ap (λ m. m ∷ f.kept) (reference-tagged _ _ (pos_part t0));
        size = omega (arith, ap length f.shape, f.best.size, n.group);
        members = Every-of_mem IsMember f.kept (λ m i.
            Every-Mem IsMember IsMember-prop _ m
              (Every-append IsMember (offered (temporal_search s) _) _
                (Every-map (IsOffered (temporal_search s)) IsMember offered-IsMember _
                  (offered-Every (temporal_search s) _))
                (retagged-IsMember r.kept v r.inside))
              ((Perm.mem_iff f.best.perm).0 (mem-append_left f.best.rejected i)));
      }

  -- Whichever policy the build selects for the reference frame, arguments that are not refused
  -- give the reference block first and with it at most `group` blocks, all of them in the plane, in the frames
  -- that are valid and at most `radius` frames from t0.
  pub predictive_match_nch-Group :
      (policy : Policy)
      → (refuses_arguments s || refuses_frames s || refuses_planes s) ≡ false
      → Group (predictive_match_nch s (keep policy))
  unfolding predictive_match_nch spatial_match_nch
  predictive_match_nch-Group policy h =
      let (more, p) = either_false (refuses_arguments s || refuses_frames s) (refuses_planes s) h in
      let (a, f) = either_false (refuses_arguments s) (refuses_frames s) more in
      let n = arguments-Numbers s a in
      rw (h, spatial-Passes s n p a)
        (follow-Group n (valid_frames s f n.frame (not_negative s a)) _
          (collect_spatial_coords-Returns (spatial_search s) policy (spatial-Accepted s n)))
