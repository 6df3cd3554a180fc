-- ===== src/Matcher/Nch/Checks.antt =====
-- The arguments that are not refused, in numbers.
use vapoursynth_nssfactory.Base.{
  ℕ, zero, suc, ◌+◌, ◌*◌, ◌≤◌, ◌<◌, ◌≡◌, refl, inl, inr, Bool, true, false, ◌||◌, not, ltb, ltb_ℤ,
  ℤ, pos, negsuc, pos_part, arith, Bool-cases,
}
use vapoursynth_nssfactory.Matcher.Spatial.{max_group}
use vapoursynth_nssfactory.Matcher.Spatial.Laws.{Accepted}
use vapoursynth_nssfactory.Matcher.Temporal.{first_frame, last_frame, valid_end}
use vapoursynth_nssfactory.Matcher.Nch.{
  NchSearch, any_below, refuses_spatial, refuses_arguments, refuses_frames, refuses_planes,
  spatial_search, temporal_search,
}

none_below : (n : ℕ) (test : ℕ → Bool) → any_below n test ≡ false → (i : ℕ) → i < n → test i ≡ false
none_below zero test h i l = absurd (omega arith)
none_below (suc n) test h i l = elim (Bool-cases (ltb i n)) [
  | inl below ↦ none_below n test (ground (arith, h)) i (ground (arith, below))
  | inr last ↦ let e : i ≡ n = ground (arith, last, l) in rw e (ground (arith, h))
]

none_below_of :
    (n : ℕ) (test : ℕ → Bool) → ((i : ℕ) → i < n → test i ≡ false) → any_below n test ≡ false
none_below_of zero test h = refl
none_below_of (suc n) test h =
    rw (h n (omega arith)) (none_below_of n test (λ i l. h i (omega arith)))

pub either_false : (a b : Bool) → (a || b) ≡ false → (a ≡ false) × (b ≡ false)
either_false true b h = absurd (ground arith)
either_false false b h = (refl, h)

module _ (s : NchSearch) where
  open s use {nch, ntemp, width, height, bx, by, t0, cfg}

  -- What the accepted arguments are, in numbers.
  pub record Numbers : Type 0 where
    pub frame : pos_part t0 < pos_part ntemp
    pub block : 1 ≤ pos_part cfg.block
    pub wide : pos_part cfg.block ≤ pos_part width
    pub high : pos_part cfg.block ≤ pos_part height
    pub group : 1 ≤ pos_part cfg.group
    pub bounded : pos_part cfg.group ≤ max_group

  pub arguments-Numbers : refuses_arguments s ≡ false → Numbers
  unfolding refuses_arguments
  arguments-Numbers h = record {
    frame = ground (arith, h);
    block = ground (arith, h);
    wide = ground (arith, h);
    high = ground (arith, h);
    group = ground (arith, h);
    bounded = ground (arith, h);
  }

  planes-Held :
      refuses_planes s ≡ false
      → pos_part t0 < pos_part ntemp
      → (c : ℕ) → c < pos_part nch
      → (not (s.refs (c * pos_part ntemp + pos_part t0)) || ltb_ℤ (s.strides c) width) ≡ false
  unfolding refuses_planes
  planes-Held h l c i =
      let (stride, planes) =
        either_false (ltb_ℤ (s.strides c) width) _ (none_below (pos_part nch) _ h c i) in
      let plane =
        none_below (pos_part ntemp) (λ t. not (s.refs (c * pos_part ntemp + t))) planes
          (pos_part t0) l in
      rw (plane, stride) refl

  -- The search of the reference frame does not refuse what has passed.
  pub spatial-Passes :
      Numbers → refuses_planes s ≡ false → refuses_arguments s ≡ false → refuses_spatial s ≡ false
  unfolding refuses_spatial refuses_arguments
  spatial-Passes n h a =
      let planes = none_below_of (pos_part nch) _ (planes-Held h n.frame) in
      rw planes (ground (arith, a))

  pub spatial-Accepted : Numbers → Accepted (spatial_search s)
  spatial-Accepted n = (
    omega (arith, n.wide, n.block),
    omega (arith, n.high, n.block),
    n.block,
    n.wide,
    n.high,
    n.group,
  )

  -- The window of frames has the reference frame.
  pub valid_frames :
      refuses_frames s ≡ false
      → pos_part t0 < pos_part ntemp
      → ltb_ℤ t0 (pos 0) ≡ false
      → (first_frame (temporal_search s) ≤ pos_part t0)
        × (pos_part t0 < last_frame (temporal_search s))
  unfolding refuses_frames
  valid_frames h l p = (ground (arith, h, p), in_frames cfg.valid_t_end refl)
    where
      in_frames : (v : ℤ) → cfg.valid_t_end ≡ v → pos_part t0 < valid_end (pos_part ntemp) v
      in_frames (pos n) e = (let known = rw e at h in ground (arith, known, l, p))
      in_frames (negsuc n) e = l

  pub not_negative : refuses_arguments s ≡ false → ltb_ℤ t0 (pos 0) ≡ false
  unfolding refuses_arguments
  not_negative h = ground (arith, h)
