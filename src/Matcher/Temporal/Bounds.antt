-- ===== src/Matcher/Temporal/Bounds.antt =====
-- The blocks that the frames around the reference frame offer.
use mathlib.Core.List.{mem-append_left}
use mathlib.Core.List.Perm
use mathlib.Core.Path.{subst}
use native.Mathlib.Bridge.{le_prop}
use vapoursynth_nssfactory.Base.{
  ℕ, zero, suc, ◌+◌, ◌-◌, ◌≤◌, ◌<◌, ◌≡◌, refl, sym, ◌∙◌, inl, inr, Bool, true, false, if◌then◌else◌,
  List, [], ◌∷◌, arith, Bool-cases, none, some, Option, min, Every, Every-append, Every-Mem,
  Every-of_mem, Every-map, Every-if,
}
use vapoursynth_nssfactory.Matcher.{Match}
use vapoursynth_nssfactory.Matcher.Order.{match_less-StrictWeak}
use vapoursynth_nssfactory.Matcher.TopK.Stable.{StableTopK-IsBest}
use vapoursynth_nssfactory.Matcher.Temporal.{
  TemporalSearch, assign_temporal_order, layer_places, visited, search_layer, first_frame,
  last_frame, layer_frame, layers, offered,
}
use vapoursynth_nssfactory.Matcher.Temporal.Layer.{times_at, in_windows, times_at-layer_places}

not_none :
    (refused : Bool) (v t : ℕ)
    → (if refused then none else some v) ≡ some t
    → (refused ≡ false) × (v ≡ t)
not_none true v t e = absurd (cc)
not_none false v t e = (refl, cc)

module _ (s : TemporalSearch) where
  open s use {width, height, block, t0, radius, ps_num, group}

  abbrev pub IsPlace : ℕ × ℕ → Type 0
  IsPlace p = (p.0 ≤ width - block) × (p.1 ≤ height - block)

  in_windows-IsPlace :
      (x y : ℕ) (centers : List Match) → in_windows s x y centers ≡ true → IsPlace (x, y)
  in_windows-IsPlace x y [] h = absurd (ground arith)
  in_windows-IsPlace x y (c ∷ centers) h = elim (Bool-cases (in_windows s x y centers)) [
    | inl later ↦ in_windows-IsPlace x y centers later
    | inr here ↦ (ground arith, ground arith)
  ]

  -- Only blocks of the plane are visited.
  visited_places :
      (centers : List Match) (places : List (ℕ × ℕ))
      → ((x y : ℕ) → 0 < times_at x y places → IsPlace (x, y))
      → Every IsPlace places
  visited_places centers [] h = tt
  visited_places centers ((x, y) ∷ places) h =
      (h x y (ground arith), visited_places centers places (λ a b k. h a b (ground (arith, k))))

  layer_places-Every : (centers : List Match) → Every IsPlace (layer_places s centers)
  layer_places-Every centers = visited_places centers (layer_places s centers) (λ x y h.
      elim (Bool-cases (in_windows s x y centers)) [
        | inl here ↦ in_windows-IsPlace x y centers here
        | inr outside ↦
            let e = times_at-layer_places s x y centers in absurd (ground (arith, e, outside, h))
      ])

  -- A block of frame t, with its distance.
  pub record IsBlock (t : ℕ) (m : Match) : Type 0 where
    pub frame : m.t ≡ t
    pub place : IsPlace (m.x, m.y)
    pub measured : m.dist ≡ s.distance t m.x m.y

  IsBlock-prop : (t : ℕ) (m : Match) → IsProp (IsBlock t m)
  IsBlock-prop t m = hlevel le_prop

  visited-Every :
      (t visit : ℕ) (places : List (ℕ × ℕ))
      → Every IsPlace places
      → Every (IsBlock t) (visited s t visit places)
  unfolding assign_temporal_order
  visited-Every t visit [] h = tt
  visited-Every t visit ((x, y) ∷ places) (p, h) =
      (record { frame = refl; place = p; measured = refl }, visited-Every t (suc visit) places h)

  search_layer-Every : (t : ℕ) (centers : List Match) → Every (IsBlock t) (search_layer s t centers)
  unfolding search_layer
  search_layer-Every t centers =
      let (b, _) =
        StableTopK-IsBest match_less-StrictWeak (min ps_num group)
          (visited s t 1 (layer_places s centers)) in
      Every-of_mem (IsBlock t) _ (λ m i.
        Every-Mem (IsBlock t) (IsBlock-prop t) (visited s t 1 (layer_places s centers)) m
          (visited-Every t 1 (layer_places s centers) (layer_places-Every centers))
          ((Perm.mem_iff b.perm).0 (mem-append_left b.rejected i)))

  -- A block of a frame other than the reference frame, at most `radius` from it and among those that are
  -- valid.
  pub record IsOffered (m : Match) : Type 0 where
    pub from_first : first_frame s ≤ m.t
    pub before_last : m.t < last_frame s
    pub not_before : t0 ≤ m.t + radius
    pub not_after : m.t ≤ t0 + radius
    pub other : ¬ (m.t ≡ t0)
    pub block : IsBlock m.t m

  abbrev IsNear : ℕ → Type 0
  IsNear t =
      (first_frame s ≤ t)
      × (t < last_frame s)
      × (t0 ≤ t + radius)
      × (t ≤ t0 + radius)
      × (¬ (t ≡ t0))

  layer_frame-IsNear :
      (backward : Bool) (dt t : ℕ)
      → layer_frame s backward dt ≡ some t
      → 1 ≤ dt
      → dt ≤ radius
      → IsNear t
  layer_frame-IsNear true dt t e l u =
      let (c, v) = not_none _ (t0 - dt) t e in
      (
        ground (arith, c, v),
        ground (arith, c, v),
        ground (arith, c, v),
        ground (arith, c, v),
        λ f. ground (arith, c, v, f),
      )
  layer_frame-IsNear false dt t e l u =
      let (c, v) = not_none _ (t0 + dt) t e in
      (
        ground (arith, c, v),
        ground (arith, c, v),
        ground (arith, c, v),
        ground (arith, c, v),
        λ f. ground (arith, c, v, f),
      )

  IsNear-IsOffered : (t : ℕ) (m : Match) → IsNear t → IsBlock t m → IsOffered m
  IsNear-IsOffered t m (f, l, n, r, o) b = record {
    from_first = omega (arith, f, b.frame);
    before_last = rw b.frame l;
    not_before = omega (arith, n, b.frame);
    not_after = omega (arith, r, b.frame);
    other = λ e. o (sym b.frame ∙ e);
    block = subst (λ u. IsBlock u m) (sym b.frame) b;
  }

  round-Every :
      (n : ℕ) (backward : Bool) (dt : ℕ) (centers : List Match)
      → 1 ≤ dt
      → dt ≤ radius
      → ((found : List Match) → Every IsOffered (layers s n backward (suc dt) found))
      → (frame : Option ℕ) → layer_frame s backward dt ≡ frame
      → Every IsOffered (layers s (suc n) backward dt centers)
  unfolding layers
  round-Every n backward dt centers l u later none e = rw (layers, e) tt
  round-Every n backward dt centers l u later (some t) e =
      rw (layers, e)
        (Every-append IsOffered (search_layer s t centers) _
          (Every-map (IsBlock t) IsOffered
            (λ m. IsNear-IsOffered t m (layer_frame-IsNear backward dt t e l u))
            (search_layer s t centers) (search_layer-Every t centers))
          (Every-if IsOffered _ _ (later _)))

  layers-Every :
      (rounds : ℕ) (backward : Bool) (dt : ℕ) (centers : List Match)
      → 1 ≤ dt
      → dt + rounds ≤ suc radius
      → Every IsOffered (layers s rounds backward dt centers)
  unfolding layers
  layers-Every zero backward dt centers l u = tt
  layers-Every (suc n) backward dt centers l u =
      round-Every n backward dt centers l (omega (arith, u))
        (λ found. layers-Every n backward (suc dt) found (omega arith) (omega (arith, u)))
        (layer_frame s backward dt) refl

  -- Whatever the reference frame has given, all that is offered lies in the plane of such a frame.
  pub offered-Every : (own : List Match) → Every IsOffered (offered s own)
  unfolding offered
  offered-Every own =
      Every-append IsOffered _ _ (layers-Every radius true 1 _ (omega arith) (omega arith))
        (layers-Every radius false 1 _ (omega arith) (omega arith))
