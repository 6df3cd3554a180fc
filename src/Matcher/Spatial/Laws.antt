-- ===== src/Matcher/Spatial/Laws.antt =====
-- What a search of one frame returns.
use mathlib.Core.Logic.Or
use mathlib.Core.List.{mem-cons, mem-append_left, not-mem-nil}
use mathlib.Core.List.Perm
use mathlib.Core.Path.{subst}
use native.Mathlib.Bridge.{le_prop}
use vapoursynth_nssfactory.Base.{
  ℕ, suc, ◌-◌, ◌*◌, ◌≤◌, ◌≡◌, refl, sym, ◌∙◌, false, ◌||◌, inl, inr, List, [], ◌∷◌, ltb, ◌==◌,
  length, Mem, min, arith, Bool-cases,
}
use vapoursynth_nssfactory.Matcher.{Match, match_less}
use vapoursynth_nssfactory.Matcher.Order.{match_less-StrictWeak, match_less_alike}
use vapoursynth_nssfactory.Matcher.TopK.Sort.{IsSorted}
use vapoursynth_nssfactory.Matcher.TopK.Best.{IsBest, Separates}
use vapoursynth_nssfactory.Matcher.TopK.Stable.{StableTopK-IsBest}
use vapoursynth_nssfactory.Matcher.TopK.CachedWorst.{cached-eq-stable}
use vapoursynth_nssfactory.Matcher.TopK.Agreement.{sorted-eq-stable}
use vapoursynth_nssfactory.Matcher.Spatial.{
  Search, max_group, top, bottom, left, right, reference, candidates, collect_spatial_coords,
  Policy, keep,
}
use vapoursynth_nssfactory.Matcher.Spatial.Window.{
  IsCandidate, All, candidates-All, length-candidates,
}

-- A match is its place, frame, distance and ordinal.
Match-eq :
    (a b : Match)
    → a.x ≡ b.x
    → a.y ≡ b.y
    → a.t ≡ b.t
    → a.dist ≡ b.dist
    → a.ordinal ≡ b.ordinal
    → a ≡ b
Match-eq a b p q r d o = λ i. record { x = p i; y = q i; t = r i; dist = d i; ordinal = o i }

-- The arguments that are not refused.
abbrev pub Accepted : Search → Type 0
Accepted s =
    (1 ≤ s.width)
    × (1 ≤ s.height)
    × (1 ≤ s.block)
    × (s.block ≤ s.width)
    × (s.block ≤ s.height)
    × (1 ≤ s.group)

IsCandidate-prop : (s : Search) (m : Match) → IsProp (IsCandidate s m)
IsCandidate-prop s m = hlevel le_prop

module _ (s : Search) where
  All-mem : (ms : List Match) (m : Match) → All s (IsCandidate s) ms → Mem m ms → IsCandidate s m
  All-mem [] m h i = absurd (not-mem-nil i)
  All-mem (n ∷ ms) m h i =
      Or.elim (IsCandidate-prop s m) (mem-cons.0 i) (λ e. subst (IsCandidate s) (sym e) h.0)
        (All-mem ms m h.1)

  candidates-mem : (m : Match) → Mem m (candidates s) → IsCandidate s m
  candidates-mem m i = All-mem (candidates s) m (candidates-All s) i

  pub candidates-Separates : Separates match_less (candidates s)
  candidates-Separates a b m n h k =
      let (x, y, t, ordinal) = match_less_alike a b h k in
      let dist : a.dist ≡ b.dist =
        (candidates-mem a m).measured ∙ rw (x, y) (sym (candidates-mem b n).measured) in
      Match-eq a b x y t dist ordinal

  keep-stable :
      (policy : Policy) (capacity : ℕ)
      → keep policy capacity (candidates s) ≡ keep Policy.stable capacity (candidates s)
  unfolding keep
  keep-stable Policy.stable k = refl
  keep-stable Policy.cached_worst k = cached-eq-stable match_less k (candidates s)
  keep-stable Policy.spatial_sorted k =
      sorted-eq-stable match_less-StrictWeak k (candidates s) candidates-Separates

  -- A search returns the same matches whichever policy the build selects, the refused searches
  -- included.
  pub spatial_policies :
      (p q : Policy) → collect_spatial_coords s (keep p) ≡ collect_spatial_coords s (keep q)
  unfolding collect_spatial_coords
  spatial_policies p q =
      let k = min s.group max_group - 1 in
      let same : keep p k (candidates s) ≡ keep q k (candidates s) =
        keep-stable p k ∙ sym (keep-stable q k) in
      rw same refl

  -- What is returned: the reference block, then the best of the candidates in ascending order.
  pub record Returns (found : List Match) : Type 0 where
    pub kept : List Match
    pub shape : found ≡ reference s ∷ kept
    pub best : IsBest match_less (min s.group max_group - 1) (candidates s) kept
    pub sorted : IsSorted match_less kept
    pub inside : (m : Match) → Mem m kept → IsCandidate s m
    pub size :
        length found
        ≡ min (min s.group max_group) ((suc (bottom s) - top s) * (suc (right s) - left s))

  Returns-kept :
      (kept : List Match)
      → 1 ≤ s.group
      → IsBest match_less (min s.group max_group - 1) (candidates s) kept
      → IsSorted match_less kept
      → Returns (reference s ∷ kept)
  Returns-kept kept g b t = record {
    kept = kept;
    shape = refl;
    best = b;
    sorted = t;
    inside = λ m i. candidates-mem m ((Perm.mem_iff b.perm).0 (mem-append_left b.rejected i));
    size = omega (arith, b.size, length-candidates s);
  }

  stable-Returns : Accepted s → Returns (collect_spatial_coords s (keep Policy.stable))
  unfolding collect_spatial_coords keep
  stable-Returns a = rw accepted (elim (Bool-cases (min s.group max_group == 1)) [
    | inl one ↦ rw one (
        Returns-kept [] a.5
          (record { rejected = candidates s; perm = Perm.rfl; best = tt; size = ground arith }) tt)
    | inr more ↦
        let (b, t) =
          StableTopK-IsBest match_less-StrictWeak (min s.group max_group - 1) (candidates s) in
        rw more (Returns-kept _ a.5 b t)
  ])
    where
      accepted :
          (ltb s.width 1
            || ltb s.height 1
            || ltb s.block 1
            || ltb s.width s.block
            || ltb s.height s.block
            || ltb s.group 1)
          ≡ false
      accepted = ground arith

  -- Whichever policy the build selects, an accepted search returns the reference block first, and
  -- then the candidates that the order puts first, in ascending order, each of them a block of the
  -- window with its distance. It returns as many matches as the group and its limit of 64 allow, or
  -- one for each block of the window if there are fewer.
  pub collect_spatial_coords-Returns :
      (policy : Policy) → Accepted s → Returns (collect_spatial_coords s (keep policy))
  collect_spatial_coords-Returns policy a =
      subst Returns (spatial_policies Policy.stable policy) (stable-Returns a)
