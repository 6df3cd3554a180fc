-- ===== src/Matcher/Temporal/Laws.antt =====
-- collect_temporal as a whole.
use vapoursynth_nssfactory.Base.{
  ℕ, zero, suc, ◌+◌, ◌-◌, ◌≤◌, ◌<◌, ◌≡◌, refl, inl, inr, Bool, true, false, ◌||◌, ltb, leb, ◌==◌,
  if◌then◌else◌, List, [], ◌∷◌, ◌++◌, map, length, length-map, arith, Bool-cases, none, ℤ, pos,
  negsuc,
}
use vapoursynth_nssfactory.Matcher.{Match, match_less}
use vapoursynth_nssfactory.Matcher.Order.{match_less-StrictWeak}
use vapoursynth_nssfactory.Matcher.TopK.Best.{IsBest}
use vapoursynth_nssfactory.Matcher.TopK.Stable.{
  IsBest-all, IsBest-none, adopt-Keeps, finish-feed-IsBest,
}
use vapoursynth_nssfactory.Matcher.Temporal.{
  TemporalSearch, assign_temporal_order, layer_frame, layers, offered, valid_end, last_frame,
  merge_layers, collect_temporal,
}

valid_end-le : (ntemp : ℕ) (valid_t_end : ℤ) → valid_end ntemp valid_t_end ≤ ntemp
valid_end-le ntemp (pos n) = omega arith
valid_end-le ntemp (negsuc n) = omega arith

le-leb : (m n : ℕ) → m ≤ n → leb m n ≡ true
le-leb m n h = ground arith

or_last : (b : Bool) → (b || true) ≡ true
or_last true = refl
or_last false = refl

module _ (s : TemporalSearch) where
  open s use {t0, ntemp, group, radius}

  -- The result of the search, from what the reference frame has given.
  pub record Follows (reference : Match) (others found : List Match) : Type 0 where
    pub kept : List Match
    pub shape : found ≡ reference ∷ kept
    pub best : IsBest match_less (group - 1) (offered s (reference ∷ others) ++ others) kept

  no_rounds :
      (backward : Bool) (rounds : ℕ) (centers : List Match)
      → rounds ≡ 0
      → layers s rounds backward 1 centers ≡ []
  unfolding layers
  no_rounds b zero centers h = refl
  no_rounds b (suc n) centers h = absurd (omega arith)

  only_frame : (backward : Bool) → t0 < ntemp → ntemp ≡ 1 → layer_frame s backward 1 ≡ none
  only_frame true h e = let first : ltb t0 1 ≡ true = ground arith in rw first refl
  only_frame false h e =
      let past : leb (last_frame s) (t0 + 1) ≡ true =
        le-leb _ _ (omega (arith, valid_end-le ntemp s.valid_t_end)) in
      rw (past, or_last) refl

  no_frames :
      (backward : Bool) (rounds : ℕ) (centers : List Match)
      → t0 < ntemp
      → ntemp ≡ 1
      → layers s rounds backward 1 centers ≡ []
  unfolding layers
  no_frames b zero centers h e = refl
  no_frames b (suc n) centers h e = rw (layers, only_frame b h e) refl

  nothing-offered :
      (own : List Match) → t0 < ntemp → (radius == 0) || (ntemp == 1) ≡ true → offered s own ≡ []
  unfolding offered
  nothing-offered own h e = elim (Bool-cases (radius == 0)) [
    | inl r ↦
        rw (no_rounds true radius _ (ground arith), no_rounds false radius _ (ground arith)) refl
    | inr r ↦
        rw (no_frames true radius _ h (ground arith), no_frames false radius _ h (ground arith))
          refl
  ]

  unchanged :
      (reference : Match) (others : List Match)
      → IsBest match_less (group - 1) (offered s (reference ∷ others) ++ others) others
      → Follows reference others (reference ∷ others)
  unchanged reference others b = record { kept = others; shape = refl; best = b }

  one_of_three :
      (reference : Match) (others now later : List Match) (a b c : Bool)
      → ((a || b) ≡ true → Follows reference others now)
      → (c ≡ true → Follows reference others now)
      → Follows reference others later
      → Follows reference others (if a || b || c then now else later)
  one_of_three r os now later true b c f g h = f refl
  one_of_three r os now later false true c f g h = f refl
  one_of_three r os now later false false true f g h = g refl
  one_of_three r os now later false false false f g h = h

  merge_layers-Follows :
      (reference : Match) (others : List Match)
      → t0 < ntemp
      → length others < group
      → Follows reference others (merge_layers s (reference ∷ others))
  unfolding merge_layers
  merge_layers-Follows reference others h k =
      one_of_three reference others _ _ (radius == 0) (ntemp == 1) (group == 1)
        (λ alone. unchanged reference others (
          rw (nothing-offered (reference ∷ others) h alone)
            (IsBest-all match_less-StrictWeak (group - 1) others (omega (arith, k)))))
        (λ single. unchanged reference others (
          no_room others (offered s (reference ∷ others) ++ others) (ground (arith, k))
            (ground arith)))
        record {
          kept = _;
          shape = refl;
          best =
              (finish-feed-IsBest match_less-StrictWeak (group - 1) others _
                (offered s (reference ∷ others))
                (adopt-Keeps match_less-StrictWeak (group - 1) others (omega (arith, k)))).0;
        }
    where
      no_room :
          (others seen : List Match)
          → length others ≡ 0
          → group - 1 ≡ 0
          → IsBest match_less (group - 1) seen others
      no_room [] seen h e = rw e (IsBest-none match_less-StrictWeak seen)
      no_room (m ∷ ms) seen h e = absurd (omega arith)

  -- Where the reference frame has given the reference block and fewer than `group` other blocks, the result of
  -- the search is the reference block and the best group - 1 of the others and of all that the frames
  -- around it offer.
  pub collect_temporal-Follows :
      (reference : Match) (others : List Match)
      → t0 < ntemp
      → length others < group
      → Follows
          (assign_temporal_order t0 t0 reference)
          (map (assign_temporal_order t0 t0) others)
          (collect_temporal s (reference ∷ others))
  unfolding collect_temporal
  collect_temporal-Follows reference others h k =
      merge_layers-Follows _ _ h (rw (length-map others (assign_temporal_order t0 t0)) k)
