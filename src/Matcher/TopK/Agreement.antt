-- ===== src/Matcher/TopK/Agreement.antt =====
-- The three policies on one stream of candidates.
use vapoursynth_nssfactory.Base.{ℕ, ◌≡◌, Bool, List}
use vapoursynth_nssfactory.Matcher.Order.{StrictWeak}
use vapoursynth_nssfactory.Matcher.TopK.Best.{Separates, IsBest-unique}
use vapoursynth_nssfactory.Matcher.TopK.Stream.{feed}
use vapoursynth_nssfactory.Matcher.TopK.Stable.{StableTopK-IsBest}
use vapoursynth_nssfactory.Matcher.TopK.Stable
use vapoursynth_nssfactory.Matcher.TopK.Sorted
use vapoursynth_nssfactory.Matcher.TopK.Sorted.Laws.{SortedTopK-IsBest}

-- If the order tells the candidates of a stream apart, a SortedTopK and a StableTopK of the same
-- capacity end with the same list.
pub sorted-eq-stable {ℓ} :
    {A : Type ℓ} {less : A → A → Bool} (o : StrictWeak less) (capacity : ℕ) (candidates : List A)
    → Separates less candidates
    → Sorted.finish less (feed (Sorted.add less) (Sorted.empty capacity) candidates)
      ≡ Stable.finish less (feed (Stable.add less) (Stable.empty capacity) candidates)
sorted-eq-stable o k ms d =
    let (b, s) = SortedTopK-IsBest o k ms in
    let (b', s') = StableTopK-IsBest o k ms in IsBest-unique o ms _ _ d b s b' s'
