-- ===== src/Examples/Sizes.antt =====
-- Sizes at the limits.
use vapoursynth_nssfactory.Base.{
  ◌≡◌, List, [], ◌∷◌, pos, leb, ◌&&◌, if◌then◌else◌, ok, err, bad_array_new_length,
}
use vapoursynth_nssfactory.Checked.{Term, signed, unsigned, size_max, checked_sum}
use vapoursynth_nssfactory.Checked.Laws.{total, none_negative, checked_sum_lem}

abbrev terms : List Term
terms = unsigned size_max ∷ signed (pos 1) ∷ []

checked_sum_lem_example : checked_sum terms ≡ (
    if none_negative terms && leb (total terms) size_max
    then ok (total terms)
    else err bad_array_new_length)
checked_sum_lem_example = checked_sum_lem terms
