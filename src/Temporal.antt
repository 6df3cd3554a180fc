-- ===== src/Temporal.antt =====
-- src/frontend/temporal.hpp: the frames of a clip around a center, for a temporal radius. The
-- arguments are int.
pub mod Window
use vapoursynth_nssfactory.Base.{ℕ, Bool, if◌then◌else◌, ℤ, pos, negsuc, ◌+ℤ◌, ◌-ℤ◌, ltb_ℤ}

-- std::min and std::clamp.
abbrev pub min_ℤ : ℤ → ℤ → ℤ
min_ℤ a b = if ltb_ℤ b a then b else a

abbrev pub clamp_ℤ : ℤ → ℤ → ℤ → ℤ
clamp_ℤ v lo hi = if ltb_ℤ v lo then lo else if ltb_ℤ hi v then hi else v

unfoldable pub temporal_first : ℤ → ℤ → ℤ
temporal_first center radius = center -ℤ min_ℤ center radius

unfoldable pub temporal_last : ℤ → ℤ → ℤ → ℤ
temporal_last center radius frames = center +ℤ min_ℤ radius (frames -ℤ pos 1 -ℤ center)

unfoldable pub temporal_slot_frame : ℤ → ℤ → ℤ → ℤ → ℤ
temporal_slot_frame center slot radius frames =
    center +ℤ clamp_ℤ (slot -ℤ radius) (pos 0 -ℤ center) (frames -ℤ pos 1 -ℤ center)
