-- ===== src/Temporal/Window.antt =====
-- The frames of a window are frames of the clip.
use vapoursynth_nssfactory.Base.{ℕ, ◌+◌, ◌-◌, ◌<◌, ◌≡◌, ◌*◌, min, arith, pos, ◌+ℤ◌, ◌-ℤ◌}
use vapoursynth_nssfactory.Temporal.{temporal_first, temporal_last, temporal_slot_frame}

-- For a center in the clip and every radius of at least 0, the window starts at the frame
-- `center - radius` or at the first of the clip, and ends at `center + radius` or at the last of the
-- clip.
pub temporal_window :
    (center radius frames : ℕ)
    → center < frames
    → (temporal_first (pos center) (pos radius) ≡ pos (center - radius))
      × (temporal_last (pos center) (pos radius) (pos frames)
          ≡ pos (min (center + radius) (frames - 1)))
unfolding temporal_first temporal_last ◌+ℤ◌ ◌-ℤ◌
temporal_window center radius frames h = (ground arith, ground arith)

-- Slot `radius` of a window is its center, the first and the last slot are the first and the last
-- frame of the window, and each slot is the frame `center + slot - radius`, or the first or the last
-- frame of the clip where that is outside of it.
pub temporal_slots :
    (center radius frames slot : ℕ)
    → center < frames
    → (temporal_slot_frame (pos center) (pos slot) (pos radius) (pos frames)
        ≡ pos (min (center + slot - radius) (frames - 1)))
      × (temporal_slot_frame (pos center) (pos radius) (pos radius) (pos frames) ≡ pos center)
      × (temporal_slot_frame (pos center) (pos 0) (pos radius) (pos frames)
          ≡ temporal_first (pos center) (pos radius))
      × (temporal_slot_frame (pos center) (pos (2 * radius)) (pos radius) (pos frames)
          ≡ temporal_last (pos center) (pos radius) (pos frames))
unfolding temporal_first temporal_last temporal_slot_frame ◌+ℤ◌ ◌-ℤ◌
temporal_slots center radius frames slot h =
    (ground arith, ground arith, ground arith, ground arith)
