-- ===== src/WindowCache/Wanted.antt =====
-- The frames that a window wants: each once, and those of all its slots.
use vapoursynth_nssfactory.Base.{
  ℕ, zero, suc, ◌+◌, ◌-◌, ◌*◌, ◌≤◌, ◌<◌, ◌≡◌, refl, ◌∙◌, inl, inr, true, false, ◌||◌, ℤ, pos, eq_ℤ,
  eq_ℤ-refl, eq_ℤ_comm, List, [], ◌∷◌, ◌++◌, arith, Bool-cases, dec_lt, min,
}
use mathlib.Core.Path.{subst}
use vapoursynth_nssfactory.Temporal.Window.{temporal_slots}
use vapoursynth_nssfactory.WindowCache.{has_number, wanted_loop, wanted_frames, slot_frame}
use vapoursynth_nssfactory.WindowCache.Loop.{AreDistinct}

has_number-append :
    (v w : ℤ) (vs : List ℤ) → has_number v (vs ++ w ∷ []) ≡ (has_number v vs || eq_ℤ w v)
has_number-append v w [] = ground arith
has_number-append v w (x ∷ vs) = ground (arith, has_number-append v w vs)

AreDistinct-append :
    (w : ℤ) (vs : List ℤ) → has_number w vs ≡ false → AreDistinct vs → AreDistinct (vs ++ w ∷ [])
AreDistinct-append w [] new d = (refl, tt)
AreDistinct-append w (v ∷ vs) new (here, d) = (
  has_number-append v w vs ∙ ground (arith, eq_ℤ_comm v w),
  AreDistinct-append w vs (ground arith) d,
)

-- Every number is that of a frame of the clip.
abbrev pub AreFrames : List ℤ → Type 0
AreFrames [] = Unit
AreFrames (v ∷ vs) = ((m : ℕ) × (v ≡ pos m)) × AreFrames vs

AreFrames-append :
    (w : ℤ) (vs : List ℤ) (m : ℕ) → w ≡ pos m → AreFrames vs → AreFrames (vs ++ w ∷ [])
AreFrames-append w [] m e h = ((m, e), tt)
AreFrames-append w (v ∷ vs) m e (here, h) = (here, AreFrames-append w vs m e h)

module _ (frame : ℕ → ℤ) where
  wanted_loop-AreDistinct :
      (count t : ℕ) (wanted : List ℤ)
      → AreDistinct wanted
      → AreDistinct (wanted_loop frame count t wanted)
  unfolding wanted_loop
  wanted_loop-AreDistinct zero t wanted d = d
  wanted_loop-AreDistinct (suc count) t wanted d = elim (Bool-cases (has_number (frame t) wanted)) [
    | inl old ↦ rw old (wanted_loop-AreDistinct count (suc t) wanted d)
    | inr new ↦ rw new (
        wanted_loop-AreDistinct count (suc t) (wanted ++ frame t ∷ [])
          (AreDistinct-append (frame t) wanted new d))
  ]

  wanted_loop-AreFrames :
      (count t : ℕ) (wanted : List ℤ)
      → ((s : ℕ) → (m : ℕ) × (frame s ≡ pos m))
      → AreFrames wanted
      → AreFrames (wanted_loop frame count t wanted)
  unfolding wanted_loop
  wanted_loop-AreFrames zero t wanted f h = h
  wanted_loop-AreFrames (suc count) t wanted f h = elim (Bool-cases (has_number (frame t) wanted)) [
    | inl old ↦ rw old (wanted_loop-AreFrames count (suc t) wanted f h)
    | inr new ↦
        let (m, e) = f t in
        rw new (
          wanted_loop-AreFrames count (suc t) (wanted ++ frame t ∷ []) f
            (AreFrames-append (frame t) wanted m e h))
  ]

  wanted_loop-keeps :
      (count t : ℕ) (wanted : List ℤ) (v : ℤ)
      → has_number v wanted ≡ true
      → has_number v (wanted_loop frame count t wanted) ≡ true
  unfolding wanted_loop
  wanted_loop-keeps zero t wanted v h = h
  wanted_loop-keeps (suc count) t wanted v h = elim (Bool-cases (has_number (frame t) wanted)) [
    | inl old ↦ rw old (wanted_loop-keeps count (suc t) wanted v h)
    | inr new ↦ rw new (
        wanted_loop-keeps count (suc t) (wanted ++ frame t ∷ []) v
          (has_number-append v (frame t) wanted ∙ ground arith))
  ]

  wanted_loop-has :
      (count t s : ℕ) (wanted : List ℤ)
      → t ≤ s
      → s < t + count
      → has_number (frame s) (wanted_loop frame count t wanted) ≡ true
  unfolding wanted_loop
  wanted_loop-has zero t s wanted l u = absurd (omega arith)
  wanted_loop-has (suc count) t s wanted l u = elim (dec_lt t s) [
    | yes later ↦ wanted_loop-has count (suc t) s _ (omega arith) (omega arith)
    | no same ↦
        let e : t ≡ s = omega arith in
        subst (λ k. has_number (frame k) (wanted_loop frame (suc count) t wanted) ≡ true) e
          (elim (Bool-cases (has_number (frame t) wanted)) [
            | inl old ↦ rw old (wanted_loop-keeps count (suc t) wanted (frame t) old)
            | inr new ↦ rw new (
                wanted_loop-keeps count (suc t) (wanted ++ frame t ∷ []) (frame t) (
                  has_number-append (frame t) (frame t) wanted
                  ∙ ground (arith, eq_ℤ-refl (frame t))))
          ])
  ]

module _ (center radius clip_frames : ℕ) where
  pub wanted_frames-AreDistinct : AreDistinct (wanted_frames center radius clip_frames)
  unfolding wanted_frames
  wanted_frames-AreDistinct =
      wanted_loop-AreDistinct (slot_frame center radius clip_frames) (2 * radius + 1) 0 [] tt

  pub wanted_frames-AreFrames :
      center < clip_frames → AreFrames (wanted_frames center radius clip_frames)
  unfolding wanted_frames
  wanted_frames-AreFrames inside =
      wanted_loop-AreFrames (slot_frame center radius clip_frames) (2 * radius + 1) 0 []
        (λ s. (
          min (center + s - radius) (clip_frames - 1),
          (temporal_slots center radius clip_frames s inside).0,
        ))
        tt

  pub wanted_frames-has :
      (t : ℕ)
      → t < 2 * radius + 1
      → has_number
          (slot_frame center radius clip_frames t)
          (wanted_frames center radius clip_frames)
        ≡ true
  unfolding wanted_frames
  wanted_frames-has t h =
      wanted_loop-has (slot_frame center radius clip_frames) (2 * radius + 1) 0 t [] (omega arith)
        (omega arith)
