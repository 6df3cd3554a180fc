-- ===== src/FrameMemory/Laws.antt =====
-- What `pinned` does with one block, use after use.
use vapoursynth_nssfactory.Base.{ℕ, ◌+◌, ◌≤◌, ◌<◌, ◌≡◌, refl, Option, none, some, arith}
use vapoursynth_nssfactory.FrameMemory.Blocks.{find, put}
use vapoursynth_nssfactory.FrameMemory.{State, Use, begin_pin, begin_at, use_block, end_pin}

module _ (s : State) (core domain base size : ℕ) where
  abbrev pub once : State
  once = (begin_pin s core domain base size).0

  abbrev pub twice : State
  twice = (begin_pin once core domain base size).0

  abbrev pub thrice : Option ℕ → State
  thrice handle = end_pin twice core domain base size handle

  -- A block that is not in the map is staged at its first use. At the second one, if the core stays
  -- within its cap, which is below 2 ^ 63, it is locked. If that succeeds, the third use has the handle of the lock; if not,
  -- the block is staged.
  pub pinned_uses :
      (handle : ℕ)
      → find base domain s.blocks ≡ none
      → (s.locks core).bytes + size ≤ (s.locks core).cap
      → (s.locks core).cap < 0x8000000000000000
      → ((begin_pin s core domain base size).1 ≡ Use.staged)
        × ((begin_pin once core domain base size).1 ≡ Use.locks_it)
        × ((begin_pin (thrice (some handle)) core domain base size).1 ≡ Use.direct (some handle))
        × ((begin_pin (thrice none) core domain base size).1 ≡ Use.staged)
  unfolding begin_pin begin_at use_block end_pin find put
  pinned_uses handle e h k = rw e (refl, ground arith, ground arith, ground arith)
