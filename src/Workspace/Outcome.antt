-- ===== src/Workspace/Outcome.antt =====
-- What a call of get gives, and what it leaves as it was.
use vapoursynth_nssfactory.Base.{
  ℕ, ◌*◌, ◌≤◌, ◌<◌, ◌≡◌, ◌⊎◌, false, ◌==◌, max, Option, none, some, Result, ok, err, bad_alloc,
  bad_array_new_length,
}
use vapoursynth_nssfactory.Checked.{size_max}
use vapoursynth_nssfactory.Resources.{Charged}
use vapoursynth_nssfactory.Workspace.{
  AlignedBlock, Buffer, Workspace, buffer_at, usable, acquire_for,
}

-- The buffer of the caller: where a block is returned, it is the buffer's and has room for the floats; where
-- not, the buffer is the old one.
abbrev pub Gives : ℕ → Result AlignedBlock → Buffer → Buffer → Type 0
Gives floats (ok block) before after =
    (usable after floats ≡ some block) × (floats * 4 ≤ block.size) × (64 ≤ block.size)
Gives floats (err e) before after = after ≡ before

-- Why a call throws: the bytes are no std::size_t, the account refuses them, or there is no memory.
abbrev pub IsDue : ℕ → Option ℕ → Option Charged → Result AlignedBlock → Type 0
IsDue floats address account (ok block) = Unit
IsDue floats address account (err e) =
    ((size_max < floats * 4) × (e ≡ bad_array_new_length))
    ⊎ ((acquire_for (max 64 (floats * 4)) account ≡ err e) ⊎ ((address ≡ none) × (e ≡ bad_alloc)))

pub record Outcome (key floats : ℕ) (address : Option ℕ) (w : Workspace)
    (result : Workspace × Result AlignedBlock) : Type 0 where
  pub own : Gives floats result.1 (buffer_at key w.map) (buffer_at key result.0.map)
  pub others :
      (other : ℕ) → (other == key) ≡ false → buffer_at other result.0.map ≡ buffer_at other w.map
  pub due : IsDue floats address w.account result.1
