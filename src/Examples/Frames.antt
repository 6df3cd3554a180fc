-- ===== src/Examples/Frames.antt =====
-- One instance on core 1, which locks a block of 64 bytes at its second use.
use vapoursynth_nssfactory.Base.{ℕ, ◌+◌, ◌≤◌, ◌<◌, ◌≡◌, refl, arith, [], ◌∷◌, none, some, pos}
use vapoursynth_nssfactory.FrameMemory.Blocks.{Pin, find, reserved, serving}
use vapoursynth_nssfactory.FrameMemory.{
  start_state, attach, attach_at, count_instance, Use, begin_pin, begin_at, use_block, end_pin,
  detach,
}
use vapoursynth_nssfactory.FrameMemory.World.{
  World, Step, Reach, remove_pin, remove_instance, instances_on,
}
use vapoursynth_nssfactory.FrameMemory.Consistent.{IsAccounted}
use vapoursynth_nssfactory.FrameMemory.Invariant.{Reach-IsAccounted, no_leak}
use vapoursynth_nssfactory.FrameMemory.Laws.{once, thrice, pinned_uses}

abbrev pin : Pin
pin = record { core = 1; domain = 0; base = 4096; size = 64 }

abbrev attached : World
attached = record {
  state = (attach start_state 1 0 (pos 5) 100).0;
  instances = record { core = 1; domain = 0 } ∷ [];
  pins = [];
}

abbrev seen : World
seen = record attached { state = (begin_pin attached.state 1 0 4096 64).0 }

abbrev locking : World
locking = record seen { state = (begin_pin seen.state 1 0 4096 64).0; pins = pin ∷ [] }

abbrev locked : World
locked = record locking {
  state = end_pin locking.state 1 0 4096 64 (some 7);
  pins = remove_pin pin (pin ∷ []);
}

abbrev detached : World
detached = record locked {
  state = detach locked.state 1 0;
  instances = remove_instance 1 0 locked.instances;
}

attached-Reach : Reach attached
unfolding attach attach_at
attached-Reach = Reach.next Reach.here (Step.attaches 1 0 (pos 5) 100 _ (omega arith) refl)

seen-Reach : Reach seen
unfolding attach attach_at count_instance begin_pin begin_at find
seen-Reach =
    Reach.next attached-Reach
      (Step.begins pin _ Use.staged (omega arith) (omega arith) (λ b e. absurd (ground arith)) refl)

locking-Reach : Reach locking
unfolding attach attach_at count_instance begin_pin begin_at find use_block
locking-Reach =
    Reach.next seen-Reach
      (Step.begins pin _ Use.locks_it (omega arith) (omega arith) (λ b e. ground arith) refl)

locked-Reach : Reach locked
locked-Reach = Reach.next locking-Reach (Step.ends pin (some 7) (omega arith))

detached-Reach : Reach detached
unfolding remove_pin
detached-Reach = Reach.next locked-Reach (Step.detaches 1 0 (omega arith) (λ e. refl))

Reach-IsAccounted_example : IsAccounted locked
Reach-IsAccounted_example = Reach-IsAccounted locked-Reach

none_left : instances_on 1 detached.instances ≡ 0
unfolding remove_instance
none_left = refl

no_leak_example :
    ((domain : ℕ) → serving 1 domain detached.state.blocks ≡ 0)
    × (reserved 1 detached.state.blocks ≡ 0)
no_leak_example = no_leak 1 detached-Reach none_left

unknown : find 4096 0 attached.state.blocks ≡ none
unfolding attach attach_at count_instance find
unknown = refl

below_cap : (attached.state.locks 1).bytes + 64 ≤ (attached.state.locks 1).cap
unfolding attach attach_at count_instance
below_cap = omega arith

small_cap : (attached.state.locks 1).cap < 0x8000000000000000
unfolding attach attach_at count_instance
small_cap = omega arith

pinned_uses_example :
    ((begin_pin attached.state 1 0 4096 64).1 ≡ Use.staged)
    × ((begin_pin (once attached.state 1 0 4096 64) 1 0 4096 64).1 ≡ Use.locks_it)
    × ((begin_pin (thrice attached.state 1 0 4096 64 (some 7)) 1 0 4096 64).1 ≡ Use.direct (some 7))
    × ((begin_pin (thrice attached.state 1 0 4096 64 none) 1 0 4096 64).1 ≡ Use.staged)
pinned_uses_example = pinned_uses attached.state 1 0 4096 64 7 unknown below_cap small_cap
