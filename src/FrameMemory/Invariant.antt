-- ===== src/FrameMemory/Invariant.antt =====
-- Every state that instances and threads bring the frame memory to is consistent.
use vapoursynth_nssfactory.Base.{
  ℕ, ◌≡◌, ap, refl, false, Option, arith, ℤ, pos, ltb_ℤ, none, some, inl, inr, Bool-cases,
}
use mathlib.Core.Path.{subst}
use vapoursynth_nssfactory.FrameMemory.Blocks.{reserved, serving}
use vapoursynth_nssfactory.FrameMemory.{State, CoreHook, attach, attach_at}
use vapoursynth_nssfactory.FrameMemory.World.{World, Step, Reach, instances_on, instances_of-le}
use vapoursynth_nssfactory.FrameMemory.Consistent.{
  IsAccounted, start-IsAccounted, on_release-IsAccounted,
}
use vapoursynth_nssfactory.FrameMemory.Instances.{attach-IsAccounted, detach-IsAccounted}
use vapoursynth_nssfactory.FrameMemory.Pins.{begin_pin-IsAccounted, end_pin-IsAccounted}
use vapoursynth_nssfactory.FrameMemory.Effects.{serving-reserved}

-- An instance that gets no hook changes nothing.
refused_same :
    (s : State) (core domain : ℕ) (id : ℤ) (cap : ℕ) (s' : State) (found : Option CoreHook)
    → attach_at s core domain id cap found ≡ (s', false)
    → s ≡ s'
unfolding attach_at
refused_same s core domain id cap s' (some hook) e = absurd (ground arith)
refused_same s core domain id cap s' none e = elim (Bool-cases (ltb_ℤ (pos 0) id)) [
  | inl positive ↦ absurd (ground arith)
  | inr refused ↦ ap (λ x. x.0) (rw refused at e)
]

Step-IsAccounted : {v w : World} → Step v w → IsAccounted v → IsAccounted w
unfolding attach
Step-IsAccounted {v} (Step.attaches core domain id cap s h e) i =
    attach-IsAccounted i core domain id cap s (v.state.cores core) refl h e
Step-IsAccounted {v} (Step.finds_no_hook core domain id cap s e) i =
    subst (λ x. IsAccounted (record v { state = x }))
      (refused_same v.state core domain id cap s (v.state.cores core) e) i
Step-IsAccounted (Step.detaches core domain h g) i = detach-IsAccounted i core domain h g
Step-IsAccounted (Step.begins p s found inst small own e) i =
    begin_pin-IsAccounted i p s found inst small own e
Step-IsAccounted (Step.ends p handle h) i = end_pin-IsAccounted i p handle h
Step-IsAccounted (Step.gives_back base h) i = on_release-IsAccounted i base h

-- In every state that instances and threads can reach, the locked bytes of each core are those of
-- its blocks that are locked or being locked, and within its cap; no block is in the map twice; the
-- blocks that are being locked are those of the threads that do it; the counts of instances are
-- right; and no block is there for a core and a domain without an instance.
pub Reach-IsAccounted : {w : World} → Reach w → IsAccounted w
Reach-IsAccounted Reach.here = start-IsAccounted
Reach-IsAccounted (Reach.next r st) = Step-IsAccounted st (Reach-IsAccounted r)

-- In every reachable state a core without an instance has no block in the map, and so none that is
-- locked.
pub no_leak :
    {w : World} (core : ℕ)
    → Reach w
    → instances_on core w.instances ≡ 0
    → ((domain : ℕ) → serving core domain w.state.blocks ≡ 0) × (reserved core w.state.blocks ≡ 0)
no_leak {w} core r h =
    let i = Reach-IsAccounted r in
    let bare : (domain : ℕ) → serving core domain w.state.blocks ≡ 0 =
      λ d. i.idle core d (omega (arith, h, instances_of-le core d w.instances)) in
    (bare, serving-reserved core w.state.blocks bare)
