-- ===== src/FrameMemory/Consistent.antt =====
-- A consistent state of the frame memory, and what the release hook does to it.
use vapoursynth_nssfactory.Base.{
  ℕ, ◌%◌, ◌^◌, ◌≤◌, ◌<◌, ◌≡◌, refl, sym, ap, ◌∙◌, Bool, List, Option, none, some, arith,
}
use mathlib.Core.Path.{subst}
use vapoursynth_nssfactory.FrameMemory.Blocks.{
  Block, reserved, locked_sum, copies, serving, Pin, lockings, without,
}
use vapoursynth_nssfactory.FrameMemory.Sweep.{
  NoneLocking, Unlocks, without-reserved, release_block-Unlocks, without-copies, without-serving,
  without-lockings, sweep-bytes, sweep-total, sweep-same,
}
use vapoursynth_nssfactory.FrameMemory.{State, CoreHook, of_base, on_release, release_block, sweep}
use vapoursynth_nssfactory.FrameMemory.World.{
  World, start_world, instances_of, instances_on, count_pin, pins_at,
}
use vapoursynth_nssfactory.FrameMemory.Effects.{NoneLocking-base}

abbrev pub hook_instances : Option CoreHook → ℕ
hook_instances none = 0
hook_instances (some hook) = hook.instances

abbrev pub HasInstances : Option CoreHook → Type 0
HasInstances none = Unit {0}
HasInstances (some hook) = 0 < hook.instances

-- The blocks, the locks and the threads that lock a block agree.
pub record IsCounted (s : State) (pins : List Pin) : Type 0 where
  -- A core's locked bytes are those of its blocks that are locked or being locked, within the cap.
  pub bytes : (c : ℕ) → (s.locks c).bytes ≡ reserved c s.blocks
  pub within : (c : ℕ) → (s.locks c).bytes ≤ (s.locks c).cap
  pub cap_fits : (c : ℕ) → (s.locks c).cap < 0x8000000000000000
  -- The statistics count the bytes of all locked blocks, as a std::size_t does.
  pub total : s.locked_bytes ≡ locked_sum s.blocks % 2 ^ 64
  -- No key is there twice, and each block that is being locked has one thread that does it.
  pub unique : (base domain : ℕ) → copies base domain s.blocks ≤ 1
  pub locking : (p : Pin) → lockings p s.blocks ≡ count_pin p pins

pub record IsAccounted (w : World) : Type 0 where
  pub counted : IsCounted w.state w.pins
  -- The maps count the instances, and no block is there without an instance that it serves.
  pub served : (c d : ℕ) → w.state.domains c d ≡ instances_of c d w.instances
  pub hooked : (c : ℕ) → hook_instances (w.state.cores c) ≡ instances_on c w.instances
  pub hooks : (c : ℕ) → HasInstances (w.state.cores c)
  pub idle : (c d : ℕ) → instances_of c d w.instances ≡ 0 → serving c d w.state.blocks ≡ 0

pub start-IsAccounted : IsAccounted start_world
start-IsAccounted = record {
  counted = record {
    bytes = λ c. refl;
    within = λ c. omega arith;
    cap_fits = λ c. omega arith;
    total = refl;
    unique = λ b d. omega arith;
    locking = λ p. refl;
  };
  served = λ c d. refl;
  hooked = λ c. refl;
  hooks = λ c. tt;
  idle = λ c d h. refl;
}

abbrev pub swept : (Block → Bool) → (State → Block → State) → State → State
swept test act s = record (sweep test act s s.blocks) { blocks = without test s.blocks }

-- A loop that unlocks and erases blocks, none of which is being locked.
pub sweep-IsCounted :
    (test : Block → Bool) (act : State → Block → State) (s : State) (pins : List Pin)
    → Unlocks act
    → NoneLocking test s.blocks
    → IsCounted s pins
    → IsCounted (swept test act s) pins
sweep-IsCounted test act s pins u n i =
    let after =
      sweep-bytes test u s.blocks s (λ _. 0) n (λ c. omega (arith, i.bytes c))
        (λ c. omega (arith, i.within c, i.cap_fits c)) in
    let total =
      sweep-total test u s.blocks s 0 n (omega (arith, i.total))
        (λ c. omega (arith, i.bytes c, i.within c, i.cap_fits c)) in
    let (cap, _, _) = sweep-same test u s.blocks s in
    record {
      bytes = λ c. omega (arith, after c);
      within = λ c.
          omega (arith, after c, cap c, without-reserved test c s.blocks, i.within c, i.bytes c);
      cap_fits = λ c. omega (arith, cap c, i.cap_fits c);
      total = omega (arith, total);
      unique = λ b d. omega (arith, i.unique b d, without-copies test b d s.blocks);
      locking = λ p. without-lockings test p s.blocks n ∙ i.locking p;
    }

module _ {w : World} (i : IsAccounted w) where
  pub on_release-IsAccounted :
      (base : ℕ)
      → pins_at base w.pins ≡ 0
      → IsAccounted (record w { state = on_release w.state base })
  unfolding on_release
  on_release-IsAccounted base h =
      let test = of_base base in
      let n = NoneLocking-base base w.state.blocks w.pins i.counted.locking h in
      let (_, domains, cores) = sweep-same test release_block-Unlocks w.state.blocks w.state in
      record {
        counted =
            sweep-IsCounted test release_block w.state w.pins release_block-Unlocks n i.counted;
        served = λ c d. ap (λ (f : ℕ → ℕ → ℕ). f c d) domains ∙ i.served c d;
        hooked = λ c. ap (λ (f : ℕ → Option CoreHook). hook_instances (f c)) cores ∙ i.hooked c;
        hooks =
            λ c. subst (λ (f : ℕ → Option CoreHook). HasInstances (f c)) (sym cores) (i.hooks c);
        idle = λ c d z. omega (arith, i.idle c d z, without-serving test c d w.state.blocks);
      }
