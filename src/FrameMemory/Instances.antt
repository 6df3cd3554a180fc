-- ===== src/FrameMemory/Instances.antt =====
-- Instances that attach to a core and detach from it.
use vapoursynth_nssfactory.Base.{
  ℕ, ◌-◌, ◌≤◌, ◌<◌, ◌≡◌, refl, sym, ap, ◌∙◌, inl, inr, true, ◌∷◌, Option, none, some, ◌==◌, ltb,
  arith, Bool-cases, ℤ, pos, ltb_ℤ,
}
use mathlib.Core.Path.{subst}
use vapoursynth_nssfactory.FrameMemory.Blocks.{reserved, serving}
use vapoursynth_nssfactory.FrameMemory.Sweep.{
  unlock_block-Unlocks, without-serving, without-domain, sweep-same,
}
use vapoursynth_nssfactory.FrameMemory.{
  State, CoreHook, CoreLocks, no_locks, at, at₂, of_domain, count_instance, attach_at, drop_domain,
  drop_core, detach, unlock_block,
}
use vapoursynth_nssfactory.FrameMemory.World.{
  World, instances_of, instances_on, pins_of, remove_instance, count-remove_instance,
  on-remove_instance, instances_of-le,
}
use vapoursynth_nssfactory.FrameMemory.Effects.{NoneLocking-domain, serving-reserved}
use vapoursynth_nssfactory.FrameMemory.Consistent.{
  hook_instances, HasInstances, IsCounted, IsAccounted, swept, sweep-IsCounted,
}

module _ {w : World} (i : IsAccounted w) where
  -- Without an instance a core has no block.
  unserved : (c : ℕ) → instances_on c w.instances ≡ 0 → reserved c w.state.blocks ≡ 0
  unserved c z =
      serving-reserved c w.state.blocks
        (λ d. i.idle c d (omega (arith, instances_of-le c d w.instances)))

  count_instance-IsAccounted :
      (core domain : ℕ) (hook : CoreHook) (locks : ℕ → CoreLocks)
      → hook.instances ≡ instances_on core w.instances
      → IsCounted (record w.state { locks = locks }) w.pins
      → IsAccounted (record w {
        state = count_instance (record w.state { locks = locks }) core domain hook;
        instances = record { core = core; domain = domain } ∷ w.instances;
      })
  unfolding count_instance
  count_instance-IsAccounted core domain hook locks h k = record {
    counted = record {
      bytes = k.bytes;
      within = k.within;
      cap_fits = k.cap_fits;
      total = k.total;
      unique = k.unique;
      locking = k.locking;
    };
    served = λ c d. ground (arith, i.served c d);
    hooked = λ c. ground (arith, i.hooked c);
    hooks = λ c. ground (arith, i.hooks c);
    idle = λ c d z. ground (arith, i.idle c d);
  }

  fresh-IsCounted :
      (core cap : ℕ)
      → instances_on core w.instances ≡ 0
      → cap < 0x8000000000000000
      → IsCounted
          (record w.state { locks = at w.state.locks core (record { cap = cap; bytes = 0 }) })
          w.pins
  fresh-IsCounted core cap z h =
      let k = i.counted in
      record {
        bytes = λ c. ground (arith, k.bytes c, unserved core z);
        within = λ c. ground (arith, k.within c);
        cap_fits = λ c. ground (arith, k.cap_fits c);
        total = k.total;
        unique = k.unique;
        locking = k.locking;
      }

  pub attach-IsAccounted :
      (core domain : ℕ) (id : ℤ) (cap : ℕ) (s : State) (found : Option CoreHook)
      → w.state.cores core ≡ found
      → cap < 0x8000000000000000
      → attach_at w.state core domain id cap found ≡ (s, true)
      → IsAccounted (record w {
        state = s;
        instances = record { core = core; domain = domain } ∷ w.instances;
      })
  unfolding attach_at
  attach-IsAccounted core domain id cap s (some hook) f h e =
      let same : count_instance w.state core domain hook ≡ s = ap (λ x. x.0) e in
      subst
        (λ x. IsAccounted (record w {
          state = x;
          instances = record { core = core; domain = domain } ∷ w.instances;
        }))
        same
        (count_instance-IsAccounted core domain hook w.state.locks
          (omega (arith, i.hooked core, ap hook_instances f)) i.counted)
  attach-IsAccounted core domain id cap s none f h e = elim (Bool-cases (ltb_ℤ (pos 0) id)) [
    | inl positive ↦
        let same : fresh ≡ s = ap (λ x. x.0) (rw positive at e) in
        subst
          (λ x. IsAccounted (record w {
            state = x;
            instances = record { core = core; domain = domain } ∷ w.instances;
          }))
          same
          (count_instance-IsAccounted core domain (record { id = id; instances = 0 })
            (at w.state.locks core (record { cap = cap; bytes = 0 })) (omega (arith, empty))
            (fresh-IsCounted core cap empty h))
    | inr refused ↦ absurd (ground arith)
  ]
    where
      empty : instances_on core w.instances ≡ 0
      empty = omega (arith, i.hooked core, ap hook_instances f)

      fresh : State
      fresh =
          count_instance
            (record w.state { locks = at w.state.locks core (record { cap = cap; bytes = 0 }) })
            core domain (record { id = id; instances = 0 })

-- An instance less of a domain.
one_less : State → ℕ → ℕ → State
one_less s core domain = record s {
  domains = at₂ s.domains core domain (s.domains core domain - 1);
}

drop_domain-last :
    (s : State) (core domain : ℕ)
    → s.domains core domain - 1 ≡ 0
    → drop_domain s core domain
      ≡ swept (of_domain core domain) unlock_block (one_less s core domain)
unfolding drop_domain one_less
drop_domain-last s core domain h = ground arith

drop_domain-more :
    (s : State) (core domain : ℕ)
    → 0 < s.domains core domain - 1
    → drop_domain s core domain ≡ one_less s core domain
unfolding drop_domain one_less
drop_domain-more s core domain h = ground arith

-- What `drop_domain` leaves.
record IsDropped (w : World) (core domain : ℕ) (s : State) : Type 0 where
  counted : IsCounted s w.pins
  served : (c d : ℕ) → s.domains c d ≡ instances_of c d (remove_instance core domain w.instances)
  cores : s.cores ≡ w.state.cores
  idle :
      (c d : ℕ)
      → instances_of c d (remove_instance core domain w.instances) ≡ 0
      → serving c d s.blocks ≡ 0

module _ {w : World} (i : IsAccounted w) (core domain : ℕ)
    (h : 0 < instances_of core domain w.instances) where
  one_less-IsCounted : IsCounted (one_less w.state core domain) w.pins
  unfolding one_less
  one_less-IsCounted =
      let k = i.counted in
      record {
        bytes = k.bytes;
        within = k.within;
        cap_fits = k.cap_fits;
        total = k.total;
        unique = k.unique;
        locking = k.locking;
      }

  one_less-served :
      (c d : ℕ)
      → (one_less w.state core domain).domains c d
        ≡ instances_of c d (remove_instance core domain w.instances)
  unfolding one_less
  one_less-served c d = ground (
    arith,
    i.served c d,
    i.served core domain,
    count-remove_instance core domain c d w.instances h,
  )

  one_less-IsDropped :
      1 < instances_of core domain w.instances
      → IsDropped w core domain (one_less w.state core domain)
  unfolding one_less
  one_less-IsDropped more = record {
    counted = one_less-IsCounted;
    served = one_less-served;
    cores = refl;
    idle = λ c d z. ground (arith, i.idle c d, count-remove_instance core domain c d w.instances h);
  }

  swept-IsDropped :
      pins_of core domain w.pins ≡ 0
      → IsDropped w core domain
          (swept (of_domain core domain) unlock_block (one_less w.state core domain))
  unfolding one_less
  swept-IsDropped none_pinned =
      let test = of_domain core domain in
      let blocks = w.state.blocks in
      let left = one_less w.state core domain in
      let n = NoneLocking-domain core domain blocks w.pins i.counted.locking none_pinned in
      let (_, domains, cores) = sweep-same test unlock_block-Unlocks blocks left in
      record {
        counted =
            sweep-IsCounted test unlock_block left w.pins unlock_block-Unlocks n one_less-IsCounted;
        served = λ c d. ap (λ (f : ℕ → ℕ → ℕ). f c d) domains ∙ one_less-served c d;
        cores = cores;
        idle = λ c d z. ground (
          arith,
          i.idle c d,
          count-remove_instance core domain c d w.instances h,
          without-serving test c d blocks,
          without-domain core domain blocks,
        );
      }

  drop_domain-IsDropped :
      (instances_of core domain w.instances ≡ 1 → pins_of core domain w.pins ≡ 0)
      → IsDropped w core domain (drop_domain w.state core domain)
  drop_domain-IsDropped g =
      let count = i.served core domain in
      elim (Bool-cases (w.state.domains core domain - 1 == 0)) [
        | inl last ↦
            subst (IsDropped w core domain)
              (sym (drop_domain-last w.state core domain (ground arith)))
              (swept-IsDropped (g (ground arith)))
        | inr more ↦
            subst (IsDropped w core domain)
              (sym (drop_domain-more w.state core domain (ground arith)))
              (one_less-IsDropped (ground arith))
      ]

  module _ (s : State) (hook : CoreHook) (f : w.state.cores core ≡ some hook)
      (d : IsDropped w core domain s) where
    abbrev one_left : State
    one_left = record s {
      cores = at s.cores core (some (record hook { instances = hook.instances - 1 }));
    }

    abbrev none_left : State
    none_left = record s { cores = at s.cores core none; locks = at s.locks core no_locks }

    hooks_at : (c : ℕ) → hook_instances (s.cores c) ≡ instances_on c w.instances
    hooks_at c = ap (λ (g : ℕ → Option CoreHook). hook_instances (g c)) d.cores ∙ i.hooked c

    has_hooks : (c : ℕ) → HasInstances (s.cores c)
    has_hooks c = subst (λ (g : ℕ → Option CoreHook). HasInstances (g c)) (sym d.cores) (i.hooks c)

    hook_count : hook.instances ≡ instances_on core w.instances
    hook_count = omega (arith, i.hooked core, ap hook_instances f)

    one_left-IsAccounted :
        1 < hook.instances
        → IsAccounted
            (record w { state = one_left; instances = remove_instance core domain w.instances })
    one_left-IsAccounted more =
        let k = d.counted in
        record {
          counted = record {
            bytes = k.bytes;
            within = k.within;
            cap_fits = k.cap_fits;
            total = k.total;
            unique = k.unique;
            locking = k.locking;
          };
          served = d.served;
          hooked = λ c.
              ground
                (arith, hooks_at c, hook_count, on-remove_instance core domain c w.instances h);
          hooks = λ c. ground (arith, has_hooks c);
          idle = d.idle;
        }

    none_left-IsAccounted :
        hook.instances ≤ 1
        → IsAccounted
            (record w { state = none_left; instances = remove_instance core domain w.instances })
    none_left-IsAccounted last =
        let k = d.counted in
        let empty : instances_on core (remove_instance core domain w.instances) ≡ 0 =
          ground (arith, hook_count, on-remove_instance core domain core w.instances h) in
        let bare : reserved core s.blocks ≡ 0 = serving-reserved core s.blocks (λ x. d.idle core x (
          omega
            (arith, empty, instances_of-le core x (remove_instance core domain w.instances)))) in
        record {
          counted = record {
            bytes = λ c. ground (arith, k.bytes c, bare);
            within = λ c. ground (arith, k.within c);
            cap_fits = λ c. ground (arith, k.cap_fits c);
            total = k.total;
            unique = k.unique;
            locking = k.locking;
          };
          served = d.served;
          hooked = λ c. ground (
            arith,
            hooks_at c,
            hook_count,
            empty,
            on-remove_instance core domain c w.instances h,
          );
          hooks = λ c. ground (arith, has_hooks c);
          idle = d.idle;
        }

  drop_core-IsAccounted :
      (s : State) (found : Option CoreHook)
      → w.state.cores core ≡ found
      → IsDropped w core domain s
      → IsAccounted (record w {
        state = drop_core s core found;
        instances = remove_instance core domain w.instances;
      })
  unfolding drop_core
  drop_core-IsAccounted s none f d = absurd (
      omega (arith, i.hooked core, ap hook_instances f, h, instances_of-le core domain w.instances))
  drop_core-IsAccounted s (some hook) f d = elim (Bool-cases (ltb 1 hook.instances)) [
    | inl more ↦ rw more (one_left-IsAccounted s hook f d (ground arith))
    | inr last ↦ rw last (none_left-IsAccounted s hook f d (ground arith))
  ]

  pub detach-IsAccounted :
      (instances_of core domain w.instances ≡ 1 → pins_of core domain w.pins ≡ 0)
      → IsAccounted (record w {
        state = detach w.state core domain;
        instances = remove_instance core domain w.instances;
      })
  unfolding detach
  detach-IsAccounted g =
      let d = drop_domain-IsDropped g in
      drop_core-IsAccounted (drop_domain w.state core domain)
        ((drop_domain w.state core domain).cores core)
        (ap (λ (f : ℕ → Option CoreHook). f core) (sym d.cores)) d
