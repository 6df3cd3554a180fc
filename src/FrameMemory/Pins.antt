-- ===== src/FrameMemory/Pins.antt =====
-- Threads that use a block.
use vapoursynth_nssfactory.Base.{
  ℕ, ◌+◌, ◌-◌, ◌≤◌, ◌<◌, ◌≡◌, refl, sym, ap, ◌∙◌, inl, inr, true, ◌&&◌, ◌||◌, not, List, ◌∷◌,
  Option, none, some, ◌==◌, ltb, arith, Bool-cases,
}
use mathlib.Core.Path.{subst}
use vapoursynth_nssfactory.Resources.{plus, minus}
use vapoursynth_nssfactory.FrameMemory.Blocks.{
  BlockState, Block, is_locked, is_seen, copies, serving, Pin, is_pin, find, put, find-none,
  find-key, find-reserved, put-copies, put-serving, put-reserved, put-locked_sum, put-lockings,
}
use vapoursynth_nssfactory.FrameMemory.{
  State, CoreHook, set_bytes, Use, begin_at, use_block, begin_pin, end_pin,
}
use vapoursynth_nssfactory.FrameMemory.World.{
  World, instances_of, count_pin, pins_after, remove_pin, count-remove_pin,
}
use vapoursynth_nssfactory.FrameMemory.Effects.{lockings-find}
use vapoursynth_nssfactory.FrameMemory.Consistent.{
  IsCounted, IsAccounted, hook_instances, HasInstances,
}

module _ {w : World} (i : IsAccounted w) (p : Pin) where
  -- A state with the same maps of instances, whose blocks serve what the blocks served.
  repin :
      (s : State) (pins : List Pin)
      → IsCounted s pins
      → s.domains ≡ w.state.domains
      → s.cores ≡ w.state.cores
      → ((c d : ℕ) → instances_of c d w.instances ≡ 0 → serving c d s.blocks ≡ 0)
      → IsAccounted (record w { state = s; pins = pins })
  repin s pins k d c f = record {
    counted = k;
    served = λ x y. ap (λ (g : ℕ → ℕ → ℕ). g x y) d ∙ i.served x y;
    hooked = λ x. ap (λ (g : ℕ → Option CoreHook). hook_instances (g x)) c ∙ i.hooked x;
    hooks = λ x. subst (λ (g : ℕ → Option CoreHook). HasInstances (g x)) (sym c) (i.hooks x);
    idle = f;
  }

  abbrev fresh : Block
  fresh = record {
    base = p.base;
    domain = p.domain;
    size = p.size;
    core = p.core;
    state = BlockState.seen;
    handle = none;
  }

  first-IsCounted :
      copies p.base p.domain w.state.blocks ≡ 0
      → IsCounted
          (record w.state { first = w.state.first + 1; blocks = fresh ∷ w.state.blocks })
          w.pins
  first-IsCounted absent =
      let k = i.counted in
      record {
        bytes = λ c. ground (arith, k.bytes c);
        within = k.within;
        cap_fits = k.cap_fits;
        total = omega (arith, k.total);
        unique = λ x y. ground (arith, k.unique x y, absent);
        locking = λ q. ground (arith, k.locking q);
      }

  quiet :
      (hits misses capped : ℕ)
      → IsAccounted
          (record w { state = record w.state { hits = hits; misses = misses; capped = capped } })
  quiet hits misses capped =
      let k = i.counted in
      repin (record w.state { hits = hits; misses = misses; capped = capped }) w.pins
        (record {
          bytes = k.bytes;
          within = k.within;
          cap_fits = k.cap_fits;
          total = k.total;
          unique = k.unique;
          locking = k.locking;
        })
        refl refl i.idle

  module _ (b : Block) (f : find p.base p.domain w.state.blocks ≡ some b) (own : b.core ≡ p.core)
      (small : p.size < 0x4000000000000000) where
    abbrev blocks_with : BlockState → Option ℕ → List Block
    blocks_with state handle = put p.base p.domain state handle w.state.blocks

    abbrev reserving : State
    reserving =
        set_bytes (record w.state { blocks = blocks_with BlockState.locking b.handle }) p.core
          (plus (w.state.locks p.core).bytes p.size)

    reserving-IsCounted :
        is_seen b.state ≡ true
        → b.size ≡ p.size
        → plus (w.state.locks p.core).bytes p.size ≤ (w.state.locks p.core).cap
        → IsCounted reserving (p ∷ w.pins)
    reserving-IsCounted unlocked same room =
        let k = i.counted in
        let st = BlockState.locking in
        let bs = w.state.blocks in
        let exact : plus (w.state.locks p.core).bytes p.size
            ≡ (w.state.locks p.core).bytes + p.size =
          omega (arith, k.within p.core, k.cap_fits p.core) in
        let (kb, kd) = find-key p.base p.domain bs b f in
        record {
          bytes = λ c. ground (
            arith,
            k.bytes c,
            k.bytes p.core,
            exact,
            put-reserved p.base p.domain st b.handle b bs c f,
          );
          within = λ c. ground (arith, k.within c, room);
          cap_fits = λ c. ground (arith, k.cap_fits c);
          total = ground (arith, k.total, put-locked_sum p.base p.domain st b.handle b bs f);
          unique =
              λ x y. omega (arith, k.unique x y, put-copies p.base p.domain st b.handle b bs x y f);
          locking =
              λ q. ground (arith, k.locking q, put-lockings p.base p.domain st b.handle b bs q f);
        }

    reserving-IsAccounted :
        is_seen b.state ≡ true
        → b.size ≡ p.size
        → plus (w.state.locks p.core).bytes p.size ≤ (w.state.locks p.core).cap
        → IsAccounted (record w { state = reserving; pins = p ∷ w.pins })
    reserving-IsAccounted unlocked same room =
        repin reserving (p ∷ w.pins) (reserving-IsCounted unlocked same room) refl refl (λ c d z.
          put-serving p.base p.domain BlockState.locking b.handle b w.state.blocks c d f
          ∙ i.idle c d z)

  -- The world after the first critical section.
  abbrev after : State × Use → World
  after (s, found) = record w { state = s; pins = pins_after found p w.pins }

  use_block-IsAccounted :
      (b : Block)
      → find p.base p.domain w.state.blocks ≡ some b
      → b.core ≡ p.core
      → p.size < 0x4000000000000000
      → IsAccounted (after (use_block w.state p.core p.domain p.base p.size b))
  unfolding use_block
  use_block-IsAccounted b f own small =
      elim (Bool-cases (not (is_seen b.state) || not (b.size == p.size))) [
        | inl busy ↦ elim (Bool-cases (is_locked b.state && (b.size == p.size))) [
          | inl hit ↦ rw (busy, hit) (quiet (w.state.hits + 1) w.state.misses w.state.capped)
          | inr miss ↦ rw (busy, miss) (quiet w.state.hits (w.state.misses + 1) w.state.capped)
        ]
        | inr free ↦
            elim (Bool-cases
              (ltb (w.state.locks p.core).cap (plus (w.state.locks p.core).bytes p.size))) [
                | inl over ↦
                    rw (free, over) (quiet w.state.hits w.state.misses (w.state.capped + 1))
                | inr room ↦
                    rw (free, room)
                      (reserving-IsAccounted b f own small (ground arith) (ground arith)
                        (ground arith))
              ]
      ]

  begin_at-IsAccounted :
      (found : Option Block)
      → find p.base p.domain w.state.blocks ≡ found
      → ((b : Block) → found ≡ some b → b.core ≡ p.core)
      → 0 < instances_of p.core p.domain w.instances
      → p.size < 0x4000000000000000
      → IsAccounted (after (begin_at w.state p.core p.domain p.base p.size found))
  unfolding begin_at
  begin_at-IsAccounted none f own inst small =
      repin _ w.pins (first-IsCounted (find-none p.base p.domain w.state.blocks f)) refl refl
        (λ c d z. ground (arith, i.idle c d z))
  begin_at-IsAccounted (some b) f own inst small = use_block-IsAccounted b f (own b refl) small

  pub begin_pin-IsAccounted :
      (s : State) (found : Use)
      → 0 < instances_of p.core p.domain w.instances
      → p.size < 0x4000000000000000
      → ((b : Block) → find p.base p.domain w.state.blocks ≡ some b → b.core ≡ p.core)
      → begin_pin w.state p.core p.domain p.base p.size ≡ (s, found)
      → IsAccounted (record w { state = s; pins = pins_after found p w.pins })
  unfolding begin_pin
  begin_pin-IsAccounted s found inst small own e =
      subst (λ x. IsAccounted (after x)) e
        (begin_at-IsAccounted (find p.base p.domain w.state.blocks) refl own inst small)

  -- The block that the thread is locking.
  module _ (b : Block) (f : find p.base p.domain w.state.blocks ≡ some b) (t : is_pin p b ≡ true)
      (h : 0 < count_pin p w.pins) where
    size_held : p.size ≤ (w.state.locks p.core).bytes
    size_held =
        ground
          (arith, i.counted.bytes p.core, find-reserved p.base p.domain p.core w.state.blocks b f)

    abbrev locked_state : ℕ → State
    locked_state handle = end_pin w.state p.core p.domain p.base p.size (some handle)

    locked-IsCounted : (handle : ℕ) → IsCounted (locked_state handle) (remove_pin p w.pins)
    unfolding end_pin
    locked-IsCounted handle =
        let k = i.counted in
        let st = BlockState.locked in
        let bs = w.state.blocks in
        let (kb, kd) = find-key p.base p.domain bs b f in
        record {
          bytes = λ c.
              ground (arith, k.bytes c, put-reserved p.base p.domain st (some handle) b bs c f);
          within = k.within;
          cap_fits = k.cap_fits;
          total = ground (arith, k.total, put-locked_sum p.base p.domain st (some handle) b bs f);
          unique = λ x y.
              omega (arith, k.unique x y, put-copies p.base p.domain st (some handle) b bs x y f);
          locking = λ q. ground (
            arith,
            k.locking q,
            count-remove_pin p q w.pins h,
            put-lockings p.base p.domain st (some handle) b bs q f,
          );
        }

    abbrev failed_state : State
    failed_state = end_pin w.state p.core p.domain p.base p.size none

    failed-IsCounted : IsCounted failed_state (remove_pin p w.pins)
    unfolding end_pin
    failed-IsCounted =
        let k = i.counted in
        let st = BlockState.failed in
        let bs = w.state.blocks in
        let (kb, kd) = find-key p.base p.domain bs b f in
        let exact : minus (w.state.locks p.core).bytes p.size
            ≡ (w.state.locks p.core).bytes - p.size =
          omega (arith, size_held, k.within p.core, k.cap_fits p.core) in
        record {
          bytes = λ c.
              ground
                (arith, k.bytes c, exact, size_held, put-reserved p.base p.domain st none b bs c f);
          within = λ c. ground (arith, k.within c, exact);
          cap_fits = λ c. ground (arith, k.cap_fits c);
          total = ground (arith, k.total, put-locked_sum p.base p.domain st none b bs f);
          unique =
              λ x y. omega (arith, k.unique x y, put-copies p.base p.domain st none b bs x y f);
          locking = λ q. ground (
            arith,
            k.locking q,
            count-remove_pin p q w.pins h,
            put-lockings p.base p.domain st none b bs q f,
          );
        }

    ended-IsAccounted :
        (handle : Option ℕ)
        → IsAccounted (record w {
          state = end_pin w.state p.core p.domain p.base p.size handle;
          pins = remove_pin p w.pins;
        })
    unfolding end_pin
    ended-IsAccounted (some handle) =
        repin (locked_state handle) (remove_pin p w.pins) (locked-IsCounted handle) refl refl
          (λ c d z.
            put-serving p.base p.domain BlockState.locked (some handle) b w.state.blocks c d f
            ∙ i.idle c d z)
    ended-IsAccounted none =
        repin failed_state (remove_pin p w.pins) failed-IsCounted refl refl (λ c d z.
          put-serving p.base p.domain BlockState.failed none b w.state.blocks c d f ∙ i.idle c d z)

  pub end_pin-IsAccounted :
      (handle : Option ℕ)
      → 0 < count_pin p w.pins
      → IsAccounted (record w {
        state = end_pin w.state p.core p.domain p.base p.size handle;
        pins = remove_pin p w.pins;
      })
  end_pin-IsAccounted handle h =
      let k = i.counted in
      let (b, f, t) =
        lockings-find p w.state.blocks (k.unique p.base p.domain) (omega (arith, k.locking p)) in
      ended-IsAccounted b f t h handle
