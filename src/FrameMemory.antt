-- ===== src/FrameMemory.antt =====
-- src/frontend/frame_memory.cpp: which blocks of a core's frame pool are locked for transfers by a
-- device. The state is the process-wide `State`, with the extension of the host there; its times are
-- left out. Each function is what one thread does under a mutex.
pub mod Blocks
pub mod Sweep
pub mod World
pub mod Effects
pub mod Consistent
pub mod Instances
pub mod Pins
pub mod Invariant
pub mod Laws
use vapoursynth_nssfactory.Base.{
  ℕ, zero, suc, ◌+◌, ◌-◌, ◌%◌, ◌^◌, Bool, true, false, ◌&&◌, ◌||◌, not, List, [], ◌∷◌, Option, none,
  some, ltb, leb, ◌==◌, if◌then◌else◌, max, ℤ, pos, ltb_ℤ,
}
use vapoursynth_nssfactory.Resources.{plus, minus}
use vapoursynth_nssfactory.FrameMemory.Blocks.{
  BlockState, is_seen, is_locked, Block, has_key, find, put, without,
}

pub record CoreHook : Type 0 where
  pub id : ℤ
  pub instances : ℕ

pub record CoreLocks : Type 0 where
  pub cap : ℕ
  pub bytes : ℕ

-- `cores` is a map, in which a core may be missing. A missing entry of `domains` is 0 and one of
-- `locks` is empty, as operator[] adds them.
pub record State : Type 0 where
  pub cores : ℕ → Option CoreHook
  pub domains : ℕ → ℕ → ℕ
  pub blocks : List Block
  pub locks : ℕ → CoreLocks
  pub locked : ℕ
  pub failed : ℕ
  pub hits : ℕ
  pub misses : ℕ
  pub first : ℕ
  pub capped : ℕ
  pub released : ℕ
  pub locked_bytes : ℕ
  pub locked_peak : ℕ

abbrev pub no_locks : CoreLocks
no_locks = record { cap = 0; bytes = 0 }

abbrev pub start_state : State
start_state = record {
  cores = λ _. none;
  domains = λ _ _. 0;
  blocks = [];
  locks = λ _. no_locks;
  locked = 0;
  failed = 0;
  hits = 0;
  misses = 0;
  first = 0;
  capped = 0;
  released = 0;
  locked_bytes = 0;
  locked_peak = 0;
}

-- Writes to the maps.
abbrev pub at {ℓ} : {A : Type ℓ} → (ℕ → A) → ℕ → A → ℕ → A
at f k a j = if j == k then a else f j

abbrev pub at₂ : (ℕ → ℕ → ℕ) → ℕ → ℕ → ℕ → ℕ → ℕ → ℕ
at₂ f k l a i j = if (i == k) && (j == l) then a else f i j

abbrev pub set_bytes : State → ℕ → ℕ → State
set_bytes s core n = record s { locks = at s.locks core (record (s.locks core) { bytes = n }) }

-- unlock_block, without the entry itself, which its callers erase.
unfoldable pub unlock_block : State → Block → State
unlock_block s b =
    if not (is_locked b.state)
    then s
    else set_bytes (record s { locked_bytes = minus s.locked_bytes b.size }) b.core
        (minus (s.locks b.core).bytes b.size)

-- A loop over the blocks that erases those of a test, after `act`. Its list is the whole map.
unfoldable pub sweep : (Block → Bool) → (State → Block → State) → State → List Block → State
sweep test act s [] = s
sweep test act s (b ∷ bs) = sweep test act (if test b then act s b else s) bs

abbrev pub of_base : ℕ → Block → Bool
of_base base b = b.base == base

abbrev pub of_domain : ℕ → ℕ → Block → Bool
of_domain core domain b = (b.core == core) && (b.domain == domain)

unfoldable pub release_block : State → Block → State
unfolding unlock_block
release_block s b =
    if is_locked b.state
    then (let unlocked = unlock_block s b in record unlocked { released = unlocked.released + 1 })
    else s

-- The release hook: the pool gives the block of `base` back.
unfoldable pub on_release : State → ℕ → State
unfolding sweep release_block without
on_release s base = record (sweep (of_base base) release_block s s.blocks) {
  blocks = without (of_base base) s.blocks;
}

-- The constructor: `id` is what add_release_hook returns and `cap` is lock_cap, where they are
-- called. The second result is whether the instance has a core.
unfoldable pub count_instance : State → ℕ → ℕ → CoreHook → State
count_instance s core domain hook = record s {
  cores = at s.cores core (some (record hook { instances = hook.instances + 1 }));
  domains = at₂ s.domains core domain (s.domains core domain + 1);
}

unfoldable pub attach_at : State → ℕ → ℕ → ℤ → ℕ → Option CoreHook → State × Bool
unfolding count_instance
attach_at s core domain id cap (some hook) = (count_instance s core domain hook, true)
attach_at s core domain id cap none = if not (ltb_ℤ (pos 0) id) then (s, false) else (
  count_instance (record s { locks = at s.locks core (record { cap = cap; bytes = 0 }) }) core
      domain (record { id = id; instances = 0 }),
  true,
)

unfoldable pub attach : State → ℕ → ℕ → ℤ → ℕ → State × Bool
unfolding attach_at
attach s core domain id cap = attach_at s core domain id cap (s.cores core)

-- The destructor of an instance that has a core.
unfoldable pub drop_domain : State → ℕ → ℕ → State
unfolding sweep unlock_block without
drop_domain s core domain =
    let left = record s { domains = at₂ s.domains core domain (s.domains core domain - 1) } in
    if left.domains core domain == 0
    then record (sweep (of_domain core domain) unlock_block left left.blocks) {
      blocks = without (of_domain core domain) left.blocks;
    }
    else left

unfoldable pub drop_core : State → ℕ → Option CoreHook → State
drop_core s core none = s
drop_core s core (some hook) =
    if ltb 1 hook.instances
    then record s {
      cores = at s.cores core (some (record hook { instances = hook.instances - 1 }));
    }
    else record s { cores = at s.cores core none; locks = at s.locks core no_locks }

unfoldable pub detach : State → ℕ → ℕ → State
unfolding drop_domain drop_core
detach s core domain = let left = drop_domain s core domain in drop_core left core (left.cores core)

-- Where `pinned` finds the plane: the base and the size of its block and its offset there, if the
-- instance has a core, get_plane_block has found the block, and the caller's pointer, if any, is in it.
unfoldable pub place : Bool → Option (ℕ × ℕ) → Option ℕ → Option (ℕ × ℕ × ℕ)
place false block pointer = none
place true none pointer = none
place true (some (base, size)) none = some (base, size, 0)
place true (some (base, size)) (some pointer) =
    if ltb pointer base || leb size (pointer - base)
    then none
    else some (base, size, pointer - base)

-- What `pinned` finds in its first critical section: the plane is staged, its block is locked, or
-- the thread goes on to lock it.
pub data Use : Type 0 where
  staged : Use
  direct : Option ℕ → Use
  locks_it : Use

unfoldable pub use_block : State → ℕ → ℕ → ℕ → ℕ → Block → State × Use
unfolding put
use_block s core domain base size b =
    if not (is_seen b.state) || not (b.size == size)
    then (if is_locked b.state && (b.size == size)
        then (record s { hits = s.hits + 1 }, Use.direct b.handle)
        else (record s { misses = s.misses + 1 }, Use.staged))
    else if ltb (s.locks core).cap (plus (s.locks core).bytes size)
    then (record s { capped = s.capped + 1 }, Use.staged)
    else (
      set_bytes (record s { blocks = put base domain BlockState.locking b.handle s.blocks }) core
          (plus (s.locks core).bytes size),
      Use.locks_it,
    )

unfoldable pub begin_at : State → ℕ → ℕ → ℕ → ℕ → Option Block → State × Use
unfolding use_block
begin_at s core domain base size (some b) = use_block s core domain base size b
begin_at s core domain base size none = (
  record s {
    first = s.first + 1;
    blocks =
        record {
          base = base;
          domain = domain;
          size = size;
          core = core;
          state = BlockState.seen;
          handle = none;
        }
        ∷ s.blocks;
  },
  Use.staged,
)

unfoldable pub begin_pin : State → ℕ → ℕ → ℕ → ℕ → State × Use
unfolding find begin_at
begin_pin s core domain base size = begin_at s core domain base size (find base domain s.blocks)

-- The second one, with what the backend's lock() has returned.
unfoldable pub end_pin : State → ℕ → ℕ → ℕ → ℕ → Option ℕ → State
unfolding put
end_pin s core domain base size (some handle) =
    let total = plus s.locked_bytes size in
    record s {
      blocks = put base domain BlockState.locked (some handle) s.blocks;
      locked_bytes = total;
      locked_peak = max s.locked_peak total;
      locked = s.locked + 1;
      hits = s.hits + 1;
    }
end_pin s core domain base size none =
    set_bytes
      (record s {
        blocks = put base domain BlockState.failed none s.blocks;
        failed = s.failed + 1;
        misses = s.misses + 1;
      })
      core (minus (s.locks core).bytes size)
