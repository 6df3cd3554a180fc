-- ===== src/SlotPool.antt =====
-- src/cuda/runtime/stream_pool.hpp: the pool of slots that frames lease in turns (SlotPool), with the
-- threads that wait in acquire(order) and their wake-ups.
pub mod Turns
pub mod Laws
use vapoursynth_nssfactory.Base.{
  ℕ, zero, suc, Bool, true, false, ◌&&◌, ◌||◌, not, List, [], ◌∷◌, ◌++◌, map, Option, none, some,
  if◌then◌else◌, ℤ, ltb_ℤ, set, get_elem?,
}

-- A thread in acquire(order): an element of waiting_, and whether the thread is to test its predicate, or
-- sleeps on the condition variable.
pub record Waiter : Type 0 where
  pub order : ℤ
  pub awake : Bool

-- free_ and waiting_; the slots are told apart by a type of the caller.
pub record SlotPool {ℓ} (S : Type ℓ) : Type ℓ where
  pub free : List S
  pub waiting : List Waiter

abbrev pub is_nil {ℓ} : {A : Type ℓ} → List A → Bool
is_nil [] = true
is_nil (x ∷ xs) = false

-- No element of `waiting` is below `order`: `*waiting_.begin() == order` where it is one of them.
unfoldable pub is_lowest : ℤ → List Waiter → Bool
is_lowest order [] = true
is_lowest order (w ∷ ws) = not (ltb_ℤ w.order order) && is_lowest order ws

abbrev pub awaken : Waiter → Waiter
awaken w = record { order = w.order; awake = true }

-- notify_all.
unfoldable pub wake_all : List Waiter → List Waiter
wake_all = map awaken

unfoldable pub remove_at {ℓ} : {A : Type ℓ} → ℕ → List A → List A
remove_at i [] = []
remove_at zero (x ∷ xs) = xs
remove_at (suc i) (x ∷ xs) = x ∷ remove_at i xs

module _ {ℓ} {S : Type ℓ} where
  -- The constructor.
  unfoldable pub slot_pool : List S → SlotPool S
  slot_pool slots = record { free = slots; waiting = [] }

  -- acquire() past its wait: none while no slot is free.
  unfoldable pub acquire_first : SlotPool S → Option (S × SlotPool S)
  acquire_first pool = elim pool.free [
    | [] ↦ none
    | slot ∷ rest ↦ some (slot, record { free = rest; waiting = pool.waiting })
  ]

  -- acquire(order) up to its wait: `waiting_.insert(order)`; the wait tests its predicate first.
  unfoldable pub begin_wait : SlotPool S → ℤ → SlotPool S
  begin_wait pool order = record {
    free = pool.free;
    waiting = pool.waiting ++ record { order = order; awake = true } ∷ [];
  }

  -- Waiter i finds its predicate false and sleeps.
  unfoldable pub sleep : SlotPool S → ℕ → Waiter → SlotPool S
  sleep pool i me = record {
    free = pool.free;
    waiting = set pool.waiting i record { order = me.order; awake = false };
  }

  -- acquire(order) past its wait, for waiter i, with `rest` left of the free slots.
  unfoldable pub take_turn : SlotPool S → ℕ → List S → SlotPool S
  unfolding wake_all remove_at
  take_turn pool i rest =
      let others = remove_at i pool.waiting in
      let more = not (is_nil rest) && not (is_nil others) in
      record { free = rest; waiting = if more then wake_all others else others }

  -- give_back: a waiter is woken in every case in which there is one.
  unfoldable pub give_back : SlotPool S → S → SlotPool S
  unfolding wake_all
  give_back pool slot = record {
    free = pool.free ++ slot ∷ [];
    waiting = if not (is_nil pool.waiting) then wake_all pool.waiting else pool.waiting;
  }

-- A pool among its threads: the slots that are leased.
pub record World {ℓ} (S : Type ℓ) : Type ℓ where
  pub pool : SlotPool S
  pub leased : List S

pub data Step : Type 0 where
  arrive : ℤ → Step
  turn : ℕ → Step
  return_slot : ℕ → Step

module _ {ℓ} {S : Type ℓ} where
  -- Waiter i, awake, tests `!free_.empty() && *waiting_.begin() == order`.
  unfoldable pub test_turn : World S → ℕ → Waiter → List S → World S
  unfolding sleep take_turn is_lowest
  test_turn w i me [] = record { pool = sleep w.pool i me; leased = w.leased }
  test_turn w i me (slot ∷ rest) =
      if is_lowest me.order w.pool.waiting
      then record { pool = take_turn w.pool i rest; leased = slot ∷ w.leased }
      else record { pool = sleep w.pool i me; leased = w.leased }

  unfoldable pub turn_of : World S → ℕ → Option Waiter → World S
  unfolding test_turn
  turn_of w i none = w
  turn_of w i (some me) = if me.awake then test_turn w i me w.pool.free else w

  unfoldable pub return_at : World S → ℕ → Option S → World S
  unfolding give_back remove_at
  return_at w i none = w
  return_at w i (some slot) = record { pool = give_back w.pool slot; leased = remove_at i w.leased }

  -- A thread comes, a waiter that is not asleep looks, a lease ends.
  unfoldable pub step : World S → Step → World S
  unfolding begin_wait turn_of return_at
  step w (arrive order) = record { pool = begin_wait w.pool order; leased = w.leased }
  step w (turn i) = turn_of w i (get_elem? w.pool.waiting i)
  step w (return_slot i) = return_at w i (get_elem? w.leased i)

  unfoldable pub run : World S → List Step → World S
  unfolding step
  run w [] = w
  run w (s ∷ ss) = run (step w s) ss

  unfoldable pub start_world : List S → World S
  unfolding slot_pool
  start_world slots = record { pool = slot_pool slots; leased = [] }
