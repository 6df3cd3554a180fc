-- ===== src/CommitQueue.antt =====
-- include/nss/cpu_batch.hpp: the queue that commits the results of group jobs in the order of their
-- ordinals, whatever the order they arrive in (OrderedCommitQueue). Ordinals are uint64.
pub mod Loop
pub mod Invariant
pub mod Laws
pub mod Sorter
use vapoursynth_nssfactory.Base.{
  ℕ, zero, suc, ◌+◌, ◌-◌, ◌%◌, ◌^◌, max, Bool, true, false, ◌||◌, List, [], ◌∷◌, ◌++◌, Option, none,
  some, ltb, ◌==◌, if◌then◌else◌, length,
}

pub record Item {ℓ} (R : Type ℓ) : Type ℓ where
  pub ordinal : ℕ
  pub result : R

pub record OrderedCommitQueue {ℓ} (R : Type ℓ) : Type ℓ where
  pub next_ordinal : ℕ
  pub window : ℕ
  pub pending : List (Item R)

module _ {ℓ} {R : Type ℓ} where
  unfoldable pub ordered_commit_queue : ℕ → ℕ → OrderedCommitQueue R
  ordered_commit_queue first_ordinal window = record {
    next_ordinal = first_ordinal;
    window = max 1 window;
    pending = [];
  }

  unfoldable pub is_pending : ℕ → List (Item R) → Bool
  is_pending ordinal [] = false
  is_pending ordinal (item ∷ items) = (item.ordinal == ordinal) || is_pending ordinal items

  -- The tests of push, each with its `return false`.
  unfoldable pub refuses : OrderedCommitQueue R → ℕ → Bool
  unfolding is_pending
  refuses queue ordinal =
      ltb ordinal queue.next_ordinal
      || ltb queue.window (ordinal - queue.next_ordinal)
      || is_pending ordinal queue.pending

  unfoldable pub push : OrderedCommitQueue R → ℕ → R → Bool × OrderedCommitQueue R
  unfolding refuses
  push queue ordinal result = if refuses queue ordinal then (false, queue) else (
    true,
    record {
      next_ordinal = queue.next_ordinal;
      window = queue.window;
      pending = queue.pending ++ record { ordinal = ordinal; result = result } ∷ [];
    },
  )

  abbrev pub kept_before :
      Item R → Option (Item R × List (Item R)) → Option (Item R × List (Item R))
  kept_before item none = none
  kept_before item (some (found, others)) = some (found, item ∷ others)

  -- find_if over the pending items, with what erase leaves of them.
  unfoldable pub take_ordinal : ℕ → List (Item R) → Option (Item R × List (Item R))
  take_ordinal ordinal [] = none
  take_ordinal ordinal (item ∷ items) =
      let rest = take_ordinal ordinal items in
      if item.ordinal == ordinal then some (item, items) else kept_before item rest

  unfoldable pub needs_drain : OrderedCommitQueue R → Bool
  needs_drain queue = ltb queue.window (length queue.pending)

  unfoldable pub complete : OrderedCommitQueue R → Bool
  complete queue = elim queue.pending [ [] ↦ true | item ∷ items ↦ false ]

  -- The queue once `item` is committed; `++next_ordinal_` is on a uint64.
  unfoldable pub after_commit : OrderedCommitQueue R → List (Item R) → OrderedCommitQueue R
  after_commit queue rest = record {
    next_ordinal = (queue.next_ordinal + 1) % 2 ^ 64;
    window = queue.window;
    pending = rest;
  }

-- What a drain leaves: the queue, the state that the commit function changes, and the count.
pub record Drained {ℓ κ} (R : Type ℓ) (S : Type κ) : Type (ℓ ⊔ κ) where
  pub queue : OrderedCommitQueue R
  pub state : S
  pub committed : ℕ

module _ {ℓ κ} {R : Type ℓ} {S : Type κ} (commit : S → R → S) where
  -- `while (true)`, with fuel: every round takes an item.
  unfoldable pub drain_loop : ℕ → OrderedCommitQueue R → S → ℕ → Drained R S
  unfolding take_ordinal after_commit
  drain_loop zero queue state committed = record {
    queue = queue;
    state = state;
    committed = committed;
  }
  drain_loop (suc fuel) queue state committed =
      elim (take_ordinal queue.next_ordinal queue.pending) [
        | none ↦ record { queue = queue; state = state; committed = committed }
        | some (item, rest) ↦
            drain_loop fuel (after_commit queue rest) (commit state item.result) (suc committed)
      ]

  unfoldable pub drain : OrderedCommitQueue R → S → Drained R S
  unfolding drain_loop
  drain queue state = drain_loop (length queue.pending) queue state 0

  unfoldable pub finish : OrderedCommitQueue R → S → Drained R S
  unfolding drain
  finish = drain
