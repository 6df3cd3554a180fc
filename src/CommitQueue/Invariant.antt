-- ===== src/CommitQueue/Invariant.antt =====
-- The queue among its callers: submissions and drains in any order, where a drain appends the results
-- it commits to a log.
use mathlib.Core.Path.{subst}
use mathlib.Core.List.{append_assoc}
use mathlib.Core.List.Perm
use vapoursynth_nssfactory.Base.{
  ℕ, suc, ◌+◌, ◌≤◌, ◌<◌, ◌^◌, ◌≡◌, refl, Bool, List, [], ◌∷◌, ◌++◌, ◌==◌, Perm, length, inl, inr,
  Bool-cases, true, false, arith,
}
use vapoursynth_nssfactory.CommitQueue.{
  Item, OrderedCommitQueue, ordered_commit_queue, is_pending, refuses, push, drain, Drained,
}
use vapoursynth_nssfactory.CommitQueue.Loop.{InWindow, AreDistinct}

pub data Step {ℓ} (R : Type ℓ) : Type ℓ where
  submit : ℕ → R → Step R
  drain_all : Step R

pub record World {ℓ} (R : Type ℓ) : Type ℓ where
  pub queue : OrderedCommitQueue R
  pub log : List R
  pub accepted : List (Item R)

module _ {ℓ} {R : Type ℓ} where
  abbrev pub append_result : List R → R → List R
  append_result log result = log ++ result ∷ []

  -- The caller keeps account of what push has accepted.
  unfoldable pub submitted : World R → Item R → Bool × OrderedCommitQueue R → World R
  submitted w item (false, queue) = record { queue = queue; log = w.log; accepted = w.accepted }
  submitted w item (true, queue) = record {
    queue = queue;
    log = w.log;
    accepted = w.accepted ++ item ∷ [];
  }

  unfoldable pub drained_world : List (Item R) → Drained R (List R) → World R
  drained_world accepted d = record { queue = d.queue; log = d.state; accepted = accepted }

  unfoldable pub step : World R → Step R → World R
  unfolding submitted drained_world
  step w (submit ordinal result) =
      submitted w record { ordinal = ordinal; result = result } (push w.queue ordinal result)
  step w drain_all = drained_world w.accepted (drain append_result w.queue w.log)

  unfoldable pub run : World R → List (Step R) → World R
  run w [] = w
  run w (s ∷ ss) = run (step w s) ss

  unfoldable pub start_world : ℕ → ℕ → World R
  start_world first window = record {
    queue = ordered_commit_queue first window;
    log = [];
    accepted = [];
  }

  -- The results, each with its ordinal, from `first` on.
  unfoldable pub numbered : ℕ → List R → List (Item R)
  numbered first [] = []
  numbered first (r ∷ rs) = record { ordinal = first; result = r } ∷ numbered (suc first) rs

  -- The ordinals submitted have successors that fit in a uint64.
  abbrev pub AreCounted : List (Step R) → Type 0
  AreCounted [] = Unit
  AreCounted (submit ordinal result ∷ ss) = (ordinal + 1 < 2 ^ 64) × AreCounted ss
  AreCounted (drain_all ∷ ss) = AreCounted ss

  pub record IsOrdered (first : ℕ) (w : World R) : Type ℓ where
    pub perm : Perm (numbered first w.log ++ w.queue.pending) w.accepted
    pub next : w.queue.next_ordinal ≡ first + length w.log
    pub in_window :
        InWindow w.queue.next_ordinal (w.queue.next_ordinal + w.queue.window) w.queue.pending
    pub distinct : AreDistinct w.queue.pending

  InWindow-append :
      (next window : ℕ) (items : List (Item R)) (item : Item R)
      → InWindow next window items
      → InWindow next window (item ∷ [])
      → InWindow next window (items ++ item ∷ [])
  InWindow-append next window [] item h k = k
  InWindow-append next window (i ∷ items) item (l, u, f, h) k =
      (l, u, f, InWindow-append next window items item h k)

  is_pending-append :
      (n : ℕ) (items : List (Item R)) (item : Item R)
      → is_pending n items ≡ false
      → (item.ordinal == n) ≡ false
      → is_pending n (items ++ item ∷ []) ≡ false
  unfolding is_pending
  is_pending-append n [] item h k = rw k refl
  is_pending-append n (i ∷ items) item h k = ground (arith, is_pending-append n items item)

  AreDistinct-append :
      (items : List (Item R)) (item : Item R)
      → AreDistinct items
      → is_pending item.ordinal items ≡ false
      → AreDistinct (items ++ item ∷ [])
  unfolding is_pending
  AreDistinct-append [] item d h = (refl, tt)
  AreDistinct-append (i ∷ items) item d h = (
    is_pending-append i.ordinal items item d.0 (ground arith),
    AreDistinct-append items item d.1 (ground arith),
  )

  -- What the three tests leave.
  refuses-not :
      (queue : OrderedCommitQueue R) (ordinal : ℕ)
      → refuses queue ordinal ≡ false
      → (queue.next_ordinal ≤ ordinal)
        × (ordinal ≤ queue.next_ordinal + queue.window)
        × (is_pending ordinal queue.pending ≡ false)
  unfolding refuses
  refuses-not queue ordinal h = ground arith

  pub submit-IsOrdered :
      (first ordinal : ℕ) (result : R) (w : World R)
      → ordinal + 1 < 2 ^ 64
      → IsOrdered first w
      → IsOrdered first (step w (submit ordinal result))
  unfolding step push submitted
  submit-IsOrdered first ordinal result w b o = elim (Bool-cases (refuses w.queue ordinal)) [
    | inl h ↦
        rw h record { perm = o.perm; next = o.next; in_window = o.in_window; distinct = o.distinct }
    | inr h ↦
        let (l, u, fresh) = refuses-not w.queue ordinal h in
        let item : Item R = record { ordinal = ordinal; result = result } in
        rw h record {
          perm =
              subst (λ xs. Perm xs (w.accepted ++ item ∷ []))
                (append_assoc (numbered first w.log) w.queue.pending (item ∷ []))
                (Perm.append_right (item ∷ []) o.perm);
          next = o.next;
          in_window = InWindow-append _ _ w.queue.pending item o.in_window (l, u, b, tt);
          distinct = AreDistinct-append w.queue.pending item o.distinct fresh;
        }
  ]
