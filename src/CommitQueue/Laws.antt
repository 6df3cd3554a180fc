-- ===== src/CommitQueue/Laws.antt =====
-- What is committed, whatever the order of the submissions and the drains.
use mathlib.Core.Path.{subst}
use mathlib.Core.List.{append_assoc}
use mathlib.Core.List.Perm
use vapoursynth_nssfactory.Base.{
  ℕ, zero, suc, ◌+◌, ◌≤◌, ◌^◌, ◌%◌, ◌≡◌, refl, ap, ◌∙◌, List, [], ◌∷◌, ◌++◌, length, length-append,
  inl, inr, Option-cases, false, arith,
}
use vapoursynth_nssfactory.CommitQueue.{
  Item, ordered_commit_queue, take_ordinal, is_pending, after_commit, drain_loop, drain,
}
use vapoursynth_nssfactory.CommitQueue.Loop.{
  IsTaken, Outcome, take_ordinal-Outcome, InWindow-next, InWindow-wider, length-InWindow,
}
use vapoursynth_nssfactory.CommitQueue.Invariant.{
  World, IsOrdered, numbered, append_result, step, run, start_world, drained_world,
  submit-IsOrdered, AreCounted, Step, submit, drain_all,
}

module _ {ℓ} {R : Type ℓ} where
  numbered-append :
      (first : ℕ) (log : List R) (result : R) (ordinal : ℕ)
      → ordinal ≡ first + length log
      → numbered first (log ++ result ∷ [])
        ≡ numbered first log ++ record { ordinal = ordinal; result = result } ∷ []
  unfolding numbered
  numbered-append first [] result ordinal e =
      let same : first ≡ ordinal = omega arith in rw same refl
  numbered-append first (r ∷ log) result ordinal e =
      ap (λ (rest : List (Item R)). record { ordinal = first; result = r } ∷ rest)
        (numbered-append (suc first) log result ordinal (omega arith))

  -- One round of the loop.
  commit-IsOrdered :
      (first : ℕ) (w : World R) (item : Item R) (rest : List (Item R))
      → IsTaken w.queue.next_ordinal w.queue.pending item rest
      → IsOrdered first w
      → IsOrdered first record {
        queue = after_commit w.queue rest;
        log = append_result w.log item.result;
        accepted = w.accepted;
      }
  unfolding after_commit
  commit-IsOrdered first w item rest t o =
      let (l, u, fits, window) = t.in_window _ _ o.in_window in
      let (distinct, only) = t.distinct o.distinct in
      let next : (w.queue.next_ordinal + 1) % 2 ^ 64 ≡ w.queue.next_ordinal + 1 =
        ground (arith, t.same) in
      let at : item.ordinal ≡ first + length w.log = t.same ∙ o.next in
      record {
        perm =
            rw
              (
                numbered-append first w.log item.result item.ordinal at,
                append_assoc (numbered first w.log) (item ∷ []) rest,
              )
              (Perm.trans (Perm.append_left (numbered first w.log) t.perm) o.perm);
        next = omega (arith, next, o.next, length-append w.log (item.result ∷ []));
        in_window =
            rw next (InWindow-wider _ _ _ rest (omega arith) (InWindow-next _ _ rest window only));
        distinct = distinct;
      }

  is_pending-nil : (n : ℕ) (items : List (Item R)) → length items ≤ 0 → is_pending n items ≡ false
  unfolding is_pending
  is_pending-nil n [] h = refl
  is_pending-nil n (item ∷ items) h = absurd (omega arith)

  -- The loop ends with the next ordinal missing, where `fuel` covers the pending items.
  pub drain_loop-IsOrdered :
      (first fuel : ℕ) (w : World R) (committed : ℕ)
      → length w.queue.pending ≤ fuel
      → IsOrdered first w
      → let d = drain_loop append_result fuel w.queue w.log committed in
        IsOrdered first (drained_world w.accepted d)
        × (is_pending d.queue.next_ordinal d.queue.pending ≡ false)
  unfolding drain_loop drained_world after_commit
  drain_loop-IsOrdered first zero w committed f o = (
    record { perm = o.perm; next = o.next; in_window = o.in_window; distinct = o.distinct },
    is_pending-nil _ _ f,
  )
  drain_loop-IsOrdered first (suc fuel) w committed f o =
      let outcome = take_ordinal-Outcome w.queue.next_ordinal w.queue.pending o.distinct in
      elim (Option-cases (take_ordinal w.queue.next_ordinal w.queue.pending)) [
        | inl none_left ↦
            rw (drain_loop, none_left)
              (
                record {
                  perm = o.perm;
                  next = o.next;
                  in_window = o.in_window;
                  distinct = o.distinct;
                },
                (subst (Outcome w.queue.next_ordinal w.queue.pending) none_left outcome).lower,
              )
        | inr ((item, rest), found) ↦
            let taken : IsTaken w.queue.next_ordinal w.queue.pending item rest =
              subst (Outcome w.queue.next_ordinal w.queue.pending) found outcome in
            rw (drain_loop, found)
              (drain_loop-IsOrdered first fuel
                record {
                  queue = after_commit w.queue rest;
                  log = append_result w.log item.result;
                  accepted = w.accepted;
                }
                (suc committed) (omega (arith, taken.size))
                (commit-IsOrdered first w item rest taken o))
      ]

  pub commit-step :
      (first : ℕ) (w : World R)
      → IsOrdered first w
      → let w' = step w drain_all in
        IsOrdered first w' × (is_pending w'.queue.next_ordinal w'.queue.pending ≡ false)
  unfolding step drain drained_world
  commit-step first w o = drain_loop-IsOrdered first (length w.queue.pending) w 0 (omega arith) o

  run-IsOrdered :
      (first : ℕ) (ss : List (Step R)) (w : World R)
      → AreCounted ss
      → IsOrdered first w
      → IsOrdered first (run w ss)
  unfolding run
  run-IsOrdered first [] w c o = o
  run-IsOrdered first (submit ordinal result ∷ ss) w c o =
      run-IsOrdered first ss _ c.1 (submit-IsOrdered first ordinal result w c.0 o)
  run-IsOrdered first (drain_all ∷ ss) w c o = run-IsOrdered first ss _ c (commit-step first w o).0

  start-IsOrdered : (first window : ℕ) → IsOrdered {R = R} first (start_world first window)
  unfolding start_world ordered_commit_queue numbered
  start-IsOrdered first window = record {
    perm = Perm.rfl;
    next = omega arith;
    in_window = tt;
    distinct = tt;
  }

  -- Whatever the order of the submissions and the drains, and the ordinals that are submitted: the
  -- results committed so far, numbered from the first ordinal on, and the pending items are together
  -- the items that push accepted, each once; the next ordinal is the first one plus the number of
  -- commits; the pending items are of different ordinals within the window from the next one. The
  -- ordinals submitted are at most 2^64 - 2.
  pub commits_in_order :
      (first window : ℕ) (ss : List (Step R))
      → AreCounted ss
      → IsOrdered first (run (start_world first window) ss)
  commits_in_order first window ss c =
      run-IsOrdered first ss (start_world first window) c (start-IsOrdered first window)

  -- Whatever the order of the submissions and the drains, at most window + 1 items are pending, the
  -- number that the constructor reserves room for. The ordinals submitted are at most 2^64 - 2.
  pub pending_fits :
      (first window : ℕ) (ss : List (Step R))
      → AreCounted ss
      → let queue = (run (start_world first window) ss).queue in
        length queue.pending ≤ queue.window + 1
  pending_fits first window ss c =
      let o = commits_in_order first window ss c in
      length-InWindow _ _ _ _ (omega arith) o.in_window o.distinct
