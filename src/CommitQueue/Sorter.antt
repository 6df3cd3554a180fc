-- ===== src/CommitQueue/Sorter.antt =====
-- The queue as a sorter: the log of a complete queue depends on the items only, not on the order in
-- which they came.
use mathlib.Core.Path.{subst}
use mathlib.Core.Bool.{Bool-set}
use mathlib.Core.Logic.Or
use mathlib.Core.List.{append-nil, mem-cons, mem-cons_self, mem-cons_of_mem, not-mem-nil}
use mathlib.Core.List.Perm
use vapoursynth_nssfactory.Base.{
  ◌⊎◌, ℕ, zero, suc, ◌+◌, ◌≤◌, ◌<◌, ◌≡◌, refl, sym, ap, ◌∙◌, Bool, List, [], ◌∷◌, ◌++◌, ◌==◌, Perm,
  Mem, length, length-append, inl, inr, true, false, arith,
}
use vapoursynth_nssfactory.CommitQueue.{Item, OrderedCommitQueue, complete, is_pending}
use vapoursynth_nssfactory.CommitQueue.Laws.{commit-step, commits_in_order}
use vapoursynth_nssfactory.Matcher.Order.{by, by-StrictWeak}
use vapoursynth_nssfactory.Matcher.TopK.Sort.{AllAfter}
use vapoursynth_nssfactory.Matcher.TopK.Best.{AllAfter-mem, length-perm}
use vapoursynth_nssfactory.CommitQueue.Invariant.{
  World, IsOrdered, numbered, step, run, start_world, drained_world, AreCounted, Step, drain_all,
}

module _ {ℓ} {R : Type ℓ} where
  length-numbered : (first : ℕ) (rs : List R) → length (numbered first rs) ≡ length rs
  unfolding numbered
  length-numbered first [] = refl
  length-numbered first (r ∷ rs) = ap suc (length-numbered (suc first) rs)

  numbered-at :
      (first : ℕ) (rs : List R) (i : ℕ)
      → i < length rs
      → (item : Item R) × Mem item (numbered first rs) × (item.ordinal ≡ first + i)
  unfolding numbered
  numbered-at first [] i h = absurd (omega arith)
  numbered-at first (r ∷ rs) zero h =
      (record { ordinal = first; result = r }, mem-cons_self, omega arith)
  numbered-at first (r ∷ rs) (suc i) h =
      let (item, m, e) = numbered-at (suc first) rs i (omega arith) in
      (item, mem-cons_of_mem _ m, omega arith)

  -- Which ordinals occur.
  abbrev Bounded : ℕ → List (Item R) → Type 0
  Bounded limit [] = Unit
  Bounded limit (item ∷ items) = (item.ordinal < limit) × Bounded limit items

  numbered-Bounded :
      (first limit : ℕ) (rs : List R)
      → first + length rs ≤ limit
      → Bounded limit (numbered first rs)
  unfolding numbered
  numbered-Bounded first limit [] h = tt
  numbered-Bounded first limit (r ∷ rs) h =
      (omega arith, numbered-Bounded (suc first) limit rs (omega arith))

  missing-Mem :
      (limit : ℕ) (early late : List (Item R)) (item : Item R)
      → Bounded limit early
      → is_pending limit late ≡ false
      → Mem item (early ++ late)
      → (item.ordinal == limit) ≡ false
  unfolding is_pending
  missing-Mem limit [] [] item b p m = absurd (not-mem-nil m)
  missing-Mem limit [] (i ∷ late) item b p m =
      Or.elim (Bool-set _ _) (mem-cons.0 m) (λ e. rw e (ground arith))
        (missing-Mem limit [] late item tt (ground arith))
  missing-Mem limit (i ∷ early) late item b p m =
      Or.elim (Bool-set _ _) (mem-cons.0 m) (λ e. rw e (ground (arith, b.0)))
        (missing-Mem limit early late item b.1 p)

  -- In a list of the numbers in order, none comes before an earlier one.
  abbrev by_ordinal : Item R → Item R → Bool
  by_ordinal = by (λ item. item.ordinal)

  AllAfter-numbered :
      (item : Item R) (first : ℕ) (rs : List R)
      → item.ordinal ≤ first
      → AllAfter by_ordinal item (numbered first rs)
  unfolding numbered
  AllAfter-numbered item first [] h = tt
  AllAfter-numbered item first (r ∷ rs) h =
      (ground (arith, h), AllAfter-numbered item (suc first) rs (omega arith))

  -- No number occurs twice, so the items determine the list.
  numbered_unique :
      (first : ℕ) (log rs : List R)
      → IsSet R
      → length log ≡ length rs
      → Perm (numbered first log) (numbered first rs)
      → log ≡ rs
  unfolding numbered
  numbered_unique first [] [] r_set l p = refl
  numbered_unique first [] (r ∷ rs) r_set l p = absurd (omega arith)
  numbered_unique first (r ∷ log) [] r_set l p = absurd (omega arith)
  numbered_unique first (a ∷ log) (b ∷ rs) r_set l p =
      let before =
        AllAfter-numbered record { ordinal = suc first; result = a } (suc first) rs (omega arith) in
      let same : a ≡ b =
        Or.elim (r_set a b) (mem-cons.0 ((Perm.mem_iff p).0 mem-cons_self))
          (λ e. ap (λ item. item.result) e)
          (λ m. absurd (
            ground (
              arith,
              AllAfter-mem (by-StrictWeak (λ item. item.ordinal)) _
                  record { ordinal = first; result = a } (numbered (suc first) rs) before m,
            ))) in
      let first_item : record { ordinal = first; result = a }
          ≡ record { ordinal = first; result = b } =
        ap (λ r. record { ordinal = first; result = r }) same in
      let tails : Perm (numbered (suc first) log) (numbered (suc first) rs) =
        Perm.cons_inv (Perm.trans p (Perm.symm (Perm.cons' first_item Perm.rfl))) in
      rw (same, numbered_unique (suc first) log rs r_set (omega arith) tails) refl

  List-cases : (items : List (Item R)) → (items ≡ []) ⊎ (1 ≤ length items)
  List-cases [] = inl refl
  List-cases (item ∷ items) = inr (omega arith)

  -- With the next ordinal missing, no item is left of those of `rs`.
  nothing_pending :
      (first : ℕ) (rs : List R) (w : World R)
      → IsOrdered first w
      → is_pending w.queue.next_ordinal w.queue.pending ≡ false
      → Perm (numbered first rs) w.accepted
      → w.queue.pending ≡ []
  nothing_pending first rs w o missing p = elim (List-cases w.queue.pending) [
    | inl none_left ↦ none_left
    | inr some_left ↦
        let sizes = length-perm o.perm ∙ sym (length-perm p) in
        let total = length-append (numbered first w.log) w.queue.pending in
        let (item, m, e) =
          numbered-at first rs (length w.log) (omega (arith, sizes, total, length-numbered)) in
        let here = (Perm.mem_iff o.perm).1 ((Perm.mem_iff p).0 m) in
        let away =
          missing-Mem w.queue.next_ordinal (numbered first w.log) w.queue.pending item
            (numbered-Bounded first _ w.log (omega (arith, o.next))) missing here in
        let next = o.next in absurd (ground arith)
  ]

  complete-nil : (queue : OrderedCommitQueue R) → queue.pending ≡ [] → complete queue ≡ true
  unfolding complete
  complete-nil queue e = rw e refl

  -- Submit the items of the ordinals from the first one on in any order, with drains at any time and
  -- with any refused submissions among them: if each of these items has been accepted, and no other,
  -- then the next drain leaves the queue complete, and all the results are then committed, in the
  -- order of their ordinals. The results are of a set, and the ordinals at most 2^64 - 2.
  pub commit_sorts :
      (first window : ℕ) (ss : List (Step R)) (rs : List R)
      → IsSet R
      → AreCounted ss
      → Perm (numbered first rs) (run (start_world first window) ss).accepted
      → let w = step (run (start_world first window) ss) drain_all in
        (w.log ≡ rs) × (complete w.queue ≡ true)
  unfolding step drained_world
  commit_sorts first window ss rs r_set c p =
      let (o, missing) = commit-step first _ (commits_in_order first window ss c) in
      let w = step (run (start_world first window) ss) drain_all in
      let empty = nothing_pending first rs w o missing p in
      let only : Perm (numbered first w.log) w.accepted =
        subst (λ xs. Perm xs w.accepted)
          (ap (λ xs. numbered first w.log ++ xs) empty ∙ append-nil (numbered first w.log))
          o.perm in
      let same = Perm.trans only (Perm.symm p) in
      (
        numbered_unique first w.log rs r_set (omega (arith, length-perm same, length-numbered))
            same,
        complete-nil w.queue empty,
      )
