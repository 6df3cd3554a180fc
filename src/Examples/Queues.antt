-- ===== src/Examples/Queues.antt =====
-- Two results that arrive in the wrong order, jobs of two keys, and threads that take turns.
use native.Mathlib.Nat.{ℕ_set}
use mathlib.Core.List.Perm
use vapoursynth_nssfactory.Base.{
  pos, ◌++◌, ◌⊎◌, ℕ, ◌+◌, ◌≤◌, ◌≡◌, true, false, List, [], ◌∷◌, Perm, length, arith,
}
use vapoursynth_nssfactory.CommitQueue.{
  complete, push, refuses, is_pending, drain, drain_loop, take_ordinal, after_commit,
  ordered_commit_queue,
}
use vapoursynth_nssfactory.CommitQueue.Invariant.{
  Step, submit, drain_all, step, run, start_world, submitted, drained_world, numbered, IsOrdered,
  AreCounted,
}
use vapoursynth_nssfactory.CommitQueue.Laws.{commits_in_order, pending_fits}
use vapoursynth_nssfactory.CommitQueue.Sorter.{commit_sorts}
use vapoursynth_nssfactory.GroupJobs.{GroupKey, nlh, job_less, bucket_group_jobs}
use vapoursynth_nssfactory.GroupJobs.Order.{
  AreOrdered, LexLe, weights, bucket_group_jobs-AreOrdered,
}
use vapoursynth_nssfactory.Matcher.Order.{StrictWeak}
use vapoursynth_nssfactory.Raster.{GroupJob}
use vapoursynth_nssfactory.SlotPool.{
  is_nil, run as run_pool, start_world as start_pool, Step as PoolStep, arrive, turn, return_slot,
}
use vapoursynth_nssfactory.SlotPool.Laws.{slot_turns, IsServed}

-- From ordinal 5 on with a window of 2: 6 comes first, 9 is refused, a drain finds nothing, 5 follows.
abbrev out_of_order : List (Step ℕ)
out_of_order = submit 6 60 ∷ submit 9 90 ∷ drain_all ∷ submit 5 50 ∷ []

counted : AreCounted out_of_order
counted = (omega arith, (omega arith, (omega arith, tt)))

commits_in_order_example : IsOrdered 5 (run (start_world 5 2) out_of_order)
commits_in_order_example = commits_in_order 5 2 out_of_order counted

pending_fits_example :
    length (run (start_world 5 2) out_of_order).queue.pending
    ≤ (run (start_world 5 2) out_of_order).queue.window + 1
pending_fits_example = pending_fits 5 2 out_of_order counted

both_accepted : Perm (numbered 5 (50 ∷ 60 ∷ [])) (run (start_world 5 2) out_of_order).accepted
unfolding run step submitted push refuses is_pending drain drain_loop take_ordinal after_commit
    drained_world start_world ordered_commit_queue numbered
both_accepted = Perm.swap record { ordinal = 6; result = 60 } record { ordinal = 5; result = 50 } []

commit_sorts_example :
    ((step (run (start_world 5 2) out_of_order) drain_all).log ≡ 50 ∷ 60 ∷ [])
    × (complete (step (run (start_world 5 2) out_of_order) drain_all).queue ≡ true)
commit_sorts_example = commit_sorts 5 2 out_of_order (50 ∷ 60 ∷ []) ℕ_set counted both_accepted

abbrev some_key : ℕ → GroupKey
some_key m = record { m = m; k = 8; channels = 1; algorithm = nlh; basic = false; residual = true }

abbrev job_at : ℕ → GroupKey → GroupJob GroupKey
job_at ordinal key = record { ordinal = ordinal; x = 0; y = 0; t = 0; key = key }

abbrev three_jobs : List (GroupJob GroupKey)
three_jobs = job_at 0 (some_key 64) ∷ job_at 1 (some_key 16) ∷ job_at 2 (some_key 64) ∷ []

bucket_group_jobs-AreOrdered_example :
    AreOrdered (λ a b. LexLe (weights a) (weights b)) (bucket_group_jobs three_jobs)
    × Perm (bucket_group_jobs three_jobs) three_jobs
    × StrictWeak job_less
bucket_group_jobs-AreOrdered_example = bucket_group_jobs-AreOrdered three_jobs

-- Two slots; frames 9, 4 and 7 come, 9 looks before its turn and sleeps, 4 takes a slot and gives it back.
abbrev turns : List PoolStep
turns = arrive (pos 9) ∷ arrive (pos 4) ∷ arrive (pos 7) ∷ turn 0 ∷ turn 1 ∷ return_slot 0 ∷ []

abbrev two_slots : List ℕ
two_slots = 10 ∷ 11 ∷ []

slot_turns_example :
    Perm
      ((run_pool (start_pool two_slots) turns).pool.free
        ++ (run_pool (start_pool two_slots) turns).leased)
      two_slots
    × ((is_nil (run_pool (start_pool two_slots) turns).pool.free ≡ true)
        ⊎ ((is_nil (run_pool (start_pool two_slots) turns).pool.waiting ≡ true)
            ⊎ IsServed (run_pool (start_pool two_slots) turns)))
slot_turns_example = slot_turns two_slots turns
