-- ===== src/SlotPool/Laws.antt =====
-- No slot is lost, and no wake-up.
use mathlib.Core.Path.{subst}
use mathlib.Core.List.{append_assoc, append-nil}
use mathlib.Core.List.Perm
use vapoursynth_nssfactory.Base.{
  ℕ, zero, suc, ◌≡◌, refl, ap, ◌∙◌, ◌⊎◌, inl, inr, Bool, true, false, ◌||◌, not, List, [], ◌∷◌,
  ◌++◌, Option, none, some, Perm, if◌then◌else◌, ℤ, get_elem?, arith, Bool-cases,
}
use vapoursynth_nssfactory.SlotPool.{
  Waiter, SlotPool, is_nil, is_lowest, wake_all, remove_at, begin_wait, sleep, take_turn, give_back,
  World, Step, arrive, turn, return_slot, test_turn, turn_of, return_at, step, run, start_world,
  slot_pool,
}
use vapoursynth_nssfactory.SlotPool.Turns.{
  is_attentive, lowest_awake, lowest_awake-wake_all, lowest_awake-append, is_lowest-sleep,
  lowest_awake-cong, lowest_awake-set, lowest_awake-at, lowest_exists,
}

or_true : (a b : Bool) → b ≡ true → (a || b) ≡ true
or_true a b h = ground arith

-- The waiters left, woken if there are any.
kept_awake :
    (ws : List Waiter)
    → let woken = if not (is_nil ws) then wake_all ws else ws in lowest_awake woken woken ≡ true
unfolding lowest_awake
kept_awake [] = refl
kept_awake (w ∷ ws) = lowest_awake-wake_all (wake_all (w ∷ ws)) (w ∷ ws)

module _ {ℓ} {S : Type ℓ} where
  begin_wait-attentive :
      (pool : SlotPool S) (order : ℤ)
      → is_attentive pool ≡ true
      → is_attentive (begin_wait pool order) ≡ true
  unfolding is_attentive begin_wait
  begin_wait-attentive pool order h = ground (
    arith,
    lowest_awake-append pool.waiting pool.waiting record { order = order; awake = true } refl,
  )

  -- A waiter sleeps only where no slot is free, or where it is not its turn.
  sleep-attentive :
      (pool : SlotPool S) (i : ℕ) (me : Waiter)
      → get_elem? pool.waiting i ≡ some me
      → (is_nil pool.free ≡ true) ⊎ (is_lowest me.order pool.waiting ≡ false)
      → is_attentive pool ≡ true
      → is_attentive (sleep pool i me) ≡ true
  unfolding is_attentive sleep
  sleep-attentive pool i me at (inl none_free) h = rw none_free refl
  sleep-attentive pool i me at (inr not_lowest) h = elim (Bool-cases (is_nil pool.free)) [
    | inl none_free ↦ rw none_free refl
    | inr some_free ↦
        let awake : lowest_awake pool.waiting pool.waiting ≡ true = ground arith in
        rw some_free (
          lowest_awake-cong _ pool.waiting _ (λ order. is_lowest-sleep order pool.waiting i me at)
          ∙ lowest_awake-set pool.waiting pool.waiting i me at not_lowest awake)
  ]

  take_turn-attentive :
      (pool : SlotPool S) (i : ℕ) (rest : List S) → is_attentive (take_turn pool i rest) ≡ true
  unfolding is_attentive take_turn
  take_turn-attentive pool i rest = elim (Bool-cases (is_nil rest)) [
    | inl last ↦ rw last refl
    | inr more ↦ rw more (kept_awake (remove_at i pool.waiting))
  ]

  give_back-attentive : (pool : SlotPool S) (slot : S) → is_attentive (give_back pool slot) ≡ true
  unfolding is_attentive give_back
  give_back-attentive pool slot = or_true _ _ (kept_awake pool.waiting)

  Perm-middle : (xs ys : List S) (a : S) → Perm (xs ++ a ∷ ys) (a ∷ (xs ++ ys))
  Perm-middle [] ys a = Perm.rfl
  Perm-middle (x ∷ xs) ys a =
      Perm.trans (Perm.cons x (Perm-middle xs ys a)) (Perm.swap a x (xs ++ ys))

  get_elem?-Perm :
      (xs : List S) (i : ℕ) (x : S) → get_elem? xs i ≡ some x → Perm (x ∷ remove_at i xs) xs
  unfolding remove_at
  get_elem?-Perm [] i x h = absurd (ground arith)
  get_elem?-Perm (y ∷ xs) zero x h = let same : y ≡ x = ground arith in rw same Perm.rfl
  get_elem?-Perm (y ∷ xs) (suc i) x h =
      Perm.trans (Perm.swap y x (remove_at i xs)) (Perm.cons y (get_elem?-Perm xs i x h))

  -- What holds of a pool whose slots are `slots`.
  pub record IsKept (slots : List S) (w : World S) : Type ℓ where
    pub perm : Perm (w.pool.free ++ w.leased) slots
    pub attentive : is_attentive w.pool ≡ true

  test_turn-IsKept :
      (slots : List S) (w : World S) (i : ℕ) (me : Waiter) (free : List S)
      → get_elem? w.pool.waiting i ≡ some me
      → w.pool.free ≡ free
      → IsKept slots w
      → IsKept slots (test_turn w i me free)
  unfolding test_turn
  test_turn-IsKept slots w i me [] at f k = record {
    perm = k.perm;
    attentive = sleep-attentive w.pool i me at (inl (rw f refl)) k.attentive;
  }
  test_turn-IsKept slots w i me (slot ∷ rest) at f k =
      elim (Bool-cases (is_lowest me.order w.pool.waiting)) [
        | inl mine ↦ rw mine record {
          perm =
              Perm.trans (Perm-middle rest w.leased slot)
                (subst (λ xs. Perm (xs ++ w.leased) slots) f k.perm);
          attentive = take_turn-attentive w.pool i rest;
        }
        | inr not_mine ↦ rw not_mine record {
          perm = k.perm;
          attentive = sleep-attentive w.pool i me at (inr not_mine) k.attentive;
        }
      ]

  turn_of-IsKept :
      (slots : List S) (w : World S) (i : ℕ) (found : Option Waiter)
      → get_elem? w.pool.waiting i ≡ found
      → IsKept slots w
      → IsKept slots (turn_of w i found)
  unfolding turn_of
  turn_of-IsKept slots w i none at k = k
  turn_of-IsKept slots w i (some me) at k = elim (Bool-cases me.awake) [
    | inl awake ↦ rw awake (test_turn-IsKept slots w i me w.pool.free at refl k)
    | inr asleep ↦ rw asleep k
  ]

  return_at-IsKept :
      (slots : List S) (w : World S) (i : ℕ) (found : Option S)
      → get_elem? w.leased i ≡ found
      → IsKept slots w
      → IsKept slots (return_at w i found)
  unfolding return_at give_back
  return_at-IsKept slots w i none at k = k
  return_at-IsKept slots w i (some slot) at k = record {
    perm =
        rw (append_assoc w.pool.free (slot ∷ []) (remove_at i w.leased))
          (Perm.trans (Perm.append_left w.pool.free (get_elem?-Perm w.leased i slot at)) k.perm);
    attentive = give_back-attentive w.pool slot;
  }

  step-IsKept : (slots : List S) (w : World S) (s : Step) → IsKept slots w → IsKept slots (step w s)
  unfolding step begin_wait
  step-IsKept slots w (arrive order) k = record {
    perm = k.perm;
    attentive = begin_wait-attentive w.pool order k.attentive;
  }
  step-IsKept slots w (turn i) k = turn_of-IsKept slots w i _ refl k
  step-IsKept slots w (return_slot i) k = return_at-IsKept slots w i _ refl k

  run-IsKept :
      (slots : List S) (ss : List Step) (w : World S) → IsKept slots w → IsKept slots (run w ss)
  unfolding run
  run-IsKept slots [] w k = k
  run-IsKept slots (s ∷ ss) w k = run-IsKept slots ss (step w s) (step-IsKept slots w s k)

  start-IsKept : (slots : List S) → IsKept slots (start_world slots)
  unfolding start_world slot_pool is_attentive lowest_awake
  start-IsKept slots = record {
    perm = rw (append-nil slots) Perm.rfl;
    attentive = or_true (is_nil slots) _ refl;
  }

  -- A waiter of the lowest order, which is awake, and takes the slot that is free the longest.
  pub record IsServed (w : World S) : Type ℓ where
    pub place : ℕ
    pub waiter : Waiter
    pub slot : S
    pub waits : get_elem? w.pool.waiting place ≡ some waiter
    pub lowest : is_lowest waiter.order w.pool.waiting ≡ true
    pub oldest : get_elem? w.pool.free 0 ≡ some slot
    pub takes : (step w (turn place)).leased ≡ slot ∷ w.leased

  attentive-IsServed :
      (w : World S) (slot : S) (rest : List S) (first : Waiter) (others : List Waiter)
      → w.pool.free ≡ slot ∷ rest
      → w.pool.waiting ≡ first ∷ others
      → is_attentive w.pool ≡ true
      → IsServed w
  unfolding is_attentive step turn_of test_turn
  attentive-IsServed w slot rest first others f e h =
      let (i, me, at, lowest) = lowest_exists first others in
      let waits : get_elem? w.pool.waiting i ≡ some me = ap (λ ws. get_elem? ws i) e ∙ at in
      let is_low : is_lowest me.order w.pool.waiting ≡ true =
        ap (λ ws. is_lowest me.order ws) e ∙ lowest in
      let some_free : is_nil w.pool.free ≡ false = rw f refl in
      let awake : me.awake ≡ true =
        lowest_awake-at w.pool.waiting w.pool.waiting i me waits is_low
          (ground (arith, h, some_free)) in
      record {
        place = i;
        waiter = me;
        slot = slot;
        waits = waits;
        lowest = is_low;
        oldest = rw f refl;
        takes = rw (waits, awake, f, is_low) refl;
      }

  turns_or_idle :
      (w : World S)
      → is_attentive w.pool ≡ true
      → (free : List S) (waiting : List Waiter) → w.pool.free ≡ free
      → w.pool.waiting ≡ waiting
      → (is_nil w.pool.free ≡ true) ⊎ ((is_nil w.pool.waiting ≡ true) ⊎ IsServed w)
  turns_or_idle w h [] waiting f e = inl (rw f refl)
  turns_or_idle w h (slot ∷ rest) [] f e = inr (inl (rw e refl))
  turns_or_idle w h (slot ∷ rest) (first ∷ others) f e =
      inr (inr (attentive-IsServed w slot rest first others f e h))

  -- Whatever the threads do: the free and the leased slots are the slots of the pool, each once; and if
  -- a slot is free and a thread waits, then a waiter of the lowest order is awake, and its next look
  -- leases it the slot that has been free the longest. So no wake-up is lost.
  pub slot_turns :
      (slots : List S) (ss : List Step)
      → let w = run (start_world slots) ss in
        Perm (w.pool.free ++ w.leased) slots
        × ((is_nil w.pool.free ≡ true) ⊎ ((is_nil w.pool.waiting ≡ true) ⊎ IsServed w))
  slot_turns slots ss =
      let w = run (start_world slots) ss in
      let k = run-IsKept slots ss (start_world slots) (start-IsKept slots) in
      (k.perm, turns_or_idle w k.attentive w.pool.free w.pool.waiting refl refl)
