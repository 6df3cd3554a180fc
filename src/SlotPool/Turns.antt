-- ===== src/SlotPool/Turns.antt =====
-- Who is awake: the lists of waiters.
use mathlib.Core.Path.{subst}
use vapoursynth_nssfactory.Base.{
  ℕ, zero, suc, ◌≡◌, refl, ap, inl, inr, Bool, true, false, ◌&&◌, ◌||◌, not, List, [], ◌∷◌, ◌++◌,
  some, ℤ, ltb_ℤ, set, get_elem?, arith, Bool-cases,
}
use vapoursynth_nssfactory.SlotPool.{Waiter, SlotPool, is_nil, is_lowest, wake_all}

-- Every waiter of `ws` that none of `all` is below is awake.
unfoldable pub lowest_awake : List Waiter → List Waiter → Bool
lowest_awake all [] = true
lowest_awake all (w ∷ ws) = (w.awake || not (is_lowest w.order all)) && lowest_awake all ws

-- Where a slot is free, the waiters whose turn it is are awake.
unfoldable pub is_attentive {ℓ} : {S : Type ℓ} → SlotPool S → Bool
is_attentive pool = is_nil pool.free || lowest_awake pool.waiting pool.waiting

pub lowest_awake-wake_all : (all ws : List Waiter) → lowest_awake all (wake_all ws) ≡ true
unfolding lowest_awake wake_all
lowest_awake-wake_all all [] = refl
lowest_awake-wake_all all (w ∷ ws) = lowest_awake-wake_all all ws

is_lowest-append :
    (order : ℤ) (ws : List Waiter) (me : Waiter)
    → is_lowest order ws ≡ false
    → is_lowest order (ws ++ me ∷ []) ≡ false
unfolding is_lowest
is_lowest-append order [] me h = absurd (ground arith)
is_lowest-append order (w ∷ ws) me h = ground (arith, is_lowest-append order ws me)

pub lowest_awake-append :
    (all ws : List Waiter) (me : Waiter)
    → me.awake ≡ true
    → lowest_awake all ws ≡ true
    → lowest_awake (all ++ me ∷ []) (ws ++ me ∷ []) ≡ true
unfolding lowest_awake
lowest_awake-append all [] me a h = ground arith
lowest_awake-append all (w ∷ ws) me a h =
    ground (arith, is_lowest-append w.order all me, lowest_awake-append all ws me)

-- A waiter that goes to sleep keeps its order, so the lowest stay the lowest.
pub is_lowest-sleep :
    (order : ℤ) (ws : List Waiter) (i : ℕ) (me : Waiter)
    → get_elem? ws i ≡ some me
    → is_lowest order (set ws i record { order = me.order; awake = false }) ≡ is_lowest order ws
unfolding is_lowest
is_lowest-sleep order [] i me h = refl
is_lowest-sleep order (w ∷ ws) zero me h = ground arith
is_lowest-sleep order (w ∷ ws) (suc i) me h =
    ap (λ b. not (ltb_ℤ w.order order) && b) (is_lowest-sleep order ws i me h)

pub lowest_awake-cong :
    (a b ws : List Waiter)
    → ((order : ℤ) → is_lowest order a ≡ is_lowest order b)
    → lowest_awake a ws ≡ lowest_awake b ws
unfolding lowest_awake
lowest_awake-cong a b [] h = refl
lowest_awake-cong a b (w ∷ ws) h = rw (h w.order, lowest_awake-cong a b ws h) refl

pub lowest_awake-set :
    (all ws : List Waiter) (i : ℕ) (me : Waiter)
    → get_elem? ws i ≡ some me
    → is_lowest me.order all ≡ false
    → lowest_awake all ws ≡ true
    → lowest_awake all (set ws i record { order = me.order; awake = false }) ≡ true
unfolding lowest_awake
lowest_awake-set all [] i me e l h = refl
lowest_awake-set all (w ∷ ws) zero me e l h = ground arith
lowest_awake-set all (w ∷ ws) (suc i) me e l h = ground (arith, lowest_awake-set all ws i me e l)

pub lowest_awake-at :
    (all ws : List Waiter) (i : ℕ) (me : Waiter)
    → get_elem? ws i ≡ some me
    → is_lowest me.order all ≡ true
    → lowest_awake all ws ≡ true
    → me.awake ≡ true
unfolding lowest_awake
lowest_awake-at all [] i me e l h = absurd (ground arith)
lowest_awake-at all (w ∷ ws) zero me e l h =
    let same : w ≡ me = ground arith in
    subst (λ (v : Waiter). v.awake ≡ true) same
      (ground (arith, ap (λ (v : Waiter). is_lowest v.order all) same))
lowest_awake-at all (w ∷ ws) (suc i) me e l h = lowest_awake-at all ws i me e l (ground arith)

is_lowest-below :
    (low order : ℤ) (ws : List Waiter)
    → ltb_ℤ low order ≡ true
    → is_lowest order ws ≡ true
    → is_lowest low ws ≡ true
unfolding is_lowest
is_lowest-below low order [] h l = refl
is_lowest-below low order (w ∷ ws) h l = ground (arith, is_lowest-below low order ws h)

pub lowest_exists :
    (w : Waiter) (ws : List Waiter)
    → (i : ℕ) × (me : Waiter) × (get_elem? (w ∷ ws) i ≡ some me)
      × (is_lowest me.order (w ∷ ws) ≡ true)
unfolding is_lowest
lowest_exists w [] = (0, w, refl, ground arith)
lowest_exists w (v ∷ ws) =
    let (i, me, at, lowest) = lowest_exists v ws in
    elim (Bool-cases (ltb_ℤ w.order me.order)) [
      | inl below ↦
          (0, w, refl, ground (arith, is_lowest-below w.order me.order (v ∷ ws) below lowest))
      | inr above ↦ (suc i, me, at, ground (arith, lowest))
    ]
