-- ===== src/CommitQueue/Loop.antt =====
-- Taking one item, and the loop of drain.
use mathlib.Core.Path.{subst}
use mathlib.Core.Logic.{Lift}
use mathlib.Core.List.Perm
use vapoursynth_nssfactory.Base.{
  ℕ, zero, suc, ◌+◌, ◌≤◌, ◌<◌, ◌^◌, ◌≡◌, refl, ap, List, [], ◌∷◌, Option, none, some, ◌==◌, Perm,
  length, inl, inr, Bool-cases, Option-cases, false, arith, ==_iff,
}
use vapoursynth_nssfactory.CommitQueue.{Item, take_ordinal, is_pending, kept_before}

module _ {ℓ} {R : Type ℓ} where
  -- The items are of ordinals in [next, last], and their successors fit in a uint64.
  abbrev pub InWindow : ℕ → ℕ → List (Item R) → Type 0
  InWindow next last [] = Unit
  InWindow next last (item ∷ items) =
      (next ≤ item.ordinal)
      × (item.ordinal ≤ last)
      × (item.ordinal + 1 < 2 ^ 64)
      × InWindow next last items

  abbrev pub AreDistinct : List (Item R) → Type 0
  AreDistinct [] = Unit
  AreDistinct (item ∷ items) = (is_pending item.ordinal items ≡ false) × AreDistinct items

  -- What taking an item of ordinal `ordinal` out of `items` has found.
  pub record IsTaken (ordinal : ℕ) (items : List (Item R)) (item : Item R) (rest : List (Item R))
      : Type ℓ where
    pub same : item.ordinal ≡ ordinal
    pub perm : Perm (item ∷ rest) items
    pub size : length items ≡ suc (length rest)
    pub pending : (n : ℕ) → is_pending n items ≡ false → is_pending n rest ≡ false
    pub distinct : AreDistinct items → AreDistinct rest × (is_pending ordinal rest ≡ false)
    pub in_window : (next last : ℕ) → InWindow next last items → InWindow next last (item ∷ rest)

  pub IsTaken-cons :
      (ordinal : ℕ) (first : Item R) (items : List (Item R)) (item : Item R) (rest : List (Item R))
      → (first.ordinal == ordinal) ≡ false
      → IsTaken ordinal items item rest
      → IsTaken ordinal (first ∷ items) item (first ∷ rest)
  unfolding is_pending
  IsTaken-cons ordinal first items item rest h t = record {
    same = t.same;
    perm = Perm.trans (Perm.swap first item rest) (Perm.cons first t.perm);
    size = ap suc t.size;
    pending = λ n k. ground (arith, t.pending n);
    distinct = λ d.
        ((t.pending first.ordinal d.0, (t.distinct d.1).0), ground (arith, (t.distinct d.1).1));
    in_window =
        λ n w (l, u, f, k). let (l', u', f', k') = t.in_window n w k in (l', u', f', (l, u, f, k'));
  }

  abbrev pub Outcome : ℕ → List (Item R) → Option (Item R × List (Item R)) → Type ℓ
  Outcome ordinal items none = Lift {0, ℓ} (is_pending ordinal items ≡ false)
  Outcome ordinal items (some (item, rest)) = IsTaken ordinal items item rest

  kept_before-Outcome :
      (ordinal : ℕ) (first : Item R) (items : List (Item R))
      (found : Option (Item R × List (Item R)))
      → (first.ordinal == ordinal) ≡ false
      → Outcome ordinal items found
      → Outcome ordinal (first ∷ items) (kept_before first found)
  unfolding is_pending
  kept_before-Outcome ordinal first items none h t = record { lower = rw h t.lower }
  kept_before-Outcome ordinal first items (some (item, rest)) h t =
      IsTaken-cons ordinal first items item rest h t

  -- With distinct items the one that is found is the only one.
  pub take_ordinal-Outcome :
      (ordinal : ℕ) (items : List (Item R))
      → AreDistinct items
      → Outcome ordinal items (take_ordinal ordinal items)
  unfolding take_ordinal is_pending
  take_ordinal-Outcome ordinal [] d = record { lower = refl }
  take_ordinal-Outcome ordinal (first ∷ items) d = elim (Bool-cases (first.ordinal == ordinal)) [
    | inl e ↦ rw e (record {
      same = (==_iff first.ordinal ordinal).0 e;
      perm = Perm.rfl;
      size = refl;
      pending = λ n k. ground (arith, k);
      distinct = λ k.
          (k.1, subst (λ n. is_pending n items ≡ false) ((==_iff first.ordinal ordinal).0 e) k.0);
      in_window = λ n w k. k;
    })
    | inr e ↦ rw e (
        kept_before-Outcome ordinal first items (take_ordinal ordinal items) e
          (take_ordinal-Outcome ordinal items d.1))
  ]

  pub InWindow-next :
      (next last : ℕ) (items : List (Item R))
      → InWindow next last items
      → is_pending next items ≡ false
      → InWindow (next + 1) last items
  unfolding is_pending
  InWindow-next next last [] h k = tt
  InWindow-next next last (item ∷ items) (l, u, f, h) k =
      (ground arith, u, f, InWindow-next next last items h (ground arith))

  pub InWindow-wider :
      (next last wider : ℕ) (items : List (Item R))
      → last ≤ wider
      → InWindow next last items
      → InWindow next wider items
  InWindow-wider next last wider [] w h = tt
  InWindow-wider next last wider (item ∷ items) w (l, u, f, h) =
      (l, omega arith, f, InWindow-wider next last wider items w h)

  -- Different ordinals in a window of `places` ordinals.
  pub length-InWindow :
      (places next last : ℕ) (items : List (Item R))
      → last < next + places
      → InWindow next last items
      → AreDistinct items
      → length items ≤ places
  length-InWindow places next last [] b h d = omega arith
  length-InWindow zero next last (item ∷ items) b (l, u, f, h) d = absurd (omega arith)
  length-InWindow (suc places) next last items b h d =
      let outcome = take_ordinal-Outcome next items d in
      elim (Option-cases (take_ordinal next items)) [
        | inl missing ↦
            let later =
              InWindow-next next last items h (subst (Outcome next items) missing outcome).lower in
            omega (arith, length-InWindow places (next + 1) last items (omega arith) later d)
        | inr ((item, rest), found) ↦
            let taken : IsTaken next items item rest = subst (Outcome next items) found outcome in
            let (l, u, f, window) = taken.in_window next last h in
            let (distinct, only) = taken.distinct d in
            let later = InWindow-next next last rest window only in
            omega (
              arith,
              taken.size,
              length-InWindow places (next + 1) last rest (omega arith) later distinct,
            )
      ]
