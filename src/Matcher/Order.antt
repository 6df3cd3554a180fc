-- ===== src/Matcher/Order.antt =====
-- The order of matches is the lexicographic order of seven numbers.
use mathlib.Core.Path.{subst, fun_ext}
use vapoursynth_nssfactory.Base.{
  ℕ, ◌≡◌, sym, ap, ◌∙◌, inl, inr, Bool, true, false, not, ltb, ◌==◌, if◌then◌else◌, arith,
  Bool-cases,
}
use vapoursynth_nssfactory.Float.{rank, is_finite_bits, float_lt-rank, float_ne-rank}
use vapoursynth_nssfactory.Matcher.{Match, match_tie_less, match_less}

-- A strict order in which not coming after is transitive: any two values that neither comes before
-- are alike.
pub record StrictWeak {ℓ} {A : Type ℓ} (less : A → A → Bool) : Type ℓ where
  pub asym : (a b : A) → less a b ≡ true → less b a ≡ false
  pub trans : (a b c : A) → less b a ≡ false → less c b ≡ false → less c a ≡ false

module _ {ℓ} {A : Type ℓ} where
  -- By a number, and by a first order with a second one for what the first does not tell apart.
  abbrev pub by : (A → ℕ) → A → A → Bool
  by key a b = ltb (key a) (key b)

  abbrev pub then_by : (A → ℕ) → (A → A → Bool) → A → A → Bool
  then_by key less a b =
      if ltb (key a) (key b) then true else if ltb (key b) (key a) then false else less a b

  pub by-StrictWeak : (key : A → ℕ) → StrictWeak (by key)
  by-StrictWeak key = record { asym = λ a b h. ground arith; trans = λ a b c h k. ground arith }

  pub then_by-StrictWeak :
      (key : A → ℕ) {less : A → A → Bool} → StrictWeak less → StrictWeak (then_by key less)
  then_by-StrictWeak key s = record {
    asym = λ a b h. ground (arith, s.asym a b);
    trans = λ a b c h k. ground (arith, s.trans a b c);
  }

-- The keys: finite distances first, by their value; the reference block; frame, row and column.
abbrev pub infinite_key : Match → ℕ
infinite_key m = if is_finite_bits m.dist then 0 else 1

abbrev pub distance_key : Match → ℕ
distance_key m = if is_finite_bits m.dist then rank m.dist else 0

abbrev pub other_key : Match → ℕ
other_key m = if m.ordinal == 0 then 0 else 1

abbrev pub x_order : Match → Match → Bool
x_order = then_by (λ m. m.x) (by λ m. m.ordinal)

abbrev pub y_order : Match → Match → Bool
y_order = then_by (λ m. m.y) x_order

abbrev pub t_order : Match → Match → Bool
t_order = then_by (λ m. m.t) y_order

abbrev pub tie_order : Match → Match → Bool
tie_order = then_by other_key t_order

abbrev pub distance_order : Match → Match → Bool
distance_order = then_by distance_key tie_order

abbrev pub match_order : Match → Match → Bool
match_order = then_by infinite_key distance_order

tie_less-order : (a b : Match) → match_tie_less a b ≡ tie_order a b
unfolding match_tie_less
tie_less-order a b = ground arith

by_number :
    (p q : ℕ) (t : Bool)
    → (if not (p == q) then ltb p q else t)
      ≡ (if ltb p q then true else if ltb q p then false else t)
by_number p q t = ground arith

-- `match_less` compares finiteness, distance, self, frame, row, column and ordinal, in this order.
pub match_less-order : (a b : Match) → match_less a b ≡ match_order a b
unfolding match_less
match_less-order a b = elim (Bool-cases (is_finite_bits a.dist)) [
  | inl fa ↦ elim (Bool-cases (is_finite_bits b.dist)) [
    | inl fb ↦
        rw (fa, fb, float_ne-rank _ _ fa fb, float_lt-rank _ _ fa fb)
          (by_number (rank a.dist) (rank b.dist) (match_tie_less a b)
            ∙ ap
                (λ t.
                  if ltb (rank a.dist) (rank b.dist)
                  then true
                  else if ltb (rank b.dist) (rank a.dist)
                  then false
                  else t)
                (tie_less-order a b))
    | inr fb ↦ rw (fa, fb)
  ]
  | inr fa ↦ elim (Bool-cases (is_finite_bits b.dist)) [
    | inl fb ↦ rw (fa, fb)
    | inr fb ↦ rw (fa, fb) (tie_less-order a b)
  ]
]

match_order-StrictWeak : StrictWeak match_order
match_order-StrictWeak = then_by-StrictWeak infinite_key (
    then_by-StrictWeak distance_key (
      then_by-StrictWeak other_key (
        then_by-StrictWeak (λ m. m.t)
          (then_by-StrictWeak (λ m. m.y)
            (then_by-StrictWeak (λ m. m.x) (by-StrictWeak λ m. m.ordinal))))))

-- `match_less` is a strict weak order, as std::sort wants.
pub match_less-StrictWeak : StrictWeak match_less
match_less-StrictWeak =
    subst StrictWeak (sym (fun_ext λ a. fun_ext λ b. match_less-order a b)) match_order-StrictWeak

then_by_alike {ℓ} :
    {A : Type ℓ} (key : A → ℕ) (less : A → A → Bool) (a b : A)
    → then_by key less a b ≡ false
    → then_by key less b a ≡ false
    → (key a ≡ key b) × (less a b ≡ false) × (less b a ≡ false)
then_by_alike key less a b h k = (ground arith, ground arith, ground arith)

tie_alike :
    (a b : Match)
    → tie_order a b ≡ false
    → tie_order b a ≡ false
    → (a.x ≡ b.x) × (a.y ≡ b.y) × (a.t ≡ b.t) × (a.ordinal ≡ b.ordinal)
tie_alike a b h k =
    let (_, h₁, k₁) = then_by_alike other_key t_order a b h k in
    let (t, h₂, k₂) = then_by_alike (λ m. m.t) y_order a b h₁ k₁ in
    let (y, h₃, k₃) = then_by_alike (λ m. m.y) x_order a b h₂ k₂ in
    let (x, h₄, k₄) = then_by_alike (λ m. m.x) (by λ m. m.ordinal) a b h₃ k₃ in
    (x, y, t, ground arith)

order_alike :
    (a b : Match)
    → match_order a b ≡ false
    → match_order b a ≡ false
    → (a.x ≡ b.x) × (a.y ≡ b.y) × (a.t ≡ b.t) × (a.ordinal ≡ b.ordinal)
order_alike a b h k =
    let (_, h₁, k₁) = then_by_alike infinite_key distance_order a b h k in
    let (_, h₂, k₂) = then_by_alike distance_key tie_order a b h₁ k₁ in tie_alike a b h₂ k₂

-- Two matches that neither comes before the other have the same place, frame and ordinal, and
-- are alike in being finite.
pub match_less_alike :
    (a b : Match)
    → match_less a b ≡ false
    → match_less b a ≡ false
    → (a.x ≡ b.x) × (a.y ≡ b.y) × (a.t ≡ b.t) × (a.ordinal ≡ b.ordinal)
match_less_alike a b h k =
    order_alike a b (sym (match_less-order a b) ∙ h) (sym (match_less-order b a) ∙ k)
