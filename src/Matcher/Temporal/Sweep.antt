-- ===== src/Matcher/Temporal/Sweep.antt =====
-- A row of a layer: the intervals of columns, and the columns that the sweep over them visits.
use mathlib.Core.Bool.{Bool-set}
use mathlib.Core.List.{Permᴰ}
use mathlib.Core.Logic.{∥∥₁_elim}
use mathlib.Core.Path.{ap₂}
use vapoursynth_nssfactory.Base.{
  ℕ, zero, suc, ◌+◌, ◌-◌, ◌≤◌, ◌≡◌, refl, ◌∙◌, inl, inr, Bool, true, false, ◌&&◌, ◌||◌, not, ltb,
  leb, ◌==◌, if◌then◌else◌, max, List, [], ◌∷◌, ◌++◌, Perm, arith, Bool-cases,
}
use vapoursynth_nssfactory.Matcher.Order.{StrictWeak, by-StrictWeak, then_by-StrictWeak}
use vapoursynth_nssfactory.Matcher.TopK.Sort.{sort, sort-IsSorted, sort-perm, IsSorted, AllAfter}
use vapoursynth_nssfactory.Matcher.Temporal.{Interval, interval_less, columns_from, sweep}

-- Whether a column is in one of the intervals.
abbrev pub in_interval : ℕ → Interval → Bool
in_interval x i = leb i.0 x && leb x i.1

abbrev pub covered : ℕ → List Interval → Bool
covered x [] = false
covered x (i ∷ is) = in_interval x i || covered x is

-- How often a number is in a list.
abbrev pub times : ℕ → List ℕ → ℕ
times x [] = 0
times x (y ∷ ys) = if y == x then suc (times x ys) else times x ys

pub times-append : (x : ℕ) (xs ys : List ℕ) → times x (xs ++ ys) ≡ times x xs + times x ys
times-append x [] ys = omega arith
times-append x (y ∷ xs) ys = ground (arith, times-append x xs ys)

times-columns :
    (x count start : ℕ)
    → times x (columns_from count start) ≡ (if leb start x && ltb x (start + count) then 1 else 0)
times-columns x zero start = ground arith
times-columns x (suc count) start = ground (arith, times-columns x count (suc start))

-- No interval begins before one that is left of it in the list.
abbrev Begins : ℕ → List Interval → Type 0
Begins a [] = Unit
Begins a (i ∷ is) = (a ≤ i.0) × Begins a is

abbrev AreOrdered : List Interval → Type 0
AreOrdered [] = Unit
AreOrdered (i ∷ is) = Begins i.0 is × AreOrdered is

covered-Begins : (x a : ℕ) (is : List Interval) → Begins a is → covered x is ≡ true → a ≤ x
covered-Begins x a [] h c = absurd (ground arith)
covered-Begins x a (i ∷ is) (h, rest) c = elim (Bool-cases (in_interval x i)) [
  | inl here ↦ ground arith
  | inr there ↦ covered-Begins x a is rest (ground arith)
]

first_le : (x first : ℕ) → first ≤ x → leb first x ≡ true
first_le x first h = ground arith

-- One interval of the sweep, in numbers.
visited_now :
    (x next first last : ℕ)
    → (leb (max next first) x && ltb x (max next first + (suc last - max next first)))
      ≡ (leb next x && (leb first x && leb x last))
visited_now x next first last = ground arith

visited_later : (x next last : ℕ) → leb (max next (suc last)) x ≡ (leb next x && not (leb x last))
visited_later x next last = ground arith

one_visit :
    (from_next from_first to_last later : Bool)
    → (later ≡ true → from_first ≡ true)
    → (if from_next && (from_first && to_last) then 1 else 0)
        + (if (from_next && not to_last) && later then 1 else 0)
      ≡ (if from_next && ((from_first && to_last) || later) then 1 else 0)
one_visit false f l later h = refl
one_visit true true true later h = refl
one_visit true true false later h = omega arith
one_visit true false l true h = absurd (ground (arith, h refl))
one_visit true false true false h = refl
one_visit true false false false h = refl

-- The sweep over ordered intervals visits each column from `next` on that they cover, once.
times-sweep :
    (x next : ℕ) (is : List Interval)
    → AreOrdered is
    → times x (sweep next is) ≡ (if leb next x && covered x is then 1 else 0)
unfolding sweep
times-sweep x next [] h = ground arith
times-sweep x next ((first, last) ∷ is) (begins, h) =
    let start = max next first in
    times-append x (columns_from (suc last - start) start) (sweep (max next (suc last)) is)
    ∙ rw
        (
          times-columns x (suc last - start) start,
          times-sweep x (max next (suc last)) is h,
          visited_now x next first last,
          visited_later x next last,
        )
        (one_visit (leb next x) (leb first x) (leb x last) (covered x is)
          (λ c. first_le x first (covered-Begins x first is begins c)))

-- std::sort puts the intervals into that order, and keeps what they cover.
interval_less-StrictWeak : StrictWeak interval_less
interval_less-StrictWeak =
    then_by-StrictWeak (λ (i : Interval). i.0) (by-StrictWeak (λ (i : Interval). i.1))

AllAfter-Begins : (i : Interval) (is : List Interval) → AllAfter interval_less i is → Begins i.0 is
AllAfter-Begins i [] h = tt
AllAfter-Begins i (j ∷ is) (h, rest) = (ground arith, AllAfter-Begins i is rest)

IsSorted-AreOrdered : (is : List Interval) → IsSorted interval_less is → AreOrdered is
IsSorted-AreOrdered [] h = tt
IsSorted-AreOrdered (i ∷ is) (h, rest) = (AllAfter-Begins i is h, IsSorted-AreOrdered is rest)

or_swap : (a b c : Bool) → (a || (b || c)) ≡ (b || (a || c))
or_swap true true c = refl
or_swap true false c = refl
or_swap false b c = refl

covered-permᴰ : (x : ℕ) {is js : List Interval} → Permᴰ is js → covered x is ≡ covered x js
covered-permᴰ x Permᴰ.nil = refl
covered-permᴰ x (Permᴰ.cons e p) = ap₂ (λ i b. in_interval x i || b) e (covered-permᴰ x p)
covered-permᴰ x (Permᴰ.swap {l = l} e f) =
    or_swap (in_interval x _) (in_interval x _) (covered x l)
    ∙ ap₂ (λ i j. in_interval x i || (in_interval x j || covered x l)) f e
covered-permᴰ x (Permᴰ.trans p q) = covered-permᴰ x p ∙ covered-permᴰ x q

covered-perm : (x : ℕ) {is js : List Interval} → Perm is js → covered x is ≡ covered x js
covered-perm x p = ∥∥₁_elim p (Bool-set _ _) (covered-permᴰ x)

-- The columns of a row: those that an interval covers, each once, whatever the order of the intervals.
pub times-row :
    (x : ℕ) (is : List Interval)
    → times x (sweep 0 (sort interval_less is)) ≡ (if covered x is then 1 else 0)
times-row x is =
    times-sweep x 0 (sort interval_less is)
      (IsSorted-AreOrdered _ (sort-IsSorted interval_less-StrictWeak is))
    ∙ rw (covered-perm x (sort-perm interval_less is)) (ground arith)
