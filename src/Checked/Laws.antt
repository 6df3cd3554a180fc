-- ===== src/Checked/Laws.antt =====
-- What the checked operations of include/nss/checked.hpp return, in exact arithmetic.
use native.Mathlib.Nat.{mul_assoc, one-mul, zero-add}
use vapoursynth_nssfactory.Base.{
  ℕ, ◌+◌, ◌*◌, ◌%◌, ◌^◌, ◌≤◌, ◌<◌, ◌≡◌, refl, inl, inr, Bool, true, false, List, [], ◌∷◌, leb,
  if◌then◌else◌, arith, pos, negsuc, ok, err, bad_array_new_length, overflow_error, Bool-cases,
  leb→le, ◌&&◌,
}
use vapoursynth_nssfactory.Checked.{
  size_max, int_max, checked_add, Term, signed, unsigned, add_term, sum_from, checked_sum,
  checked_mul, product_from, checked_product, checked_int, checked_fat_height,
}

-- `checked_add` returns the exact sum if it fits in a size_t, and throws if it does not.
pub checked_add_lem :
    (a b : ℕ)
    → a ≤ size_max
    → checked_add a b ≡ (if leb (a + b) size_max then ok (a + b) else err bad_array_new_length)
unfolding checked_add
checked_add_lem a b h = ground arith

-- So for `checked_mul`.
pub checked_mul_lem :
    (a b : ℕ)
    → checked_mul a b ≡ (if leb (a * b) size_max then ok (a * b) else err bad_array_new_length)
unfolding checked_mul
checked_mul_lem a b = grind arith

-- The exact value of a list of factors, and that each of them is positive.
abbrev pub product : List ℕ → ℕ
product [] = 1
product (f ∷ fs) = f * product fs

abbrev pub AllPositive : List ℕ → Type 0
AllPositive [] = Unit {0}
AllPositive (f ∷ fs) = (0 < f) × AllPositive fs

product_pos : (fs : List ℕ) → AllPositive fs → 0 < product fs
product_pos [] h = omega arith
product_pos (f ∷ fs) h = grind (arith, product_pos fs h.1)

product_from_lem :
    (value : ℕ) (fs : List ℕ)
    → 0 < value
    → AllPositive fs
    → value ≤ size_max
    → product_from value fs ≡ (
        if leb (value * product fs) size_max
        then ok (value * product fs)
        else err bad_array_new_length)
unfolding product_from
product_from_lem value [] p h b = ground arith
product_from_lem value (f ∷ fs) p h b = elim (Bool-cases (leb (value * f) size_max)) [
  | inl fits ↦
      rw (checked_mul_lem value f, fits, ← mul_assoc value f (product fs))
        (product_from_lem (value * f) fs (grind arith) h.1 (leb→le _ _ fits))
  | inr over ↦
      rw
        (
          checked_mul_lem value f,
          over,
          ← mul_assoc value f (product fs),
          exceeds (value * f) (product fs) over (product_pos fs h.1),
        )
        refl
]
  where
    exceeds : (a b : ℕ) → leb a size_max ≡ false → 0 < b → leb (a * b) size_max ≡ false
    exceeds a b h p = grind arith

-- For positive factors `checked_product` returns the exact product if it fits in a size_t, and
-- throws if it does not.
pub checked_product_lem :
    (fs : List ℕ)
    → AllPositive fs
    → checked_product fs
      ≡ (if leb (product fs) size_max then ok (product fs) else err bad_array_new_length)
unfolding checked_product
checked_product_lem fs h =
    rw (← one-mul (product fs)) (product_from_lem 1 fs (omega arith) h (omega arith))

-- The exact value of a list of terms, and that none of them is negative.
abbrev pub total : List Term → ℕ
total [] = 0
total (unsigned n ∷ ts) = n + total ts
total (signed (pos n) ∷ ts) = n + total ts
total (signed (negsuc n) ∷ ts) = total ts

abbrev pub none_negative : List Term → Bool
none_negative [] = true
none_negative (unsigned n ∷ ts) = none_negative ts
none_negative (signed (pos n) ∷ ts) = none_negative ts
none_negative (signed (negsuc n) ∷ ts) = false

sum_from_lem :
    (value : ℕ) (ts : List Term)
    → value ≤ size_max
    → sum_from value ts ≡ (
        if none_negative ts && leb (value + total ts) size_max
        then ok (value + total ts)
        else err bad_array_new_length)
unfolding sum_from add_term
sum_from_lem value [] b = ground arith
sum_from_lem value (unsigned n ∷ ts) b =
    ground (arith, checked_add_lem value n b, sum_from_lem (value + n) ts)
sum_from_lem value (signed (pos n) ∷ ts) b =
    ground (arith, checked_add_lem value n b, sum_from_lem (value + n) ts)
sum_from_lem value (signed (negsuc n) ∷ ts) b = refl

-- `checked_sum` returns the exact sum if no term is negative and the sum fits in a size_t, and
-- throws in every other case.
pub checked_sum_lem :
    (ts : List Term)
    → checked_sum ts ≡ (
        if none_negative ts && leb (total ts) size_max
        then ok (total ts)
        else err bad_array_new_length)
unfolding checked_sum
checked_sum_lem ts = rw (← zero-add (total ts)) (sum_from_lem 0 ts (omega arith))

product_bound : (a b c d : ℕ) → a ≤ c → b ≤ d → a * b ≤ c * d
product_bound a b c d h k = grind arith

-- For every height of at least 1 and every radius that an int can hold, none of the std::uint64_t
-- operations of `checked_fat_height` wraps: it returns height * (2 * radius + 1) * 2 if that fits
-- in an int, and throws an overflow error if it does not.
pub checked_fat_height_lem :
    (height radius : ℕ)
    → height ≤ int_max
    → radius ≤ int_max
    → 1 ≤ height
    → checked_fat_height (pos height) (pos radius) ≡ (
        if leb (height * (2 * radius + 1) * 2) int_max
        then ok (height * (2 * radius + 1) * 2)
        else err (overflow_error "nss: size exceeds the kernel integer range"))
unfolding checked_fat_height checked_int
checked_fat_height_lem height radius h r p =
    let slices : to_slices ≡ 2 * radius + 1 = omega arith in
    let small : height * (2 * radius + 1) ≤ int_max * 4294967295 =
      product_bound height (2 * radius + 1) int_max 4294967295 h (omega arith) in
    let whole : height % 2 ^ 64 ≡ height = omega arith in
    let exact : wrapped (2 * radius + 1) ≡ height * (2 * radius + 1) * 2 = rw whole (omega arith) in
    let value : wrapped to_slices ≡ height * (2 * radius + 1) * 2 = rw slices exact in
    ground (arith, value)
  where
    to_slices : ℕ
    to_slices = (2 * (radius % 2 ^ 64) % 2 ^ 64 + 1) % 2 ^ 64

    wrapped : ℕ → ℕ
    wrapped k = (height % 2 ^ 64) * k % 2 ^ 64 * 2 % 2 ^ 64
