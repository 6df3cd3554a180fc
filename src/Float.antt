-- ===== src/Float.antt =====
-- float32 values as IEEE 754 bit patterns, with the comparisons of the language and the finiteness
-- test of include/nss/cpu_common.hpp.
pub mod Round
use vapoursynth_nssfactory.Base.{
  ℕ, ◌+◌, ◌-◌, ◌/◌, ◌%◌, ◌^◌, Bool, true, false, ◌&&◌, ◌||◌, not, ltb, ◌==◌, if◌then◌else◌, ◌≡◌,
  refl, arith,
}

abbrev pub F32 : Type 0
F32 = ℕ

-- `(bits & 0x7f800000) != 0x7f800000`: the exponent field is not all ones.
unfoldable pub is_finite_bits : F32 → Bool
is_finite_bits f = not (f / 2 ^ 23 % 256 == 255)

-- All bits but the sign, and the sign.
abbrev pub magnitude : F32 → ℕ
magnitude f = f % 2 ^ 31

abbrev pub is_nan : F32 → Bool
is_nan f = ltb 0x7f800000 (magnitude f)

-- The place of a number among all numbers; both zeros have the same.
unfoldable pub rank : F32 → ℕ
rank f = if f / 2 ^ 31 % 2 == 0 then 2 ^ 31 + magnitude f else 2 ^ 31 - magnitude f

-- `a < b`, which is false where one is not a number.
unfoldable pub float_lt : F32 → F32 → Bool
unfolding rank
float_lt a b = not (is_nan a) && not (is_nan b) && ltb (rank a) (rank b)

-- `a <= b`, which is false where one is not a number.
unfoldable pub float_le : F32 → F32 → Bool
unfolding rank
float_le a b = not (is_nan a) && not (is_nan b) && not (ltb (rank b) (rank a))

-- `a != b`, which is true where one is not a number.
unfoldable pub float_ne : F32 → F32 → Bool
unfolding rank
float_ne a b = is_nan a || is_nan b || not (rank a == rank b)

pub finite-not_nan : (f : F32) → is_finite_bits f ≡ true → is_nan f ≡ false
unfolding is_finite_bits
finite-not_nan f h = ground arith

-- On finite numbers both comparisons are those of the ranks.
pub float_lt-rank :
    (a b : F32)
    → is_finite_bits a ≡ true
    → is_finite_bits b ≡ true
    → float_lt a b ≡ ltb (rank a) (rank b)
unfolding float_lt
float_lt-rank a b h k = rw (finite-not_nan a h, finite-not_nan b k) refl

pub float_ne-rank :
    (a b : F32)
    → is_finite_bits a ≡ true
    → is_finite_bits b ≡ true
    → float_ne a b ≡ not (rank a == rank b)
unfolding float_ne
float_ne-rank a b h k = rw (finite-not_nan a h, finite-not_nan b k) refl
