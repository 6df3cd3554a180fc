-- ===== src/Float/Round.antt =====
-- Rounding to float32, to nearest with ties to even, of a quotient of numbers; and what the parsers
-- of arguments need of it: the conversion of a double, a product, a quotient.
use vapoursynth_nssfactory.Base.{
  ℕ, zero, suc, ◌+◌, ◌-◌, ◌*◌, ◌/◌, ◌%◌, ◌^◌, ◌≡◌, refl, Bool, true, false, ◌&&◌, ◌||◌, not, ltb,
  ◌==◌, if◌then◌else◌,
}
use vapoursynth_nssfactory.Float.{F32, magnitude}

-- IEEE 754 bit patterns of double.
abbrev pub F64 : Type 0
F64 = ℕ

-- How often to halve n until it is below 2^24; the fuel covers the numbers below 2^(24 + fuel).
unfoldable pub halvings : ℕ → ℕ → ℕ
halvings zero n = 0
halvings (suc fuel) n = elim (ltb n (2 ^ 24)) [ true ↦ 0 | false ↦ suc (halvings fuel (n / 2)) ]

-- The natural number nearest to n / d, the even one of two.
unfoldable pub round_even : ℕ → ℕ → ℕ
round_even n d =
    let q = n / d in
    let r = n % d in if ltb d (2 * r) || ((2 * r == d) && (q % 2 == 1)) then suc q else q

abbrev sign_bit : ℕ → ℕ
sign_bit s = s * 2 ^ 31

-- The float nearest to n / d, in units of 2^-149, the least subnormal; too large is infinity.
unfoldable pub round_quotient : ℕ → ℕ → ℕ → F32
unfolding halvings round_even
round_quotient s n d =
    let e = halvings 2300 (n / d) in
    let bits = e * 2 ^ 23 + round_even n (d * 2 ^ e) in
    sign_bit s + (if ltb bits 0x7f800000 then bits else 0x7f800000)

-- A finite float or double as a number of its least subnormals.
abbrev float_units : F32 → ℕ
float_units f =
    if magnitude f / 2 ^ 23 == 0
    then f % 2 ^ 23
    else (2 ^ 23 + f % 2 ^ 23) * 2 ^ (magnitude f / 2 ^ 23 - 1)

abbrev pub double_exponent : F64 → ℕ
double_exponent v = v / 2 ^ 52 % 2048

abbrev double_units : F64 → ℕ
double_units v =
    if double_exponent v == 0
    then v % 2 ^ 52
    else (2 ^ 52 + v % 2 ^ 52) * 2 ^ (double_exponent v - 1)

unfoldable pub is_finite_double : F64 → Bool
is_finite_double v = not (double_exponent v == 2047)

-- The place of a number among all doubles.
unfoldable pub double_rank : F64 → ℕ
double_rank v = if v / 2 ^ 63 % 2 == 0 then 2 ^ 63 + v % 2 ^ 63 else 2 ^ 63 - v % 2 ^ 63

-- `a < b` for finite doubles.
unfoldable pub double_lt : F64 → F64 → Bool
unfolding double_rank
double_lt a b = ltb (double_rank a) (double_rank b)

-- static_cast<float>: an infinity and what is not a number keep their kind.
unfoldable pub to_float : F64 → F32
unfolding is_finite_double round_quotient
to_float v =
    if is_finite_double v
    then round_quotient (v / 2 ^ 63) (double_units v) (2 ^ 925)
    else sign_bit (v / 2 ^ 63) + 0x7f800000 + (if v % 2 ^ 52 == 0 then 0 else 0x400000)

-- a * b and a / b for finite operands, the divisor not zero.
unfoldable pub float_mul : F32 → F32 → F32
unfolding round_quotient
float_mul a b =
    round_quotient ((a / 2 ^ 31 + b / 2 ^ 31) % 2) (float_units a * float_units b) (2 ^ 149)

unfoldable pub float_div : F32 → F32 → F32
unfolding round_quotient
float_div a b =
    round_quotient ((a / 2 ^ 31 + b / 2 ^ 31) % 2) (float_units a * 2 ^ 149) (float_units b)

-- 0.1 and 3.4028234663852886e38, then 1 / 255 and 12.5 * 0.75.
converted : to_float 0x3fb999999999999a ≡ 0x3dcccccd
unfolding to_float
converted = refl

converted_greatest : to_float 0x47efffffe0000000 ≡ 0x7f7fffff
unfolding to_float
converted_greatest = refl

converted_subnormal : to_float 0xb6a0000000000000 ≡ 0x80000001
unfolding to_float
converted_subnormal = refl

divided : float_div 0x3f800000 0x437f0000 ≡ 0x3b808081
unfolding float_div
divided = refl

multiplied : float_mul 0x41480000 0x3f400000 ≡ 0x41160000
unfolding float_mul
multiplied = refl
