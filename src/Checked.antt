-- ===== src/Checked.antt =====
-- include/nss/checked.hpp: size arithmetic that throws in place of wrapping.
pub mod Laws
use vapoursynth_nssfactory.Base.{
  ℕ, ◌+◌, ◌-◌, ◌*◌, ◌/◌, ◌%◌, ◌^◌, Bool, true, false, ◌&&◌, ◌||◌, List, [], ◌∷◌, ltb, leb, ◌==◌,
  if◌then◌else◌, ℤ, pos, negsuc, ltb_ℤ, Result, ok, err, ◌>>=◌, ◌>>◌, throw_if,
  bad_array_new_length, overflow_error, invalid_argument,
}

-- SIZE_MAX of a 64-bit size_t, and the largest int.
abbrev pub size_max : ℕ
size_max = 18446744073709551615

abbrev pub int_max : ℕ
int_max = 2147483647

unfoldable pub checked_add : ℕ → ℕ → Result ℕ
checked_add a b = if ltb (size_max - a) b then err bad_array_new_length else ok (a + b)

-- A term of `checked_sum`: of a signed or of an unsigned type.
pub data Term : Type 0 where
  signed : ℤ → Term
  unsigned : ℕ → Term

-- The body of the lambda `add`: the value after one more term.
add_term : ℕ → Term → Result ℕ
unfolding checked_add
add_term value (unsigned n) = checked_add value n
add_term value (signed (pos n)) = checked_add value n
add_term value (signed (negsuc n)) = err bad_array_new_length

sum_from : ℕ → List Term → Result ℕ
sum_from value [] = ok value
sum_from value (t ∷ ts) = add_term value t >>= λ v. sum_from v ts

pub checked_sum : List Term → Result ℕ
unfolding sum_from
checked_sum terms = sum_from 0 terms

unfoldable pub checked_mul : ℕ → ℕ → Result ℕ
checked_mul a b = if ltb 0 a && ltb (size_max / a) b then err bad_array_new_length else ok (a * b)

product_from : ℕ → List ℕ → Result ℕ
product_from value [] = ok value
product_from value (f ∷ fs) = checked_mul value f >>= λ v. product_from v fs

pub checked_product : List ℕ → Result ℕ
unfolding product_from
checked_product factors = product_from 1 factors

unfoldable pub checked_int : ℕ → Result ℕ
checked_int value =
    if ltb int_max value
    then err (overflow_error "nss: size exceeds the kernel integer range")
    else ok value

-- kSvdMaxM and kSvdMaxN.
abbrev pub svd_max_m : ℕ
svd_max_m = 256

abbrev pub svd_max_n : ℕ
svd_max_n = 32

unfoldable pub checked_solver_shape : ℤ → ℤ → Result (Unit {0})
checked_solver_shape m n =
    throw_if
      (ltb_ℤ m (pos 1) || ltb_ℤ (pos svd_max_m) m || ltb_ℤ n (pos 1) || ltb_ℤ (pos svd_max_n) n)
      (invalid_argument "nss: unsupported solver workspace shape")

-- The conversion of an int to std::uint64_t.
abbrev pub to_u64 : ℤ → ℕ
to_u64 (pos n) = n % 2 ^ 64
to_u64 (negsuc n) = 2 ^ 64 - (n + 1)

-- Every operation of the product is one on std::uint64_t, and wraps.
pub checked_fat_height : ℤ → ℤ → Result ℕ
unfolding checked_int
checked_fat_height height radius = do
  throw_if (ltb_ℤ height (pos 1) || ltb_ℤ radius (pos 0))
      (invalid_argument "nss: invalid temporal dimensions")
  let slices = (2 * to_u64 radius % 2 ^ 64 + 1) % 2 ^ 64
  checked_int (to_u64 height * slices % 2 ^ 64 * 2 % 2 ^ 64)
