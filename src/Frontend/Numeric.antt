-- ===== src/Frontend/Numeric.antt =====
-- src/frontend/validate.cpp: the check of all numeric arguments that goes before the parsers.
use Prim.Native.String.{String}
use mathlib.Core.Path.{subst}
use mathlib.Core.Bool.{Bool-set}
use mathlib.Core.Logic.Or
use mathlib.Core.List.{mem-cons, not-mem-nil}
use vapoursynth_nssfactory.Base.{
  dec_lt, ℕ, zero, suc, ◌+◌, ◌-◌, ◌^◌, ◌≤◌, ◌≡◌, refl, Bool, true, false, ◌&&◌, not, if◌then◌else◌,
  ℤ, pos, negsuc, pos_part, ltb_ℤ, ◌≤ℤ◌, ◌<◌, Mem, Option-cases, Option, none, some, List, [], ◌∷◌,
  arith, Bool-cases, inl, inr,
}
use vapoursynth_nssfactory.Float.Round.{F64, is_finite_double, double_lt}
use vapoursynth_nssfactory.Frontend.{VsApi, PropertyType, pt_int, pt_float, pt_other, to_int}

-- What the error message names.
pub record Rejected : Type 0 where
  pub key : String
  pub index : ℕ
  pub type : PropertyType

unfoldable pub int_valid : Option ℤ → Bool
int_valid none = false
int_valid (some v) = not (ltb_ℤ v (negsuc (2 ^ 31 - 1))) && not (ltb_ℤ (pos (2 ^ 31 - 1)) v)

-- `limit` is the greatest float, as a double.
unfoldable pub float_valid : Option F64 → Bool
unfolding is_finite_double double_lt
float_valid none = false
float_valid (some v) =
    is_finite_double v
    && (not (double_lt v 0xc7efffffe0000000) && not (double_lt 0x47efffffe0000000 v))

module _ {ℓ} {M : Type ℓ} (api : VsApi M) (args : M) where
  unfoldable pub element_valid : String → PropertyType → ℕ → Bool
  unfolding int_valid float_valid
  element_valid key pt_int index = int_valid (api.get_int args key index)
  element_valid key pt_float index = float_valid (api.get_float args key index)
  element_valid key pt_other index = true

  -- The loop over the elements of a key; the first that is not valid.
  unfoldable pub check_elements : String → PropertyType → ℕ → ℕ → Option Rejected
  unfolding element_valid
  check_elements key type zero index = none
  check_elements key type (suc count) index =
      let rest = check_elements key type count (suc index) in
      if element_valid key type index
      then rest
      else some record { key = key; index = index; type = type }

  unfoldable pub check_key : String → Option Rejected
  unfolding check_elements
  check_key key = check_elements key (api.type_of args key) (pos_part (api.num_elements args key)) 0

  unfoldable pub check_keys : List String → Option Rejected
  unfolding check_key
  check_keys [] = none
  check_keys (key ∷ keys) =
      let rest = check_keys keys in
      elim (check_key key) [ none ↦ rest | some rejected ↦ some rejected ]

  -- none where the arguments are valid.
  unfoldable pub validate_numeric_args : Option Rejected
  unfolding check_keys
  validate_numeric_args = check_keys (api.keys args)

abbrev FitsInt : ℤ → Type 0
FitsInt v = (negsuc (2 ^ 31 - 1) ≤ℤ v) × (v ≤ℤ pos (2 ^ 31 - 1))

to_int-fits : (v : ℤ) → FitsInt v → to_int v ≡ v
unfolding to_int
to_int-fits (pos n) h = ground arith
to_int-fits (negsuc n) h = ground arith

-- A valid element of each type: an int that fits in an int and is the same int after the cast; a
-- finite double within the floats.
pub IsValid : PropertyType → Option ℤ → Option F64 → Type 0
IsValid pt_int i f = (v : ℤ) × (i ≡ some v) × FitsInt v × (to_int v ≡ v)
IsValid pt_float i f =
    (v : F64) × (f ≡ some v)
    × (is_finite_double v ≡ true)
    × (double_lt v 0xc7efffffe0000000 ≡ false)
    × (double_lt 0x47efffffe0000000 v ≡ false)
IsValid pt_other i f = Unit

module _ {ℓ} {M : Type ℓ} (api : VsApi M) (args : M) where
  int_valid-fits :
      (o : Option ℤ) → int_valid o ≡ true → (v : ℤ) × (o ≡ some v) × FitsInt v × (to_int v ≡ v)
  unfolding int_valid
  int_valid-fits none h = absurd (ground arith)
  int_valid-fits (some v) h =
      let fits : FitsInt v = ground arith in (v, refl, fits, to_int-fits v fits)

  float_valid-fits :
      (o : Option F64)
      → float_valid o ≡ true
      → (v : F64) × (o ≡ some v)
        × (is_finite_double v ≡ true)
        × (double_lt v 0xc7efffffe0000000 ≡ false)
        × (double_lt 0x47efffffe0000000 v ≡ false)
  unfolding float_valid
  float_valid-fits none h = absurd (ground arith)
  float_valid-fits (some v) h = (v, refl, ground arith, ground arith, ground arith)

  element-IsValid :
      (key : String) (type : PropertyType) (index : ℕ)
      → element_valid api args key type index ≡ true
      → IsValid type (api.get_int args key index) (api.get_float args key index)
  unfolding element_valid IsValid
  element-IsValid key pt_int index h = int_valid-fits _ h
  element-IsValid key pt_float index h = float_valid-fits _ h
  element-IsValid key pt_other index h = tt

  check_elements-IsValid :
      (key : String) (type : PropertyType) (count first i : ℕ)
      → check_elements api args key type count first ≡ none
      → first ≤ i
      → i < first + count
      → IsValid type (api.get_int args key i) (api.get_float args key i)
  unfolding check_elements
  check_elements-IsValid key type zero first i h l u = absurd (omega arith)
  check_elements-IsValid key type (suc count) first i h l u =
      elim (Bool-cases (element_valid api args key type first)) [
        | inl valid ↦ elim (dec_lt first i) [
          | yes later ↦
              check_elements-IsValid key type count (suc first) i (ground (arith, h, valid))
                (omega arith) (omega arith)
          | no here ↦
              let same : first ≡ i = omega arith in
              subst (λ n. IsValid type (api.get_int args key n) (api.get_float args key n)) same
                (element-IsValid key type first valid)
        ]
        | inr invalid ↦ absurd (ground (arith, h, invalid))
      ]

  is_accepted : Option Rejected → Bool
  is_accepted none = true
  is_accepted (some rejected) = false

  accepted-none : (o : Option Rejected) → is_accepted o ≡ true → o ≡ none
  unfolding is_accepted
  accepted-none none h = refl
  accepted-none (some rejected) h = absurd (ground arith)

  check_keys-Mem :
      (key : String) (keys : List String)
      → check_keys api args keys ≡ none
      → Mem key keys
      → is_accepted (check_key api args key) ≡ true
  unfolding check_keys is_accepted
  check_keys-Mem key [] h m = absurd (not-mem-nil m)
  check_keys-Mem key (k ∷ keys) h m = elim (Option-cases (check_key api args k)) [
    | inl passed ↦
        Or.elim (Bool-set _ _) (mem-cons.0 m) (λ e. rw (e, passed) refl)
          (check_keys-Mem key keys (ground (arith, h, passed)))
    | inr (rejected, failed) ↦ absurd (ground (arith, h, failed))
  ]

  -- The parsers see the numbers that were given: if the check accepts the arguments, then every
  -- element of a key that the map lists is, for an integer key, an int, which the cast to int leaves
  -- as it is, and for a float key a finite double between the least and the greatest float.
  pub validated_arguments :
      (key : String) (i : ℕ)
      → validate_numeric_args api args ≡ none
      → Mem key (api.keys args)
      → i < pos_part (api.num_elements args key)
      → IsValid (api.type_of args key) (api.get_int args key i) (api.get_float args key i)
  unfolding validate_numeric_args check_key
  validated_arguments key i h m l =
      let passed = accepted-none _ (check_keys-Mem key (api.keys args) h m) in
      check_elements-IsValid key (api.type_of args key) _ 0 i passed (omega arith) (omega arith)
