-- ===== src/Base/Errors.antt =====
-- C++ exceptions as values: the standard exception classes that the modelled code throws, and the
-- chain of calls that may throw.
use Prim.Native.String.{String}
use mathlib.Core.Path.{◌≡◌, refl, subst}
use native.Mathlib.Omega.{arith}
use vapoursynth_nssfactory.Base.Tests.{if◌then◌else◌}
use mathlib.Core.Bool.{Bool, true, false}

-- The messages are those of the source where they are literals.
pub data Error : Type 0 where
  bad_alloc : Error
  bad_array_new_length : Error
  overflow_error : String → Error
  invalid_argument : String → Error
  runtime_error : String → Error
  logic_error : String → Error

pub data Result {ℓ} (A : Type ℓ) : Type ℓ where
  err : Error → Result A
  ok : A → Result A

abbrev pub is_ok {ℓ} : {A : Type ℓ} → Result A → Bool
is_ok (err thrown) = false
is_ok (ok value) = true

-- A call, and what follows it if it returns.
infixl 5 ◌>>=◌ ◌>>◌
abbrev pub ◌>>=◌ {ℓ κ} : {A : Type ℓ} {B : Type κ} → Result A → (A → Result B) → Result B
err thrown >>= next = err thrown
ok value >>= next = next value

-- `if (bad) throw e;`
abbrev pub throw_if : Bool → Error → Result (Unit {0})
throw_if bad e = elim bad [ true ↦ err e | false ↦ ok tt ]

abbrev pub ◌>>◌ {ℓ} : {B : Type ℓ} → Result (Unit {0}) → Result B → Result B
first >> next = first >>= λ done. next

-- `if (bad) throw e;` before the rest of a function, kept shut for the lemmas below.
unfoldable pub reject_if {ℓ} : {A : Type ℓ} → Bool → Error → Result A → Result A
reject_if true e rest = err e
reject_if false e rest = rest

unfoldable pub chain {ℓ κ} : {A : Type ℓ} {B : Type κ} → Result A → (A → Result B) → Result B
chain (err thrown) next = err thrown
chain (ok value) next = next value

-- What a call returns, if it returns, has the property.
pub record Sound {ℓ} {A : Type ℓ} (P : A → Type 0) (r : Result A) : Type ℓ where
  pub returns : (a : A) → r ≡ ok a → P a

module _ {ℓ} {A : Type ℓ} {P : A → Type 0} where
  pub reject-Sound :
      (bad : Bool) (e : Error) (rest : Result A)
      → ((bad ≡ false) → Sound P rest)
      → Sound P (reject_if bad e rest)
  unfolding reject_if
  reject-Sound true e rest h = record { returns = λ a k. absurd (ground arith) }
  reject-Sound false e rest h = h refl

  pub ok-Sound : (a : A) → P a → Sound P (ok a)
  ok-Sound a h = record { returns = λ b e. subst P (ground arith) h }

  pub if-Sound :
      (test : Bool) (first second : Result A)
      → ((test ≡ true) → Sound P first)
      → ((test ≡ false) → Sound P second)
      → Sound P (if test then first else second)
  if-Sound true first second h k = h refl
  if-Sound false first second h k = k refl

module _ {ℓ κ} {A : Type ℓ} {B : Type κ} {P : A → Type 0} {Q : B → Type 0} where
  pub chain-Sound :
      (first : Result A) (next : A → Result B)
      → Sound P first
      → ((a : A) → P a → Sound Q (next a))
      → Sound Q (chain first next)
  unfolding chain
  chain-Sound (err thrown) next h k = record { returns = λ b e. absurd (ground arith) }
  chain-Sound (ok value) next h k = k value (h.returns value refl)

pub Sound-weaken {ℓ} :
    {A : Type ℓ} {P Q : A → Type 0} {r : Result A} → Sound P r → ((a : A) → P a → Q a) → Sound Q r
Sound-weaken h k = record { returns = λ a e. k a (h.returns a e) }
