-- ===== src/Resources/Charges.antt =====
-- The budget and its accounts are those of the memory that is allocated.
pub mod Steps
use mathlib.Core.Path.{subst}
use vapoursynth_nssfactory.Base.{
  ℕ, zero, suc, ◌+◌, ◌-◌, ◌*◌, ◌%◌, ◌^◌, ◌≤◌, ◌<◌, ◌≡◌, ◌≢◌, refl, sym, ◌∙◌, ap, inl, inr, Bool,
  true, false, ◌==◌, if◌then◌else◌, Option, none, some, List, [], ◌∷◌, ◌++◌, get_elem?, set, length,
  Result, ok, err, Error, bad_alloc, bad_array_new_length, leb, leb→le, ◌⊎◌, arith, Bool-cases,
  ==_iff, get_elem?-set_self, get_elem?-set_ne, length-set, length-append,
}
use vapoursynth_nssfactory.Checked.{checked_mul, size_max}
use vapoursynth_nssfactory.Checked.Laws.{checked_mul_lem}
use vapoursynth_nssfactory.Resources.{
  ResourceKind, ResourceSnapshot, ResourceAccount, Charged, acquire, release, retag, is_owned,
  new_budget, new_account,
}
use vapoursynth_nssfactory.Resources.System.{
  IsBalanced, held, acquire-Acquired, bytes_fit, Acquired,
}
use vapoursynth_nssfactory.Resources.Laws.{acquire-IsBalanced, release-IsBalanced, account_fits}
use vapoursynth_nssfactory.Resources.Retag.{retag-IsBalanced, set-same}
use vapoursynth_nssfactory.Resources.Allocator.{
  Allocated, obtained, charged_by, sized, allocate, deallocate, Allocation, World, Step, Reach,
  start_world,
}

abbrev pub block_bytes : Allocation → ℕ
block_bytes b = b.count * b.size

-- The bytes of the blocks that are charged to account i.
abbrev pub charged_to : ℕ → List Allocation → ℕ
charged_to i [] = 0
charged_to i (b ∷ blocks) = (if b.account == i then block_bytes b else 0) + charged_to i blocks

pub record IsCharged (w : World) : Type 0 where
  pub balanced : IsBalanced w.state w.accounts
  pub accounted :
      (i : ℕ) (a : ResourceAccount)
      → get_elem? w.accounts i ≡ some a
      → a.bytes ≡ charged_to i w.blocks
  pub vacant : (i : ℕ) → length w.accounts ≤ i → charged_to i w.blocks ≡ 0

pub charged_to-append :
    (i : ℕ) (xs ys : List Allocation) → charged_to i (xs ++ ys) ≡ charged_to i xs + charged_to i ys
charged_to-append i [] ys = omega arith
charged_to-append i (b ∷ xs) ys = omega (arith, charged_to-append i xs ys)

pub lt-length {ℓ} :
    {A : Type ℓ} (xs : List A) (i : ℕ) (a : A) → get_elem? xs i ≡ some a → i < length xs
lt-length [] i a e = absurd (ground arith)
lt-length (x ∷ xs) zero a e = omega arith
lt-length (x ∷ xs) (suc i) a e = omega (arith, lt-length xs i a e)

-- Account i changes as its blocks do, and the others keep theirs.
pub accounted-set :
    (accounts : List ResourceAccount) (blocks blocks' : List Allocation) (i : ℕ)
    (a a' : ResourceAccount)
    → get_elem? accounts i ≡ some a
    → ((j : ℕ) (b : ResourceAccount)
        → get_elem? accounts j ≡ some b
        → b.bytes ≡ charged_to j blocks)
    → a'.bytes ≡ charged_to i blocks'
    → ((j : ℕ) → i ≢ j → charged_to j blocks' ≡ charged_to j blocks)
    → (j : ℕ) (b : ResourceAccount) → get_elem? (set accounts i a') j ≡ some b
    → b.bytes ≡ charged_to j blocks'
accounted-set accounts blocks blocks' i a a' at h own others j b at_b = elim (Bool-cases (i == j)) [
  | inl here ↦
      let place = (==_iff i j).0 here in
      let now : get_elem? (set accounts i a') j ≡ some a' =
        subst (λ k. get_elem? (set accounts i a') k ≡ some a') place
          (get_elem?-set_self accounts i a' (lt-length accounts i a at)) in
      let same : a' ≡ b = ground (arith, now, at_b) in
      ap (λ (x : ResourceAccount). x.bytes) (sym same) ∙ own ∙ ap (λ k. charged_to k blocks') place
  | inr there ↦
      let apart : i ≢ j = λ e. ground arith in
      h j b (sym (get_elem?-set_ne accounts a' apart) ∙ at_b) ∙ sym (others j apart)
]

-- What a release in a state that is charged for its blocks does.
pub release_charged :
    (w : World) (i : ℕ) (a a' : ResourceAccount) (n : ℕ) (state' : ResourceSnapshot)
    → (v : IsBalanced w.state w.accounts) → (at : get_elem? w.accounts i ≡ some a) → n ≤ a.bytes
    → release a n (some w.state) ≡ (some state', a')
    → IsBalanced state' (set w.accounts i a') × (a'.bytes ≡ a.bytes - n)
release_charged w i a a' n state' v at le e =
    let (s, r, balanced, _, _) = release-IsBalanced w.state w.accounts i a v at n le in
    let same_state : s ≡ state' = ground (arith, sym r ∙ e) in
    let same_account : record a { bytes = a.bytes - n } ≡ a' = ground (arith, sym r ∙ e) in
    (
      subst (λ x. IsBalanced x (set w.accounts i a')) same_state
          (subst (λ x. IsBalanced s (set w.accounts i x)) same_account balanced),
      ap (λ (x : ResourceAccount). x.bytes) (sym same_account),
    )

-- A successful acquire on any account.
pub acquire_charged :
    (w : World) (i : ℕ) (a a' : ResourceAccount) (n : ℕ) (state' : ResourceSnapshot)
    → (v : IsBalanced w.state w.accounts) → (at : get_elem? w.accounts i ≡ some a) → n ≤ size_max
    → acquire a n (some w.state) ≡ ok (some state', a')
    → IsBalanced state' (set w.accounts i a') × (a'.bytes ≡ a.bytes + n)
acquire_charged w i a a' n state' v at le e =
    let fits = account_fits w.state w.accounts i a v at in
    let room = bytes_fit w.state w.accounts v a.kind in
    (
      acquire-IsBalanced w.state w.accounts i a v at n state' a' le e,
      (acquire-Acquired w.state a n state' a' e le room (omega arith)).account,
    )

-- What allocate() has done, by its outcome.
module _ (a a' : ResourceAccount) (state state' : ResourceSnapshot) (o : Result ℕ) where
  abbrev pub Ended : Allocated → Type 0
  Ended r = r ≡ record { charged = (some state', a'); outcome = o }

  -- The bytes are charged, and stay charged or are given back.
  abbrev pub Tried : ℕ → Type 0
  Tried n =
      (s : ResourceSnapshot) × (x : ResourceAccount) × (n ≤ size_max)
      × (acquire a n (some state) ≡ ok (some s, x))
      × (((o ≡ ok n) × (s ≡ state') × (x ≡ a'))
          ⊎ ((o ≡ err bad_alloc) × (release x n (some s) ≡ (some state', a'))))

  -- Nothing is charged.
  abbrev pub Refused : Type 0
  Refused = (e : Error) × (o ≡ err e) × (state ≡ state') × (a ≡ a')

  obtained-inv :
      (memory : Bool) (n : ℕ) (budget : Option ResourceSnapshot) (x : ResourceAccount)
      → n ≤ size_max
      → acquire a n (some state) ≡ ok (budget, x)
      → Ended (obtained memory n (budget, x))
      → Tried n
  unfolding release
  obtained-inv true n none x le e h = absurd (ground arith)
  obtained-inv true n (some s) x le e h =
      (s, x, le, e, inl (ground arith, ground arith, ground arith))
  obtained-inv false n none x le e h = absurd (ground arith)
  obtained-inv false n (some s) x le e h = (
    s,
    x,
    le,
    e,
    inr (ap (λ (r : Allocated). r.outcome) (sym h), ap (λ (r : Allocated). r.charged) h),
  )

  charged_by-inv :
      (memory : Bool) (n : ℕ) (r : Result Charged)
      → n ≤ size_max
      → acquire a n (some state) ≡ r
      → Ended (charged_by (some state) a memory n r)
      → Refused ⊎ Tried n
  charged_by-inv memory n (err e) le h k = inl (e, ground arith, ground arith, ground arith)
  charged_by-inv memory n (ok (budget, x)) le h k = inr (obtained-inv memory n budget x le h k)

  pub allocate-inv :
      (count size : ℕ) (memory : Bool)
      → Ended (allocate a count size memory (some state))
      → Refused ⊎ Tried (count * size)
  unfolding allocate
  allocate-inv count size memory h = elim (Bool-cases (leb (count * size) size_max)) [
    | inl fits ↦
        let e = checked_mul_lem count size in
        charged_by-inv memory (count * size) (acquire a (count * size) (some state))
          (leb→le _ _ fits) refl (rw (e, fits) at h)
    | inr over ↦
        let e = checked_mul_lem count size in
        let k = rw (e, over) at h in
        inl (bad_array_new_length, ground (arith, k), ground (arith, k), ground (arith, k))
  ]
