-- ===== src/Workspace/Sizes.antt =====
-- The blocks of the buffers, and what the account is charged with for them.
use mathlib.Core.Path.{subst}
use vapoursynth_nssfactory.Base.{
  ℕ, ◌+◌, ◌*◌, ◌≤◌, ◌≡◌, refl, sym, ◌∙◌, inl, inr, ◌==◌, max, if◌then◌else◌, Option, none, some,
  List, [], ◌∷◌, Every, arith, Bool-cases, ==_iff, Result, ok, err,
}
use vapoursynth_nssfactory.Checked.{size_max, checked_add}
use vapoursynth_nssfactory.Resources.{ResourceSnapshot, ResourceAccount, Charged, acquire, release}
use vapoursynth_nssfactory.Workspace.{
  AlignedBlock, Buffer, Workspace, buffer_at, write_at, bytes_of, acquire_for, release_for,
  release_old,
}

-- The bytes of a buffer's block, and of all blocks.
abbrev pub size_of : Buffer → ℕ
size_of b = elim b.p [ none ↦ 0 | some block ↦ block.size ]

abbrev pub held : List (ℕ × Buffer) → ℕ
held [] = 0
held ((k, b) ∷ bs) = size_of b + held bs

-- An account that is not null has its budget, and is charged with so many bytes.
abbrev pub IsHeld : Option Charged → ℕ → Type 0
IsHeld none n = Unit
IsHeld (some (none, a)) n = ⊥
IsHeld (some (some budget, a)) n = (a.bytes ≡ n) × (n ≤ size_max)

-- A block has the bytes of the floats that are recorded for it, and at least 64.
abbrev pub IsSized : Buffer → Type 0
IsSized b = elim b.p [
  | none ↦ Unit
  | some block ↦ (b.n * 4 ≤ size_max) × (block.size ≡ max 64 (b.n * 4))
]

-- The account is charged with the bytes of the blocks, and each block has the right size.
pub record IsConsistent (w : Workspace) : Type 0 where
  pub charged : IsHeld w.account (held w.map)
  pub sized : Every (λ (entry : ℕ × Buffer). IsSized entry.1) w.map

pub held-write_at :
    (key : ℕ) (new : Buffer) (bs : List (ℕ × Buffer))
    → held (write_at key new bs) + size_of (buffer_at key bs) ≡ held bs + size_of new
held-write_at key new [] = omega arith
held-write_at key new ((k, b) ∷ bs) = elim (Bool-cases (k == key)) [
  | inl same ↦ rw same (omega arith)
  | inr other ↦ rw other (omega (arith, held-write_at key new bs))
]

pub held-same :
    (key : ℕ) (bs : List (ℕ × Buffer)) → held (write_at key (buffer_at key bs) bs) ≡ held bs
held-same key bs = omega (arith, held-write_at key (buffer_at key bs) bs)

pub buffer_at-write_at :
    (key : ℕ) (new : Buffer) (bs : List (ℕ × Buffer)) → buffer_at key (write_at key new bs) ≡ new
buffer_at-write_at key new [] = rw ((==_iff key key).1 refl) refl
buffer_at-write_at key new ((k, b) ∷ bs) = elim (Bool-cases (k == key)) [
  | inl same ↦ rw (same, same) refl
  | inr other ↦ rw (other, other) (buffer_at-write_at key new bs)
]

pub buffer_at-IsSized :
    (key : ℕ) (bs : List (ℕ × Buffer))
    → Every (λ (entry : ℕ × Buffer). IsSized entry.1) bs
    → IsSized (buffer_at key bs)
buffer_at-IsSized key [] v = tt
buffer_at-IsSized key ((k, b) ∷ bs) (s, v) = elim (Bool-cases (k == key)) [
  | inl same ↦ rw same s
  | inr other ↦ rw other (buffer_at-IsSized key bs v)
]

pub write_at-IsSized :
    (key : ℕ) (new : Buffer) (bs : List (ℕ × Buffer))
    → IsSized new
    → Every (λ (entry : ℕ × Buffer). IsSized entry.1) bs
    → Every (λ (entry : ℕ × Buffer). IsSized entry.1) (write_at key new bs)
write_at-IsSized key new [] n v = (n, tt)
write_at-IsSized key new ((k, b) ∷ bs) n (s, v) = elim (Bool-cases (k == key)) [
  | inl same ↦ rw same (n, v)
  | inr other ↦ rw other (s, write_at-IsSized key new bs n v)
]

-- The size of a request that passes the overflow test.
pub bytes_of-exact : (floats : ℕ) → floats * 4 ≤ size_max → bytes_of floats ≡ max 64 (floats * 4)
bytes_of-exact floats h = ground (arith, h)

-- A release gives back what is held, without wrapping.
pub release_for-IsHeld :
    (bytes n : ℕ) (account : Option Charged)
    → IsHeld account (bytes + n)
    → IsHeld (release_for bytes account) n
unfolding release
release_for-IsHeld bytes n none h = tt
release_for-IsHeld bytes n (some (none, a)) h = absurd h
release_for-IsHeld bytes n (some (some budget, a)) (h, u) = (omega arith, omega arith)

acquire-IsHeld :
    (a a' : ResourceAccount) (bytes : ℕ) (state : ResourceSnapshot)
    (budget : Option ResourceSnapshot)
    → bytes ≤ size_max
    → a.bytes ≤ size_max
    → acquire a bytes (some state) ≡ ok (budget, a')
    → IsHeld (some (budget, a')) (bytes + a.bytes)
unfolding acquire checked_add
acquire-IsHeld a a' bytes state none b u e = absurd (ground (arith, e))
acquire-IsHeld a a' bytes state (some after) b u e = (ground (arith, e), ground (arith, e))

pub acquire_for-IsHeld :
    (bytes n : ℕ) (account account' : Option Charged)
    → bytes ≤ size_max
    → IsHeld account n
    → acquire_for bytes account ≡ ok account'
    → IsHeld account' (bytes + n)
unfolding acquire checked_add
acquire_for-IsHeld bytes n none account' b h e =
    let same : none ≡ account' = ground arith in subst (λ c. IsHeld c (bytes + n)) same tt
acquire_for-IsHeld bytes n (some (none, a)) account' b h e = absurd h
acquire_for-IsHeld bytes n (some (some budget, a)) account' b (h, u) e =
    go (acquire a bytes (some budget)) refl e
  where
    go :
        (r : Result Charged)
        → acquire a bytes (some budget) ≡ r
        → (elim r as (λ x. Result (Option Charged)) [
          | ok charged ↦ ok (some charged)
          | err e ↦ err e
        ])
          ≡ ok account'
        → IsHeld account' (bytes + n)
    go (err e) f g = absurd (ground arith)
    go (ok (after, a')) f g =
        let same : some (after, a') ≡ account' = ground arith in
        subst (λ c. IsHeld c (bytes + n)) same
          (rw⁻¹ h (acquire-IsHeld a a' bytes budget after b (omega arith) f))

pub release_old-IsHeld :
    (p : Option AlignedBlock) (m n : ℕ) (account : Option Charged)
    → IsSized record { p = p; n = m }
    → IsHeld account (size_of record { p = p; n = m } + n)
    → IsHeld (release_old record { p = p; n = m } account) n
release_old-IsHeld none m n account s h = subst (IsHeld account) (omega arith) h
release_old-IsHeld (some block) m n account (fits, size) h =
    release_for-IsHeld (bytes_of m) n account
      (subst (λ c. IsHeld account (c + n)) (size ∙ sym (bytes_of-exact m fits)) h)

-- The buffer that a request gets.
abbrev pub given : ℕ → ℕ → Buffer
given floats address = record {
  p =
      some
        record { address = address; size = if bytes_of floats == 0 then 64 else bytes_of floats };
  n = floats;
}

pub given-size :
    (floats : ℕ) → (if bytes_of floats == 0 then 64 else bytes_of floats) ≡ bytes_of floats
given-size floats = ground arith

pub given-IsSized : (floats address : ℕ) → floats * 4 ≤ size_max → IsSized (given floats address)
given-IsSized floats address h = (h, given-size floats ∙ bytes_of-exact floats h)
