-- ===== src/FrameMemory/Sweep.antt =====
-- The loops that unlock blocks and erase them.
use vapoursynth_nssfactory.Base.{
  ℕ, ◌+◌, ◌%◌, ◌^◌, ◌≤◌, ◌≡◌, refl, inl, inr, Bool, true, false, ◌&&◌, List, [], ◌∷◌, ◌==◌,
  if◌then◌else◌, arith, Bool-cases, ◌∙◌, ap,
}
use vapoursynth_nssfactory.Checked.{size_max}
use vapoursynth_nssfactory.Resources.{minus}
use vapoursynth_nssfactory.FrameMemory.Blocks.{
  Block, is_locking, is_locked, held, reserved, locked_size, locked_sum, without, copies, serving,
  Pin, lockings,
}
use vapoursynth_nssfactory.FrameMemory.{State, unlock_block, release_block, sweep, of_domain}

-- What the body of a loop does with a block.
pub record Unlocks (act : State → Block → State) : Type 0 where
  pub bytes :
      (s : State) (b : Block) (c : ℕ)
      → ((act s b).locks c).bytes ≡ (
          if is_locked b.state && (b.core == c)
          then minus (s.locks c).bytes b.size
          else (s.locks c).bytes)
  pub cap : (s : State) (b : Block) (c : ℕ) → ((act s b).locks c).cap ≡ (s.locks c).cap
  pub total :
      (s : State) (b : Block)
      → (act s b).locked_bytes
        ≡ (if is_locked b.state then minus s.locked_bytes b.size else s.locked_bytes)
  pub domains : (s : State) (b : Block) → (act s b).domains ≡ s.domains
  pub cores : (s : State) (b : Block) → (act s b).cores ≡ s.cores

pub unlock_block-Unlocks : Unlocks unlock_block
unfolding unlock_block
unlock_block-Unlocks = record {
  bytes = λ s b c. ground arith;
  cap = λ s b c. ground arith;
  total = λ s b. ground arith;
  domains = λ s b. ground arith;
  cores = λ s b. ground arith;
}

pub release_block-Unlocks : Unlocks release_block
unfolding release_block unlock_block
release_block-Unlocks = record {
  bytes = λ s b c. ground arith;
  cap = λ s b c. ground arith;
  total = λ s b. ground arith;
  domains = λ s b. ground arith;
  cores = λ s b. ground arith;
}

-- No block of the test is being locked.
abbrev pub NoneLocking : (Block → Bool) → List Block → Type 0
NoneLocking test [] = Unit {0}
NoneLocking test (b ∷ bs) = ((test b && is_locking b.state) ≡ false) × NoneLocking test bs

abbrev own : ℕ → Block → ℕ
own c b = if b.core == c then held b else 0

pub without-domain :
    (core domain : ℕ) (bs : List Block)
    → serving core domain (without (of_domain core domain) bs) ≡ 0
unfolding without
without-domain core domain [] = refl
without-domain core domain (b ∷ bs) = ground (arith, without-domain core domain bs)

module _ (test : Block → Bool) where
  pub without-copies : (x y : ℕ) (bs : List Block) → copies x y (without test bs) ≤ copies x y bs
  unfolding without
  without-copies x y [] = omega arith
  without-copies x y (b ∷ bs) = ground (arith, without-copies x y bs)

  pub without-reserved : (c : ℕ) (bs : List Block) → reserved c (without test bs) ≤ reserved c bs
  unfolding without
  without-reserved c [] = omega arith
  without-reserved c (b ∷ bs) = ground (arith, without-reserved c bs)

  pub without-serving : (x y : ℕ) (bs : List Block) → serving x y (without test bs) ≤ serving x y bs
  unfolding without
  without-serving x y [] = omega arith
  without-serving x y (b ∷ bs) = ground (arith, without-serving x y bs)

  pub without-lockings :
      (p : Pin) (bs : List Block)
      → NoneLocking test bs
      → lockings p (without test bs) ≡ lockings p bs
  unfolding without
  without-lockings p [] h = refl
  without-lockings p (b ∷ bs) h = ground (arith, without-lockings p bs h.1, h.0)

bytes_at : (c : ℕ) {s t : State} → s ≡ t → (s.locks c).bytes ≡ (t.locks c).bytes
bytes_at c e = ap (λ (x : State). (x.locks c).bytes) e

module _ (test : Block → Bool) {act : State → Block → State} (u : Unlocks act) where
  sweep-taken :
      (b : Block) (bs : List Block) (s : State)
      → test b ≡ true
      → sweep test act s (b ∷ bs) ≡ sweep test act (act s b) bs
  unfolding sweep
  sweep-taken b bs s h = rw h refl

  sweep-left :
      (b : Block) (bs : List Block) (s : State)
      → test b ≡ false
      → sweep test act s (b ∷ bs) ≡ sweep test act s bs
  unfolding sweep
  sweep-left b bs s h = rw h refl

  pub sweep-bytes :
      (bs : List Block) (s : State) (others : ℕ → ℕ)
      → NoneLocking test bs
      → ((c : ℕ) → (s.locks c).bytes ≡ reserved c bs + others c)
      → ((c : ℕ) → (s.locks c).bytes ≤ size_max)
      → (c : ℕ) → ((sweep test act s bs).locks c).bytes ≡ reserved c (without test bs) + others c
  unfolding sweep without
  sweep-bytes [] s others n e f c = e c
  sweep-bytes (b ∷ bs) s others n e f c = elim (Bool-cases (test b)) [
    | inl h ↦
        let rest : ((sweep test act (act s b) bs).locks c).bytes
            ≡ reserved c (without test bs) + others c =
          sweep-bytes bs (act s b) others n.1 (λ x. ground (arith, u.bytes s b x, e x, f x, n.0, h))
            (λ x. ground (arith, u.bytes s b x, e x, f x, n.0, h)) c in
        bytes_at c (sweep-taken b bs s h) ∙ rw (without, h) rest
    | inr h ↦
        let rest : ((sweep test act s bs).locks c).bytes
            ≡ reserved c (without test bs) + (others c + own c b) =
          sweep-bytes bs s (λ x. others x + own x b) n.1 (λ x. omega (arith, e x)) f c in
        bytes_at c (sweep-left b bs s h) ∙ rw (without, h) (omega (arith, rest))
  ]

  pub sweep-total :
      (bs : List Block) (s : State) (others : ℕ)
      → NoneLocking test bs
      → s.locked_bytes ≡ (locked_sum bs + others) % 2 ^ 64
      → ((c : ℕ) → reserved c bs ≤ size_max)
      → (sweep test act s bs).locked_bytes ≡ (locked_sum (without test bs) + others) % 2 ^ 64
  unfolding sweep without
  sweep-total [] s others n e f = e
  sweep-total (b ∷ bs) s others n e f = elim (Bool-cases (test b)) [
    | inl h ↦
        rw (sweep, h)
          (sweep-total bs (act s b) others n.1 (ground (arith, u.total s b, f b.core))
            (λ c. omega (arith, f c)))
    | inr h ↦
        let rest : (sweep test act s bs).locked_bytes
            ≡ (locked_sum (without test bs) + (others + locked_size b)) % 2 ^ 64 =
          sweep-total bs s (others + locked_size b) n.1 (omega (arith, e))
            (λ c. omega (arith, f c)) in
        rw (sweep, h) (omega (arith, rest))
  ]

  pub sweep-same :
      (bs : List Block) (s : State)
      → ((c : ℕ) → ((sweep test act s bs).locks c).cap ≡ (s.locks c).cap)
        × ((sweep test act s bs).domains ≡ s.domains)
        × ((sweep test act s bs).cores ≡ s.cores)
  unfolding sweep
  sweep-same [] s = (λ c. refl, refl, refl)
  sweep-same (b ∷ bs) s = elim (Bool-cases (test b)) [
    | inl h ↦
        let (p, q, r) = sweep-same bs (act s b) in
        rw (sweep, h) (λ c. p c ∙ u.cap s b c, q ∙ u.domains s b, r ∙ u.cores s b)
    | inr h ↦ rw (sweep, h) (sweep-same bs s)
  ]
