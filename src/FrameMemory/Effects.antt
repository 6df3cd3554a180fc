-- ===== src/FrameMemory/Effects.antt =====
-- What a search for a locking block finds, and what the blocks of a test are.
use vapoursynth_nssfactory.Base.{
  ℕ, ◌≤◌, ◌<◌, ◌≡◌, refl, inl, inr, Bool, true, List, [], ◌∷◌, some, arith, Bool-cases,
}
use vapoursynth_nssfactory.FrameMemory.Blocks.{
  Block, is_locking, reserved, copies, serving, Pin, is_pin, lockings, has_key, find,
}
use vapoursynth_nssfactory.FrameMemory.Sweep.{NoneLocking}
use vapoursynth_nssfactory.FrameMemory.{of_base, of_domain}
use vapoursynth_nssfactory.FrameMemory.World.{
  pins_at, pins_of, count_pin, count_pin-at, count_pin-of,
}

lockings-copies : (p : Pin) (bs : List Block) → lockings p bs ≤ copies p.base p.domain bs
lockings-copies p [] = omega arith
lockings-copies p (b ∷ bs) = ground (arith, lockings-copies p bs)

-- The block that a thread is locking is the one that is found for its key.
pub lockings-find :
    (p : Pin) (bs : List Block)
    → copies p.base p.domain bs ≤ 1
    → 0 < lockings p bs
    → (b : Block) × (find p.base p.domain bs ≡ some b) × (is_pin p b ≡ true)
unfolding find
lockings-find p [] u h = absurd (omega arith)
lockings-find p (b ∷ bs) u h = elim (Bool-cases (has_key p.base p.domain b)) [
  | inl k ↦ (b, rw k refl, ground (arith, lockings-copies p bs))
  | inr k ↦ let (c, e, i) = lockings-find p bs (ground arith) (ground arith) in (c, rw k e, i)
]

-- A block that is being locked has a thread that does it.
own_pin : Block → Pin
own_pin b = record { core = b.core; domain = b.domain; base = b.base; size = b.size }

locking-pins :
    (b : Block) (bs : List Block) → is_locking b.state ≡ true → 0 < lockings (own_pin b) (b ∷ bs)
unfolding own_pin
locking-pins b bs h = ground arith

NoneLocking-from :
    (test : Block → Bool) (bs : List Block)
    → ((b : Block) → test b ≡ true → lockings (own_pin b) bs ≡ 0)
    → NoneLocking test bs
NoneLocking-from test [] f = tt
NoneLocking-from test (b ∷ bs) f =
    (ground (arith, f b, locking-pins b bs), NoneLocking-from test bs (λ c h. omega (arith, f c h)))

pub NoneLocking-base :
    (base : ℕ) (bs : List Block) (pins : List Pin)
    → ((p : Pin) → lockings p bs ≡ count_pin p pins)
    → pins_at base pins ≡ 0
    → NoneLocking (of_base base) bs
unfolding own_pin
NoneLocking-base base bs pins e h =
    NoneLocking-from (of_base base) bs
      (λ b t. ground (arith, e (own_pin b), count_pin-at (own_pin b) pins))

pub NoneLocking-domain :
    (core domain : ℕ) (bs : List Block) (pins : List Pin)
    → ((p : Pin) → lockings p bs ≡ count_pin p pins)
    → pins_of core domain pins ≡ 0
    → NoneLocking (of_domain core domain) bs
unfolding own_pin
NoneLocking-domain core domain bs pins e h =
    NoneLocking-from (of_domain core domain) bs
      (λ b t. ground (arith, e (own_pin b), count_pin-of (own_pin b) pins))

-- A core none of whose domains has a block has no locked bytes.
pub serving-reserved :
    (core : ℕ) (bs : List Block)
    → ((domain : ℕ) → serving core domain bs ≡ 0)
    → reserved core bs ≡ 0
serving-reserved core [] f = refl
serving-reserved core (b ∷ bs) f =
    ground (arith, f b.domain, serving-reserved core bs (λ d. omega (arith, f d)))
