-- ===== src/FrameMemory/Blocks.antt =====
-- The map of blocks of src/frontend/frame_memory.cpp: a list of blocks, each with its key.
use vapoursynth_nssfactory.Base.{
  ℕ, ◌+◌, ◌≤◌, ◌≡◌, refl, Bool, true, false, ◌&&◌, ◌||◌, List, [], ◌∷◌, Option, none, some, ◌==◌,
  if◌then◌else◌, arith,
}

pub data BlockState : Type 0 where
  seen locking locked failed : BlockState

abbrev pub is_seen : BlockState → Bool
is_seen BlockState.seen = true
is_seen _ = false

abbrev pub is_locking : BlockState → Bool
is_locking BlockState.locking = true
is_locking _ = false

abbrev pub is_locked : BlockState → Bool
is_locked BlockState.locked = true
is_locked _ = false

-- An entry of the map: the key (base, domain) and the block. Pointers are numbers, and a handle that
-- is null is none.
pub record Block : Type 0 where
  pub base : ℕ
  pub domain : ℕ
  pub size : ℕ
  pub core : ℕ
  pub state : BlockState
  pub handle : Option ℕ

abbrev pub has_key : ℕ → ℕ → Block → Bool
has_key base domain b = (b.base == base) && (b.domain == domain)

unfoldable pub find : ℕ → ℕ → List Block → Option Block
find base domain [] = none
find base domain (b ∷ bs) =
    let rest = find base domain bs in if has_key base domain b then some b else rest

-- `blocks[key].state = state; blocks[key].handle = handle;`, which adds an empty block if there is
-- none.
unfoldable pub put : ℕ → ℕ → BlockState → Option ℕ → List Block → List Block
put base domain state handle [] =
    record { base = base; domain = domain; size = 0; core = 0; state = state; handle = handle } ∷ []
put base domain state handle (b ∷ bs) =
    let rest = put base domain state handle bs in
    if has_key base domain b then record b { state = state; handle = handle } ∷ bs else b ∷ rest

-- The blocks that a loop leaves in the map.
unfoldable pub without : (Block → Bool) → List Block → List Block
without test [] = []
without test (b ∷ bs) = let rest = without test bs in if test b then rest else b ∷ rest

-- How many blocks have a key, and how many a core and a domain.
abbrev pub copies : ℕ → ℕ → List Block → ℕ
copies base domain [] = 0
copies base domain (b ∷ bs) = (if has_key base domain b then 1 else 0) + copies base domain bs

abbrev pub serving : ℕ → ℕ → List Block → ℕ
serving core domain [] = 0
serving core domain (b ∷ bs) =
    (if (b.core == core) && (b.domain == domain) then 1 else 0) + serving core domain bs

-- The bytes of a core's blocks that are locked or being locked, and of all locked blocks.
abbrev pub held : Block → ℕ
held b = if is_locking b.state || is_locked b.state then b.size else 0

abbrev pub reserved : ℕ → List Block → ℕ
reserved core [] = 0
reserved core (b ∷ bs) = (if b.core == core then held b else 0) + reserved core bs

abbrev pub locked_size : Block → ℕ
locked_size b = if is_locked b.state then b.size else 0

abbrev pub locked_sum : List Block → ℕ
locked_sum [] = 0
locked_sum (b ∷ bs) = locked_size b + locked_sum bs

-- A thread that is locking a block, between the two critical sections of `pinned`.
pub record Pin : Type 0 where
  pub core : ℕ
  pub domain : ℕ
  pub base : ℕ
  pub size : ℕ

abbrev pub is_pin : Pin → Block → Bool
is_pin p b =
    has_key p.base p.domain b && (b.core == p.core) && (b.size == p.size) && is_locking b.state

abbrev pub lockings : Pin → List Block → ℕ
lockings p [] = 0
lockings p (b ∷ bs) = (if is_pin p b then 1 else 0) + lockings p bs

pub find-none :
    (base domain : ℕ) (bs : List Block) → find base domain bs ≡ none → copies base domain bs ≡ 0
unfolding find
find-none base domain [] e = refl
find-none base domain (b ∷ bs) e = ground (arith, find-none base domain bs)

-- What a search finds has the key, and is one of the blocks.
pub find-key :
    (base domain : ℕ) (bs : List Block) (b : Block)
    → find base domain bs ≡ some b
    → (b.base ≡ base) × (b.domain ≡ domain)
unfolding find
find-key base domain [] b e = absurd (ground arith)
find-key base domain (c ∷ bs) b e = ground (arith, find-key base domain bs b)

pub find-reserved :
    (base domain core : ℕ) (bs : List Block) (b : Block)
    → find base domain bs ≡ some b
    → (if b.core == core then held b else 0) ≤ reserved core bs
unfolding find
find-reserved base domain core [] b e = absurd (ground arith)
find-reserved base domain core (c ∷ bs) b e = ground (arith, find-reserved base domain core bs b)

-- Changing a block in place, where no key is there twice.
module _ (base domain : ℕ) (state : BlockState) (handle : Option ℕ) (b : Block) where
  abbrev pub changed : Block
  changed = record b { state = state; handle = handle }

  pub put-copies :
      (bs : List Block) (x y : ℕ)
      → find base domain bs ≡ some b
      → copies x y (put base domain state handle bs) ≡ copies x y bs
  unfolding find put
  put-copies [] x y e = absurd (ground arith)
  put-copies (c ∷ bs) x y e = ground (arith, put-copies bs x y)

  pub put-serving :
      (bs : List Block) (x y : ℕ)
      → find base domain bs ≡ some b
      → serving x y (put base domain state handle bs) ≡ serving x y bs
  unfolding find put
  put-serving [] x y e = absurd (ground arith)
  put-serving (c ∷ bs) x y e = ground (arith, put-serving bs x y)

  pub put-reserved :
      (bs : List Block) (core : ℕ)
      → find base domain bs ≡ some b
      → reserved core (put base domain state handle bs) + (if b.core == core then held b else 0)
        ≡ reserved core bs + (if b.core == core then held changed else 0)
  unfolding find put
  put-reserved [] core e = absurd (ground arith)
  put-reserved (c ∷ bs) core e = ground (arith, put-reserved bs core)

  pub put-locked_sum :
      (bs : List Block)
      → find base domain bs ≡ some b
      → locked_sum (put base domain state handle bs) + locked_size b
        ≡ locked_sum bs + locked_size changed
  unfolding find put
  put-locked_sum [] e = absurd (ground arith)
  put-locked_sum (c ∷ bs) e = ground (arith, put-locked_sum bs)

  pub put-lockings :
      (bs : List Block) (p : Pin)
      → find base domain bs ≡ some b
      → lockings p (put base domain state handle bs) + (if is_pin p b then 1 else 0)
        ≡ lockings p bs + (if is_pin p changed then 1 else 0)
  unfolding find put
  put-lockings [] p e = absurd (ground arith)
  put-lockings (c ∷ bs) p e = ground (arith, put-lockings bs p)
