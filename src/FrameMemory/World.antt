-- ===== src/FrameMemory/World.antt =====
-- The instances that share the process-wide state, and the threads that are locking a block.
use vapoursynth_nssfactory.Base.{
  ℕ, ◌+◌, ◌≤◌, ◌<◌, ◌≡◌, Bool, true, false, ◌&&◌, List, [], ◌∷◌, Option, some, ◌==◌, if◌then◌else◌,
  ℤ, arith,
}
use vapoursynth_nssfactory.FrameMemory.Blocks.{Block, Pin, find}
use vapoursynth_nssfactory.FrameMemory.{
  State, start_state, on_release, attach, detach, Use, begin_pin, end_pin,
}

pub record Instance : Type 0 where
  pub core : ℕ
  pub domain : ℕ

-- The instances that have a core.
pub record World : Type 0 where
  pub state : State
  pub instances : List Instance
  pub pins : List Pin

abbrev pub is_instance : ℕ → ℕ → Instance → Bool
is_instance core domain i = (i.core == core) && (i.domain == domain)

abbrev pub instances_of : ℕ → ℕ → List Instance → ℕ
instances_of core domain [] = 0
instances_of core domain (i ∷ is) =
    (if is_instance core domain i then 1 else 0) + instances_of core domain is

abbrev pub instances_on : ℕ → List Instance → ℕ
instances_on core [] = 0
instances_on core (i ∷ is) = (if i.core == core then 1 else 0) + instances_on core is

unfoldable pub remove_instance : ℕ → ℕ → List Instance → List Instance
remove_instance core domain [] = []
remove_instance core domain (i ∷ is) =
    let rest = remove_instance core domain is in if is_instance core domain i then is else i ∷ rest

abbrev pub same_pin : Pin → Pin → Bool
same_pin p q =
    (q.base == p.base) && (q.domain == p.domain) && (q.core == p.core) && (q.size == p.size)

abbrev pub count_pin : Pin → List Pin → ℕ
count_pin p [] = 0
count_pin p (q ∷ qs) = (if same_pin p q then 1 else 0) + count_pin p qs

unfoldable pub remove_pin : Pin → List Pin → List Pin
remove_pin p [] = []
remove_pin p (q ∷ qs) = let rest = remove_pin p qs in if same_pin p q then qs else q ∷ rest

-- The threads that lock a block at a base, and those that serve a core and a domain.
abbrev pub pins_at : ℕ → List Pin → ℕ
pins_at base [] = 0
pins_at base (q ∷ qs) = (if q.base == base then 1 else 0) + pins_at base qs

abbrev pub pins_of : ℕ → ℕ → List Pin → ℕ
pins_of core domain [] = 0
pins_of core domain (q ∷ qs) =
    (if (q.core == core) && (q.domain == domain) then 1 else 0) + pins_of core domain qs

abbrev pub pins_after : Use → Pin → List Pin → List Pin
pins_after Use.staged p ps = ps
pins_after (Use.direct handle) p ps = ps
pins_after Use.locks_it p ps = p ∷ ps

-- A thread that uses an instance keeps it, and one that locks a block holds a frame in it, so that
-- the pool keeps the block. The frames of a core lie in blocks of its own pool. Caps are below 2 ^ 63
-- and blocks below 2 ^ 62 bytes.
pub data Step (w : World) : World → Type 0 where
  attaches :
      (core domain : ℕ) (id : ℤ) (cap : ℕ) (s : State)
      → cap < 0x8000000000000000
      → attach w.state core domain id cap ≡ (s, true)
      → Step w (record w {
        state = s;
        instances = record { core = core; domain = domain } ∷ w.instances;
      })
  finds_no_hook :
      (core domain : ℕ) (id : ℤ) (cap : ℕ) (s : State)
      → attach w.state core domain id cap ≡ (s, false)
      → Step w (record w { state = s })
  detaches :
      (core domain : ℕ)
      → 0 < instances_of core domain w.instances
      → (instances_of core domain w.instances ≡ 1 → pins_of core domain w.pins ≡ 0)
      → Step w (record w {
        state = detach w.state core domain;
        instances = remove_instance core domain w.instances;
      })
  begins :
      (p : Pin) (s : State) (found : Use)
      → 0 < instances_of p.core p.domain w.instances
      → p.size < 0x4000000000000000
      → ((b : Block) → find p.base p.domain w.state.blocks ≡ some b → b.core ≡ p.core)
      → begin_pin w.state p.core p.domain p.base p.size ≡ (s, found)
      → Step w (record w { state = s; pins = pins_after found p w.pins })
  ends :
      (p : Pin) (handle : Option ℕ)
      → 0 < count_pin p w.pins
      → Step w (record w {
        state = end_pin w.state p.core p.domain p.base p.size handle;
        pins = remove_pin p w.pins;
      })
  gives_back :
      (base : ℕ) → pins_at base w.pins ≡ 0 → Step w (record w { state = on_release w.state base })

abbrev pub start_world : World
start_world = record { state = start_state; instances = []; pins = [] }

pub data Reach : World → Type 0 where
  here : Reach start_world
  next : {v w : World} → Reach v → Step v w → Reach w

pub count-remove_pin :
    (p q : Pin) (ps : List Pin)
    → 0 < count_pin p ps
    → count_pin q (remove_pin p ps) + (if same_pin p q then 1 else 0) ≡ count_pin q ps
unfolding remove_pin
count-remove_pin p q [] h = absurd (ground arith)
count-remove_pin p q (x ∷ ps) h = ground (arith, count-remove_pin p q ps)

pub count-remove_instance :
    (core domain c d : ℕ) (is : List Instance)
    → 0 < instances_of core domain is
    → instances_of c d (remove_instance core domain is)
        + (if (core == c) && (domain == d) then 1 else 0)
      ≡ instances_of c d is
unfolding remove_instance
count-remove_instance core domain c d [] h = absurd (ground arith)
count-remove_instance core domain c d (x ∷ is) h =
    ground (arith, count-remove_instance core domain c d is)

pub on-remove_instance :
    (core domain c : ℕ) (is : List Instance)
    → 0 < instances_of core domain is
    → instances_on c (remove_instance core domain is) + (if core == c then 1 else 0)
      ≡ instances_on c is
unfolding remove_instance
on-remove_instance core domain c [] h = absurd (ground arith)
on-remove_instance core domain c (x ∷ is) h = ground (arith, on-remove_instance core domain c is)

pub instances_of-le : (c d : ℕ) (is : List Instance) → instances_of c d is ≤ instances_on c is
instances_of-le c d [] = omega arith
instances_of-le c d (x ∷ is) = ground (arith, instances_of-le c d is)

pub count_pin-at : (p : Pin) (ps : List Pin) → count_pin p ps ≤ pins_at p.base ps
count_pin-at p [] = omega arith
count_pin-at p (q ∷ ps) = ground (arith, count_pin-at p ps)

pub count_pin-of : (p : Pin) (ps : List Pin) → count_pin p ps ≤ pins_of p.core p.domain ps
count_pin-of p [] = omega arith
count_pin-of p (q ∷ ps) = ground (arith, count_pin-of p ps)
