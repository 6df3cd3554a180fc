-- ===== src/WindowCache/Invariant.antt =====
-- What every reachable state of a cache and its windows has in common.
use mathlib.Core.Path.{subst}
use vapoursynth_nssfactory.Base.{
  ℕ, ◌+◌, ◌*◌, ◌≤◌, ◌<◌, ◌≡◌, refl, inl, ◌⊎◌, Bool, true, false, ◌||◌, ℤ, Option, some, List, [],
  ◌∷◌, ◌++◌, get_elem?, arith,
}
use vapoursynth_nssfactory.WindowCache.{
  WindowFrame, has_place, wanted_frames, slot_frame, slot_loop, place_of,
}
use vapoursynth_nssfactory.WindowCache.Changes.{
  pins_in, pins_of, count_place, GivenUp, IsUnique, KeepsPinned,
}
use vapoursynth_nssfactory.WindowCache.Loop.{is_open, Served}
use vapoursynth_nssfactory.WindowCache.Later.{AllLater}
use vapoursynth_nssfactory.WindowCache.World.{Open, World}

-- The frame at r has the number, or was given up by the request that was to upload it.
abbrev pub Stands : List WindowFrame → ℤ → ℕ → Type 0
Stands fs v r =
    (f : WindowFrame) × (get_elem? fs r ≡ some f)
    × (((f.n ≡ v) × (f.failed ≡ false)) ⊎ (f.failed ≡ true))

abbrev pub Holds : List WindowFrame → List ℤ → List ℕ → Type 0
Holds fs [] [] = Unit
Holds fs [] (r ∷ rs) = ⊥
Holds fs (v ∷ vs) [] = ⊥
Holds fs (v ∷ vs) (r ∷ rs) = Stands fs v r × Holds fs vs rs

abbrev pub slots_of : Open → List (Option ℕ)
slots_of o =
    slot_loop
      (λ t.
        place_of (slot_frame o.center o.radius o.clip_frames t)
          (wanted_frames o.center o.radius o.clip_frames) o.window.pinned)
      (2 * o.radius + 1) 0

-- The frames of an open window, place by place.
pub record IsHeld (fs : List WindowFrame) (o : Open) : Type 0 where
  pub inside : o.center < o.clip_frames
  pub frames : Holds fs (wanted_frames o.center o.radius o.clip_frames) o.window.pinned
  pub slots : o.window.slots ≡ slots_of o

abbrev pub AllHeld : List WindowFrame → List Open → Type 0
AllHeld fs [] = Unit
AllHeld fs (o ∷ os) = IsHeld fs o × AllHeld fs os

-- How often the open windows pin a place.
abbrev pub pinned_by : ℕ → List Open → ℕ
pinned_by r [] = 0
pinned_by r (o ∷ os) = count_place r o.window.pinned + pinned_by r os

abbrev pub uploaded_by : ℕ → List Open → Bool
uploaded_by r [] = false
uploaded_by r (o ∷ os) = has_place r o.window.uploads || uploaded_by r os

pub record IsConsistent (w : World) : Type 0 where
  pub counted : (r : ℕ) → pins_of w.cache.frames r ≡ pinned_by r w.windows
  pub unique : IsUnique w.cache.frames
  pub given_up : GivenUp w.cache.frames
  pub held : AllHeld w.cache.frames w.windows
  pub uploaded :
      (r : ℕ) (f : WindowFrame)
      → get_elem? w.cache.frames r ≡ some f
      → is_open f ≡ true
      → uploaded_by r w.windows ≡ true

pub pinned_by-append :
    (r : ℕ) (xs ys : List Open) → pinned_by r (xs ++ ys) ≡ pinned_by r xs + pinned_by r ys
pinned_by-append r [] ys = omega arith
pinned_by-append r (o ∷ xs) ys = omega (arith, pinned_by-append r xs ys)

pub uploaded_by-append :
    (r : ℕ) (xs ys : List Open) → uploaded_by r (xs ++ ys) ≡ (uploaded_by r xs || uploaded_by r ys)
uploaded_by-append r [] ys = refl
uploaded_by-append r (o ∷ xs) ys = ground (arith, uploaded_by-append r xs ys)

pub AllHeld-without :
    (fs : List WindowFrame) (before after : List Open) (o : Open)
    → AllHeld fs (before ++ o ∷ after)
    → AllHeld fs (before ++ after)
AllHeld-without fs [] after o (h, rest) = rest
AllHeld-without fs (x ∷ before) after o (h, rest) = (h, AllHeld-without fs before after o rest)

-- The open windows through a call of one of them.
module _ (fs gs : List WindowFrame) (later : AllLater fs gs) where
  Holds-later : (vs : List ℤ) (rs : List ℕ) → Holds fs vs rs → Holds gs vs rs
  Holds-later [] [] h = tt
  Holds-later [] (r ∷ rs) h = h
  Holds-later (v ∷ vs) [] h = h
  Holds-later (v ∷ vs) (r ∷ rs) ((f, at, stands), rest) =
      let (g, at_g, l) = later.forward r f at in
      ((g, at_g, ground (arith, l.stands, stands)), Holds-later vs rs rest)

  pub AllHeld-later : (os : List Open) → AllHeld fs os → AllHeld gs os
  AllHeld-later [] h = tt
  AllHeld-later (o ∷ os) (h, rest) = (
    record { inside = h.inside; frames = Holds-later _ o.window.pinned h.frames; slots = h.slots },
    AllHeld-later os rest,
  )

  pub GivenUp-later : GivenUp fs → GivenUp gs
  GivenUp-later h r g at bad = let (f, at_f, l) = later.backward r g at in l.gone (h r f at_f) bad

-- The open windows through a constructor, which replaces no pinned frame.
module _ (fs gs : List WindowFrame) (keeps : KeepsPinned fs gs) where
  Holds-keeps :
      (vs : List ℤ) (rs : List ℕ)
      → ((r : ℕ) → count_place r rs ≤ pins_of fs r)
      → Holds fs vs rs
      → Holds gs vs rs
  Holds-keeps [] [] pins h = tt
  Holds-keeps [] (r ∷ rs) pins h = h
  Holds-keeps (v ∷ vs) [] pins h = h
  Holds-keeps (v ∷ vs) (r ∷ rs) pins ((f, at, stands), rest) =
      let held = subst (λ o. count_place r (r ∷ rs) ≤ pins_in o) at (pins r) in
      let (g, at_g, same) = keeps r f at (ground arith) in
      (
        (g, at_g, ground (arith, same.n, same.failed, stands)),
        Holds-keeps vs rs (λ s. omega (arith, pins s)) rest,
      )

  pub AllHeld-keeps :
      (os : List Open) → ((r : ℕ) → pinned_by r os ≤ pins_of fs r) → AllHeld fs os → AllHeld gs os
  AllHeld-keeps [] pins h = tt
  AllHeld-keeps (o ∷ os) pins (h, rest) = (
    record {
      inside = h.inside;
      frames = Holds-keeps _ o.window.pinned (λ r. omega (arith, pins r)) h.frames;
      slots = h.slots;
    },
    AllHeld-keeps os (λ r. omega (arith, pins r)) rest,
  )

pub Served-Holds :
    (fs : List WindowFrame) (vs : List ℤ) (rs : List ℕ) → Served fs vs rs → Holds fs vs rs
Served-Holds fs [] [] h = tt
Served-Holds fs [] (r ∷ rs) h = h
Served-Holds fs (v ∷ vs) [] h = h
Served-Holds fs (v ∷ vs) (r ∷ rs) (((f, at, num, fine), pins), rest) =
    ((f, at, inl (num, fine)), Served-Holds fs vs rs rest)
