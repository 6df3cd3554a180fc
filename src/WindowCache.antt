-- ===== src/WindowCache.antt =====
-- src/vulkan/common/window_cache.hpp: the frames of a clip that are kept on the device, and the windows
-- of the requests that read them. A frame is known by its place in WindowCache::frames, which is what a
-- WindowFrame* of the source points to; the place never changes. A VkSemaphore is a number, and
-- VK_NULL_HANDLE is 0.
pub mod Frames
pub mod Search
pub mod Changes
pub mod Loop
pub mod Wanted
pub mod Opening
pub mod World
pub mod Later
pub mod Invariant
pub mod Preserved
pub mod Laws
pub mod Room
use vapoursynth_nssfactory.Base.{
  ℕ, zero, suc, ◌+◌, ◌-◌, ◌*◌, ◌%◌, ◌^◌, Bool, true, false, ◌&&◌, ◌||◌, not, ltb, leb, ◌==◌,
  if◌then◌else◌, ℤ, pos, negsuc, eq_ℤ, Option, none, some, List, [], ◌∷◌, ◌++◌, map, max, get_elem?,
}
use vapoursynth_nssfactory.Temporal.{temporal_slot_frame}

-- A stage of a slot: its timeline and its value.
abbrev pub Use : Type 0
Use = ℕ × ℕ

pub record WindowFrame : Type 0 where
  pub region : ℕ
  pub n : ℤ
  pub pins : ℕ
  pub queued : Bool
  pub failed : Bool
  pub used : ℕ
  pub ready : ℕ
  pub ready_value : ℕ
  pub uses : List Use

pub record WindowCache : Type 0 where
  pub frames : List WindowFrame
  pub clock : ℕ

-- slots_, pinned_ and uploads_.
pub record Window : Type 0 where
  pub slots : List (Option ℕ)
  pub pinned : List ℕ
  pub uploads : List ℕ

abbrev pub no_frame : ℤ
no_frame = negsuc 0

-- A write through a WindowFrame*.
abbrev pub modify {ℓ} : {A : Type ℓ} → (A → A) → ℕ → List A → List A
modify g i [] = []
modify g zero (x ∷ xs) = g x ∷ xs
modify g (suc i) (x ∷ xs) = x ∷ modify g i xs

-- `for (WindowFrame* f : list) ...`
abbrev pub modify_each {ℓ} : {A : Type ℓ} → (A → A) → List ℕ → List A → List A
modify_each g [] xs = xs
modify_each g (i ∷ is) xs = modify_each g is (modify g i xs)

-- std::find(...) != end.
abbrev pub has_number : ℤ → List ℤ → Bool
has_number v [] = false
has_number v (w ∷ ws) = eq_ℤ w v || has_number v ws

abbrev pub has_place : ℕ → List ℕ → Bool
has_place r [] = false
has_place r (s ∷ ss) = (s == r) || has_place r ss

-- The same on `found`, whose elements may be null.
abbrev pub in_found : ℕ → List (Option ℕ) → Bool
in_found r [] = false
in_found r (none ∷ found) = in_found r found
in_found r (some s ∷ found) = (s == r) || in_found r found

module _ (slot_frame : ℕ → ℤ) where
  -- The loop over `count` slots from t.
  unfoldable pub wanted_loop : ℕ → ℕ → List ℤ → List ℤ
  wanted_loop zero t wanted = wanted
  wanted_loop (suc count) t wanted =
      wanted_loop count (suc t)
        (if has_number (slot_frame t) wanted then wanted else wanted ++ slot_frame t ∷ [])

-- `found[i]` for wanted[i] == fn: the last frame with the number counts.
unfoldable pub find_loop : ℤ → ℕ → Option ℕ → List WindowFrame → Option ℕ
find_loop fn i found [] = found
find_loop fn i found (f ∷ fs) = find_loop fn (suc i) (if eq_ℤ f.n fn then some i else found) fs

abbrev pub find_all : List WindowFrame → List ℤ → List (Option ℕ)
find_all frames [] = []
find_all frames (fn ∷ wanted) = find_loop fn 0 none frames ∷ find_all frames wanted

abbrev pub count_missing : List (Option ℕ) → ℕ
count_missing [] = 0
count_missing (none ∷ found) = suc (count_missing found)
count_missing (some r ∷ found) = count_missing found

-- A frame that may be replaced: not pinned, and not among those found.
abbrev pub is_free : Bool → WindowFrame → Bool
is_free taken f = (f.pins == 0) && not taken

-- How many elements pass the test, with their places from i.
unfoldable pub count_where {ℓ} : {A : Type ℓ} → (ℕ → A → Bool) → ℕ → List A → ℕ
count_where test i [] = 0
count_where test i (x ∷ xs) =
    let rest = count_where test (suc i) xs in if test i x then suc rest else rest

unfoldable pub count_free : (ℕ → Bool) → List WindowFrame → ℕ
unfolding count_where
count_free taken = count_where (λ i f. is_free (taken i) f) 0

-- The predicate of the wait: `missing <= free`.
unfoldable pub can_open : List WindowFrame → List ℤ → Bool
unfolding count_free find_loop
can_open frames wanted =
    let found = find_all frames wanted in
    leb (count_missing found) (count_free (λ r. in_found r found) frames)

-- `if (!f || other->used < f->used) f = other`.
abbrev pub older : Option (ℕ × WindowFrame) → ℕ → WindowFrame → Option (ℕ × WindowFrame)
older none i f = some (i, f)
older (some (r, best)) i f = if ltb f.used best.used then some (i, f) else some (r, best)

unfoldable pub oldest_free :
    (ℕ → Bool) → ℕ → Option (ℕ × WindowFrame) → List WindowFrame → Option (ℕ × WindowFrame)
oldest_free taken i best [] = best
oldest_free taken i best (f ∷ fs) =
    oldest_free taken (suc i) (if is_free (taken i) f then older best i f else best) fs

-- `f->n = wanted[i]` and what follows.
abbrev pub replaced : ℤ → WindowFrame → WindowFrame
replaced fn f = record f { n = fn; queued = false; failed = false; ready = 0; ready_value = 0 }

-- `++f->pins; f->used = ...`
abbrev pub pinned_at : ℕ → WindowFrame → WindowFrame
pinned_at clock f = record f { pins = suc f.pins; used = clock }

-- The second loop of the constructor between two rounds: `pinned` is found[0, i) too.
pub record Pinning : Type 0 where
  pub cache : WindowCache
  pub pinned : List ℕ
  pub uploads : List ℕ

unfoldable pub pin : Pinning → ℕ → Pinning
pin p r =
    let clock = (p.cache.clock + 1) % 2 ^ 64 in
    record {
      cache = record { frames = modify (pinned_at clock) r p.cache.frames; clock = clock };
      pinned = p.pinned ++ r ∷ [];
      uploads = p.uploads;
    }

unfoldable pub replace : Pinning → ℕ → ℤ → Pinning
replace p r fn = record {
  cache = record p.cache { frames = modify (replaced fn) r p.cache.frames };
  pinned = p.pinned;
  uploads = p.uploads ++ r ∷ [];
}

-- What std::find(found...) answers at round i: `todo` is wanted and found from i on.
abbrev pub taken_in : List ℕ → List (ℤ × Option ℕ) → ℕ → Bool
taken_in pinned todo r = has_place r pinned || in_found r (map (λ entry. entry.1) todo)

-- none where the source would dereference the null pointer that the search for a free frame left.
unfoldable pub pin_loop : List (ℤ × Option ℕ) → Pinning → Option Pinning
unfolding pin replace oldest_free
pin_loop [] p = some p
pin_loop ((fn, some r) ∷ todo) p = pin_loop todo (pin p r)
pin_loop ((fn, none) ∷ todo) p = elim (oldest_free (taken_in p.pinned todo) 0 none p.cache.frames) [
  | none ↦ none
  | some (r, f) ↦ pin_loop todo (pin (replace p r fn) r)
]

abbrev pub zip {ℓ κ} : {A : Type ℓ} {B : Type κ} → List A → List B → List (A × B)
zip [] ys = []
zip (a ∷ xs) [] = []
zip (a ∷ xs) (b ∷ ys) = (a, b) ∷ zip xs ys

-- `found[std::find(wanted..., fn) - wanted.begin()]`
unfoldable pub place_of : ℤ → List ℤ → List ℕ → Option ℕ
place_of fn [] places = none
place_of fn (v ∷ wanted) [] = none
place_of fn (v ∷ wanted) (r ∷ places) = if eq_ℤ v fn then some r else place_of fn wanted places

unfoldable pub slot_loop : (ℕ → Option ℕ) → ℕ → ℕ → List (Option ℕ)
slot_loop place zero t = []
slot_loop place (suc count) t = place t ∷ slot_loop place count (suc t)

module _ (center radius clip_frames : ℕ) where
  abbrev pub slot_frame : ℕ → ℤ
  slot_frame t = temporal_slot_frame (pos center) (pos t) (pos radius) (pos clip_frames)

  unfoldable pub wanted_frames : List ℤ
  unfolding wanted_loop
  wanted_frames = wanted_loop slot_frame (2 * radius + 1) 0 []

  -- The members after the loop: the last loop of the constructor sets slots_.
  abbrev pub window_of : Pinning → Window
  window_of p = record {
    slots = slot_loop (λ t. place_of (slot_frame t) wanted_frames p.pinned) (2 * radius + 1) 0;
    pinned = p.pinned;
    uploads = p.uploads;
  }

  abbrev pub opened_from : Option Pinning → Option (WindowCache × Window)
  opened_from none = none
  opened_from (some p) = some (p.cache, window_of p)

  -- The constructor past its wait.
  unfoldable pub open_window : WindowCache → Option (WindowCache × Window)
  unfolding pin_loop wanted_frames slot_loop place_of find_loop
  open_window cache = opened_from (
      pin_loop (zip wanted_frames (find_all cache.frames wanted_frames))
        record { cache = cache; pinned = []; uploads = [] })

-- A frame of uploads_ in the destructor.
abbrev pub given_up : WindowFrame → WindowFrame
given_up f = if f.queued then f else record f { n = no_frame; failed = true }

-- `--f->pins`.
abbrev pub unpinned : WindowFrame → WindowFrame
unpinned f = record f { pins = f.pins - 1 }

-- ~Window.
unfoldable pub close_window : WindowCache → Window → WindowCache
close_window cache w = record cache {
  frames = modify_each unpinned w.pinned (modify_each given_up w.uploads cache.frames);
}

abbrev pub frame_test : (WindowFrame → Bool) → Option WindowFrame → Bool
frame_test test none = false
frame_test test (some f) = test f

unfoldable pub any_failed : List WindowFrame → List ℕ → Bool
any_failed frames [] = false
any_failed frames (r ∷ places) =
    frame_test (λ f. f.failed) (get_elem? frames r) || any_failed frames places

unfoldable pub all_queued : List WindowFrame → List ℕ → List ℕ → Bool
all_queued frames uploads [] = true
all_queued frames uploads (r ∷ places) =
    (frame_test (λ f. f.queued) (get_elem? frames r) || has_place r uploads)
    && all_queued frames uploads places

pub data Waited : Type 0 where
  sleeps throws returns : Waited

-- A round of the wait in wait_queued, with what it comes to.
unfoldable pub wait_queued : WindowCache → Window → Waited
unfolding any_failed all_queued
wait_queued cache w =
    if any_failed cache.frames w.pinned
    then throws
    else if all_queued cache.frames w.uploads w.pinned
    then returns
    else sleeps

abbrev pub marked : ℕ → ℕ → WindowFrame → WindowFrame
marked ready value f = record f {
  queued = true;
  ready = ready;
  ready_value = value;
  uses = if ready == 0 then [] else (ready, value) ∷ [];
}

unfoldable pub mark_queued : WindowCache → Window → ℕ → ℕ → WindowCache
mark_queued cache w ready value = record cache {
  frames = modify_each (marked ready value) w.uploads cache.frames;
}

unfoldable pub previous_uses : List WindowFrame → List ℕ → List Use
previous_uses frames [] = []
previous_uses frames (r ∷ uploads) =
    elim (get_elem? frames r) [ none ↦ [] | some f ↦ f.uses ] ++ previous_uses frames uploads

unfoldable pub add_use : Use → List Use → List Use
add_use (timeline, value) [] = (timeline, value) ∷ []
add_use (timeline, value) ((seen, last) ∷ uses) =
    if seen == timeline
    then (seen, max last value) ∷ uses
    else (seen, last) ∷ add_use (timeline, value) uses

abbrev pub read_once : Use → WindowFrame → WindowFrame
read_once compute f = record f { uses = add_use compute f.uses }

unfoldable pub read_by : WindowCache → Window → Use → WindowCache
unfolding add_use
read_by cache w (timeline, value) =
    if timeline == 0
    then cache
    else record cache { frames = modify_each (read_once (timeline, value)) w.pinned cache.frames }
