-- ===== src/WindowCache/Laws.antt =====
-- What a request can rely on: its constructor, its wait, and the frames that it reads.
use mathlib.Core.Path.{subst}
use vapoursynth_nssfactory.Base.{
  ℕ, zero, suc, ◌+◌, ◌*◌, ◌≤◌, ◌<◌, ◌≡◌, refl, ◌∙◌, ap, inl, inr, ◌⊎◌, true, false, ◌||◌, ◌==◌, ℤ,
  pos, eq_ℤ, eq_ℤ→eq, Option, some, List, [], ◌∷◌, ◌++◌, get_elem?, arith, Bool-cases, ==_iff,
}
use vapoursynth_nssfactory.Temporal.{temporal_slot_frame}
use vapoursynth_nssfactory.WindowCache.{
  WindowFrame, WindowCache, Window, returns, sleeps, has_place, has_number, wanted_frames,
  slot_frame, slot_loop, place_of, open_window, wait_queued, any_failed, all_queued, can_open,
}
use vapoursynth_nssfactory.WindowCache.Changes.{pins_in, pins_of, count_place, KeepsPinned}
use vapoursynth_nssfactory.WindowCache.Loop.{Served}
use vapoursynth_nssfactory.WindowCache.Wanted.{
  wanted_frames-has, AreFrames, wanted_frames-AreFrames,
}
use vapoursynth_nssfactory.WindowCache.Opening.{open_window-Opened}
use vapoursynth_nssfactory.WindowCache.World.{Open, World, Reach}
use vapoursynth_nssfactory.WindowCache.Invariant.{
  Stands, Holds, IsHeld, AllHeld, pinned_by, uploaded_by, pinned_by-append, uploaded_by-append,
}
use vapoursynth_nssfactory.WindowCache.Preserved.{windows-IsConsistent}

AllHeld-at :
    (fs : List WindowFrame) (before after : List Open) (o : Open)
    → AllHeld fs (before ++ o ∷ after)
    → IsHeld fs o
AllHeld-at fs [] after o (h, rest) = h
AllHeld-at fs (x ∷ before) after o (h, rest) = AllHeld-at fs before after o rest

get_elem?-slot_loop :
    (place : ℕ → Option ℕ) (count first t s : ℕ)
    → t < count
    → first + t ≡ s
    → get_elem? (slot_loop place count first) t ≡ some (place s)
unfolding slot_loop
get_elem?-slot_loop place zero first t s h e = elim h [ ]
get_elem?-slot_loop place (suc count) first zero s h e = ap (λ k. some (place k)) (omega arith)
get_elem?-slot_loop place (suc count) first (suc t) s h e =
    get_elem?-slot_loop place count (suc first) t s (omega arith) (omega arith)

-- The place of a wanted frame is pinned and holds it, unless it was given up.
place_of-Stands :
    (fs : List WindowFrame) (fn : ℤ) (vs : List ℤ) (rs : List ℕ)
    → Holds fs vs rs
    → has_number fn vs ≡ true
    → (r : ℕ) × (place_of fn vs rs ≡ some r) × (has_place r rs ≡ true) × Stands fs fn r
unfolding place_of
place_of-Stands fs fn [] rs h wanted = absurd (ground arith)
place_of-Stands fs fn (v ∷ vs) [] h wanted = absurd h
place_of-Stands fs fn (v ∷ vs) (r ∷ rs) (here, rest) wanted = elim (Bool-cases (eq_ℤ v fn)) [
  | inl same ↦ (r, rw same refl, ground arith, subst (λ k. Stands fs k r) (eq_ℤ→eq v fn same) here)
  | inr other ↦
      let (s, e, pinned, stands) = place_of-Stands fs fn vs rs rest (ground arith) in
      (s, rw other e, ground arith, stands)
]

any_failed-at :
    (fs : List WindowFrame) (rs : List ℕ) (r : ℕ) (f : WindowFrame)
    → any_failed fs rs ≡ false
    → has_place r rs ≡ true
    → get_elem? fs r ≡ some f
    → f.failed ≡ false
unfolding any_failed
any_failed-at fs [] r f h p at = absurd (ground arith)
any_failed-at fs (s ∷ rs) r f h p at = elim (Bool-cases (s == r)) [
  | inl here ↦
      let now : get_elem? fs s ≡ some f = ap (get_elem? fs) ((==_iff s r).0 here) ∙ at in
      ground (arith, now)
  | inr there ↦ any_failed-at fs rs r f (ground arith) (ground arith) at
]

all_queued-at :
    (fs : List WindowFrame) (uploads rs : List ℕ) (r : ℕ) (f : WindowFrame)
    → all_queued fs uploads rs ≡ true
    → has_place r rs ≡ true
    → get_elem? fs r ≡ some f
    → (f.queued || has_place r uploads) ≡ true
unfolding all_queued
all_queued-at fs uploads [] r f h p at = absurd (ground arith)
all_queued-at fs uploads (s ∷ rs) r f h p at = elim (Bool-cases (s == r)) [
  | inl here ↦
      let e = (==_iff s r).0 here in
      let now : get_elem? fs s ≡ some f = ap (get_elem? fs) e ∙ at in
      ground (arith, now, ap (λ k. has_place k uploads) e)
  | inr there ↦ all_queued-at fs uploads rs r f (ground arith) (ground arith) at
]

standing :
    (f : WindowFrame) (v : ℤ)
    → f.failed ≡ false
    → ((f.n ≡ v) × (f.failed ≡ false)) ⊎ (f.failed ≡ true)
    → f.n ≡ v
standing f v fine (inl (num, _)) = num
standing f v fine (inr bad) = absurd (ground arith)

-- A frame of the window that wait_queued waits for.
unqueued-in :
    (fs : List WindowFrame) (uploads : List ℕ) (vs : List ℤ) (rs : List ℕ)
    → Holds fs vs rs
    → AreFrames vs
    → any_failed fs rs ≡ false
    → all_queued fs uploads rs ≡ false
    → (r : ℕ) × (f : WindowFrame) × (has_place r rs ≡ true)
      × (get_elem? fs r ≡ some f)
      × (f.queued ≡ false)
      × (has_place r uploads ≡ false)
      × ((m : ℕ) × (f.n ≡ pos m))
unfolding any_failed all_queued
unqueued-in fs uploads [] [] h a b c = absurd (ground arith)
unqueued-in fs uploads [] (r ∷ rs) h a b c = absurd h
unqueued-in fs uploads (v ∷ vs) [] h a b c = absurd h
unqueued-in fs uploads (v ∷ vs) (r ∷ rs) ((f, at, stands), rest) ((m, e), a) b c =
    elim (Bool-cases (f.queued || has_place r uploads)) [
      | inl ready ↦
          let (s, g, pinned, at_s, late, others, number) =
            unqueued-in fs uploads vs rs rest a (ground arith) (ground (arith, at)) in
          (s, g, ground arith, at_s, late, others, number)
      | inr late ↦ (
        r,
        f,
        ground arith,
        at,
        ground arith,
        ground arith,
        (m, standing f v (ground (arith, at)) stands ∙ e),
      )
    ]

has_place-counted : (r : ℕ) (rs : List ℕ) → has_place r rs ≡ true → 1 ≤ count_place r rs
has_place-counted r [] h = absurd (ground arith)
has_place-counted r (s ∷ rs) h = elim (Bool-cases (s == r)) [
  | inl here ↦ ground arith
  | inr there ↦ ground (arith, has_place-counted r rs (ground arith))
]

module _ {count : ℕ} {w : World} (reach : Reach count w) (before after : List Open) (o : Open)
    (among : w.windows ≡ before ++ o ∷ after) where
  pins_of-pinned : (r : ℕ) → has_place r o.window.pinned ≡ true → 0 < pins_of w.cache.frames r
  pins_of-pinned r h =
      let i = windows-IsConsistent reach in
      omega (
        arith,
        i.counted r,
        ap (pinned_by r) among,
        pinned_by-append r before (o ∷ after),
        has_place-counted r o.window.pinned h,
      )

  mine : IsHeld w.cache.frames o
  mine =
      AllHeld-at w.cache.frames before after o
        (subst (AllHeld w.cache.frames) among (windows-IsConsistent reach).held)

  slot_at :
      (r t : ℕ)
      → t < 2 * o.radius + 1
      → place_of
          (slot_frame o.center o.radius o.clip_frames t)
          (wanted_frames o.center o.radius o.clip_frames)
          o.window.pinned
        ≡ some r
      → get_elem? o.window.slots t ≡ some (some r)
  slot_at r t inside place =
      ap (λ slots. get_elem? slots t) mine.slots
      ∙ get_elem?-slot_loop _ (2 * o.radius + 1) 0 t t inside (omega arith)
      ∙ ap some place

  -- Once wait_queued has returned, slot t of an open window, for each of its 2 radius + 1 slots, is a
  -- frame with the number that temporal_slot_frame names, which is pinned, and which is queued or among
  -- the uploads of the window.
  pub window_reads :
      (t : ℕ)
      → t < 2 * o.radius + 1
      → wait_queued w.cache o.window ≡ returns
      → (r : ℕ) × (f : WindowFrame) × (get_elem? o.window.slots t ≡ some (some r))
        × (get_elem? w.cache.frames r ≡ some f)
        × (f.n ≡ temporal_slot_frame (pos o.center) (pos t) (pos o.radius) (pos o.clip_frames))
        × (0 < f.pins)
        × ((f.queued || has_place r o.window.uploads) ≡ true)
  unfolding wait_queued
  window_reads t inside e =
      let fn = slot_frame o.center o.radius o.clip_frames t in
      let (r, place, pinned, (f, at, stands)) =
        place_of-Stands w.cache.frames fn _ o.window.pinned mine.frames
          (wanted_frames-has o.center o.radius o.clip_frames t inside) in
      let fine = any_failed-at w.cache.frames o.window.pinned r f (ground arith) pinned at in
      (
        r,
        f,
        slot_at r t inside place,
        at,
        standing f fn fine stands,
        subst (λ x. 0 < pins_in x) at (pins_of-pinned r pinned),
        all_queued-at w.cache.frames o.window.uploads o.window.pinned r f (ground arith) pinned at,
      )

  -- If wait_queued makes a window wait, then a frame that it pinned is not queued, and another open
  -- window is to upload it.
  pub waits_for_uploader :
      wait_queued w.cache o.window ≡ sleeps
      → (r : ℕ) × (f : WindowFrame) × (has_place r o.window.pinned ≡ true)
        × (get_elem? w.cache.frames r ≡ some f)
        × (f.queued ≡ false)
        × (has_place r o.window.uploads ≡ false)
        × (uploaded_by r (before ++ after) ≡ true)
  unfolding wait_queued
  waits_for_uploader e =
      let i = windows-IsConsistent reach in
      let fs = w.cache.frames in
      let (r, f, pinned, at, late, not_mine, (m, num)) =
        unqueued-in fs o.window.uploads _ o.window.pinned mine.frames
          (wanted_frames-AreFrames o.center o.radius o.clip_frames mine.inside) (ground arith)
          (ground arith) in
      let split : uploaded_by r w.windows
          ≡ (uploaded_by r before || (has_place r o.window.uploads || uploaded_by r after)) =
        ap (uploaded_by r) among ∙ uploaded_by-append r before (o ∷ after) in
      let was = i.uploaded r f at (ground (arith, num)) in
      (
        r,
        f,
        pinned,
        at,
        late,
        not_mine,
        uploaded_by-append r before after ∙ ground (arith, split, was, not_mine),
      )

-- In a reachable state in which the constructor's wait is over, for a frame of the clip, the constructor
-- does not dereference a null pointer: it returns a window, whose places hold the frames that it wants,
-- none of them given up and each pinned; the frames that other windows have pinned keep their numbers and
-- flags; and each frame has a pin more for each of the window's places that is the frame.
pub open_window_safe :
    {count : ℕ} {w : World}
    → Reach count w
    → (center radius clip_frames : ℕ) → center < clip_frames
    → can_open w.cache.frames (wanted_frames center radius clip_frames) ≡ true
    → (cache : WindowCache) × (window : Window) × (open_window center radius clip_frames w.cache
        ≡ some (cache, window))
      × Served cache.frames (wanted_frames center radius clip_frames) window.pinned
      × KeepsPinned w.cache.frames cache.frames
      × ((r : ℕ) → pins_of cache.frames r ≡ pins_of w.cache.frames r + count_place r window.pinned)
open_window_safe {w = w} reach center radius clip_frames inside room =
    let (cache, window, e, o) =
      open_window-Opened center radius clip_frames w.cache inside
        (windows-IsConsistent reach).given_up room in
    (cache, window, e, o.served, o.keeps, o.counted)
