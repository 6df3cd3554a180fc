-- ===== src/WindowCache/Preserved.antt =====
-- Every step of a request keeps the cache and its windows consistent.
use mathlib.Core.Path.{subst}
use vapoursynth_nssfactory.Base.{
  ℕ, zero, suc, ◌+◌, ◌≤◌, ◌<◌, ◌≡◌, refl, sym, ◌∙◌, ap, inl, inr, false, ◌||◌, ◌==◌, pos, some,
  List, ◌∷◌, ◌++◌, get_elem?, arith, Bool-cases,
}
use vapoursynth_nssfactory.WindowCache.{
  WindowFrame, WindowCache, Window, has_place, no_frame, close_window, mark_queued, read_by,
  modify_each, given_up, unpinned, marked, read_once, count_where,
}
use vapoursynth_nssfactory.WindowCache.Search.{holders, numbered}
use vapoursynth_nssfactory.WindowCache.Changes.{pins_of, count_place}
use vapoursynth_nssfactory.WindowCache.Loop.{is_open}
use vapoursynth_nssfactory.WindowCache.Opening.{Opened, open_window-Opened}
use vapoursynth_nssfactory.WindowCache.Later.{
  Later, Later-given_up, Later-unpinned, Later-marked, Later-read, AllLater, AllLater-trans,
  AllLater-each, closed_each, holders-each, pins_of-each, pins_of-unpinned,
}
use vapoursynth_nssfactory.WindowCache.World.{Open, World, Step, Reach, start_world, fresh_frames}
use vapoursynth_nssfactory.WindowCache.Invariant.{
  IsConsistent, AllHeld, pinned_by, uploaded_by, pinned_by-append, uploaded_by-append,
  AllHeld-without, AllHeld-later, GivenUp-later, AllHeld-keeps, Served-Holds,
}

-- A change of the frames that leaves the pins and adds no number.
record Calms (fs gs : List WindowFrame) : Type 0 where
  later : AllLater fs gs
  pins : (r : ℕ) → pins_of gs r ≡ pins_of fs r
  fewer : (m : ℕ) → holders (pos m) gs ≤ holders (pos m) fs

Calms-each :
    (change : WindowFrame → WindowFrame) (is : List ℕ) (fs : List WindowFrame)
    → ((f : WindowFrame) → Later f (change f))
    → ((f : WindowFrame) → (change f).pins ≡ f.pins)
    → Calms fs (modify_each change is fs)
Calms-each change is fs later pins = record {
  later = AllLater-each change later is fs;
  pins = pins_of-each change pins is fs;
  fewer = λ m. holders-each change later m is fs;
}

-- Such a change keeps the state consistent.
calm_step :
    (w : World) (cache : WindowCache)
    → Calms w.cache.frames cache.frames
    → IsConsistent w
    → IsConsistent (record w { cache = cache })
calm_step w cache c i = record {
  counted = λ r. c.pins r ∙ i.counted r;
  unique = λ m. omega (arith, i.unique m, c.fewer m);
  given_up = GivenUp-later w.cache.frames cache.frames c.later i.given_up;
  held = AllHeld-later w.cache.frames cache.frames c.later w.windows i.held;
  uploaded = λ r g at o.
      let (f, at_f, l) = c.later.backward r g at in i.uploaded r f at_f (l.open_before o);
}

opens_step :
    (v : World) (center radius clip_frames : ℕ) (cache : WindowCache) (window : Window)
    → center < clip_frames
    → Opened center radius clip_frames v.cache cache window
    → IsConsistent v
    → IsConsistent record {
      cache = cache;
      windows =
          record { center = center; radius = radius; clip_frames = clip_frames; window = window }
          ∷ v.windows;
    }
opens_step v center radius clip_frames cache window inside o i = record {
  counted = λ r. omega (arith, o.counted r, i.counted r);
  unique = o.unique i.unique;
  given_up = o.given_up;
  held = (
    record {
      inside = inside;
      frames = Served-Holds cache.frames _ window.pinned o.served;
      slots = o.slots;
    },
    AllHeld-keeps v.cache.frames cache.frames o.keeps v.windows (λ r. omega (arith, i.counted r))
        i.held,
  );
  uploaded = λ r g at open_now. elim (Bool-cases (has_place r window.uploads)) [
    | inl mine ↦ ground arith
    | inr others ↦
        let (f, at_f, open_then) = o.uploaded r g at open_now others in
        ground (arith, i.uploaded r f at_f open_then)
  ];
}

closes_step :
    (v : World) (before after : List Open) (o : Open)
    → v.windows ≡ before ++ o ∷ after
    → IsConsistent v
    → IsConsistent record { cache = close_window v.cache o.window; windows = before ++ after }
unfolding close_window
closes_step v before after o e i =
    let fs = v.cache.frames in
    let uploads = o.window.uploads in
    let pinned = o.window.pinned in
    let hs = modify_each given_up uploads fs in
    let gs = modify_each unpinned pinned hs in
    let first = AllLater-each given_up Later-given_up uploads fs in
    let second = AllLater-each unpinned Later-unpinned pinned hs in
    let later = AllLater-trans fs hs gs first second in
    record {
      counted = λ r.
          let split : pinned_by r v.windows
              ≡ pinned_by r before + (count_place r pinned + pinned_by r after) =
            ap (pinned_by r) e ∙ pinned_by-append r before (o ∷ after) in
          omega (
            arith,
            pins_of-unpinned pinned hs r,
            pins_of-each given_up (λ f. ground arith) uploads fs r,
            i.counted r,
            split,
            pinned_by-append r before after,
          );
      unique = λ m. omega (
        arith,
        i.unique m,
        holders-each given_up Later-given_up m uploads fs,
        holders-each unpinned Later-unpinned m pinned hs,
      );
      given_up = GivenUp-later fs gs later i.given_up;
      held =
          AllHeld-later fs gs later (before ++ after)
            (AllHeld-without fs before after o (subst (AllHeld fs) e i.held));
      uploaded = λ r g at open_now.
          let (h, at_h, l) = second.backward r g at in
          let (f, at_f, k) = first.backward r h at_h in
          let open_h = l.open_before open_now in
          let split : uploaded_by r v.windows
              ≡ (uploaded_by r before || (has_place r uploads || uploaded_by r after)) =
            ap (uploaded_by r) e ∙ uploaded_by-append r before (o ∷ after) in
          let was = i.uploaded r f at_f (k.open_before open_h) in
          elim (Bool-cases (has_place r uploads)) [
            | inl mine ↦ absurd (
                ground (
                  arith,
                  closed_each given_up Later-given_up (λ x. ground arith) uploads fs r h mine at_h,
                ))
            | inr others ↦ uploaded_by-append r before after ∙ ground (arith, split, was)
          ];
    }

Step-IsConsistent : {v w : World} → Step v w → IsConsistent v → IsConsistent w
unfolding mark_queued read_by
Step-IsConsistent {v} (Step.opens center radius clip_frames cache window inside room e) i =
    let (after, w, f, o) =
      open_window-Opened center radius clip_frames v.cache inside i.given_up room in
    let same_cache : after ≡ cache = ground (arith, sym f ∙ e) in
    let same_window : w ≡ window = ground (arith, sym f ∙ e) in
    opens_step v center radius clip_frames cache window inside
      (subst (λ c. Opened center radius clip_frames v.cache c window) same_cache
        (subst (λ x. Opened center radius clip_frames v.cache after x) same_window o))
      i
Step-IsConsistent {v} (Step.queues before after o ready value e) i =
    calm_step v _
      (Calms-each (marked ready value) o.window.uploads v.cache.frames (Later-marked ready value)
        (λ f. refl))
      i
Step-IsConsistent {v} (Step.reads before after o (timeline, value) e) i =
    elim (Bool-cases (timeline == 0)) [
      | inl nothing ↦ rw nothing i
      | inr stage ↦ rw stage (
          calm_step v _
            (Calms-each (read_once (timeline, value)) o.window.pinned v.cache.frames
              (Later-read (timeline, value)) (λ f. refl))
            i)
    ]
Step-IsConsistent {v} (Step.closes before after o e) i = closes_step v before after o e i

-- A cache as it is made.
start_pins : (count region r : ℕ) → pins_of (fresh_frames count region) r ≡ 0
start_pins zero region r = refl
start_pins (suc count) region zero = refl
start_pins (suc count) region (suc r) = start_pins count (suc region) r

start_at :
    (count region r : ℕ) (f : WindowFrame)
    → get_elem? (fresh_frames count region) r ≡ some f
    → (f.n ≡ no_frame) × (is_open f ≡ false)
start_at zero region r f at = absurd (ground arith)
start_at (suc count) region zero f at = (ground arith, ground arith)
start_at (suc count) region (suc r) f at = start_at count (suc region) r f at

start_holders :
    (m count region k : ℕ) → count_where (numbered (pos m)) k (fresh_frames count region) ≡ 0
unfolding count_where
start_holders m zero region k = refl
start_holders m (suc count) region k = ground (arith, start_holders m count (suc region) (suc k))

start-IsConsistent : (count : ℕ) → IsConsistent (start_world count)
unfolding holders
start-IsConsistent count = record {
  counted = λ r. start_pins count 0 r;
  unique = λ m. omega (arith, start_holders m count 0 0);
  given_up = λ r f at bad. (start_at count 0 r f at).0;
  held = tt;
  uploaded = λ r f at o. absurd (ground (arith, (start_at count 0 r f at).1));
}

-- In every state that requests can bring a cache of new frames to, a frame has as many pins as there are
-- open windows that pinned it, no number is that of two frames, a frame that was given up has no number,
-- the places of an open window hold the frames that it wants, one by one, unless a frame was given up, and
-- its slots are those places; and a frame with a number that is not queued is among the uploads of an
-- open window.
pub windows-IsConsistent : {count : ℕ} {w : World} → Reach count w → IsConsistent w
windows-IsConsistent {count} Reach.here = start-IsConsistent count
windows-IsConsistent (Reach.next r st) = Step-IsConsistent st (windows-IsConsistent r)
