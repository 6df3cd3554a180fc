-- ===== src/WindowCache/Room.antt =====
-- When the wait of the constructor is over.
use vapoursynth_nssfactory.Base.{
  ℕ, zero, suc, ◌+◌, ◌*◌, ◌≤◌, ◌≡◌, ◌≢◌, refl, sym, ◌∙◌, ap, inl, inr, Bool, true, false, ◌||◌,
  ◌==◌, ℤ, ◌++◌, length-append, Option-cases, Option, none, some, List, [], ◌∷◌, length, arith,
  Bool-cases, ==_iff,
}
use vapoursynth_nssfactory.WindowCache.{
  zip, Pinning, WindowCache, Window, modify, modify_each, pin, replace, replaced, pin_loop,
  oldest_free, taken_in, opened_from, open_window, mark_queued, read_by, close_window, marked,
  read_once, unpinned, given_up, wanted_loop, has_number, slot_frame, WindowFrame, can_open,
  count_where, count_free, count_missing, in_found, is_free, find_all, wanted_frames,
}
use vapoursynth_nssfactory.WindowCache.Changes.{pins_of}
use vapoursynth_nssfactory.WindowCache.Frames.{count_where-cong}
use vapoursynth_nssfactory.WindowCache.World.{World, Step, Reach, fresh_frames}
use vapoursynth_nssfactory.WindowCache.Invariant.{pinned_by}
use vapoursynth_nssfactory.WindowCache.Preserved.{windows-IsConsistent}

-- A test that fails at one more place counts one less at most.
count_where-le {ℓ} :
    {A : Type ℓ} (test after : ℕ → A → Bool) (s i : ℕ) (xs : List A)
    → ((j : ℕ) (y : A) → j ≢ s → after j y ≡ test j y)
    → count_where test i xs ≤ count_where after i xs + 1
unfolding count_where
count_where-le test after s i [] same = omega arith
count_where-le test after s i (x ∷ xs) same = elim (Bool-cases (i == s)) [
  | inl here ↦
      let e = (==_iff i s).0 here in
      let rest = count_where-cong test after (suc i) xs (λ j y l. same j y (λ k. omega arith)) in
      ground (arith, rest)
  | inr there ↦
      ground (arith, same i x (λ k. ground arith), count_where-le test after s (suc i) xs same)
]

abbrev count_found : List (Option ℕ) → ℕ
count_found [] = 0
count_found (none ∷ found) = count_found found
count_found (some r ∷ found) = suc (count_found found)

-- All frames but those found are free where none is pinned.
all_free :
    (i : ℕ) (fs : List WindowFrame)
    → ((r : ℕ) → pins_of fs r ≡ 0)
    → count_where (λ j f. is_free false f) i fs ≡ length fs
unfolding count_where
all_free i [] unpinned = refl
all_free i (f ∷ fs) unpinned =
    ground (arith, unpinned 0, all_free (suc i) fs (λ r. unpinned (suc r)))

free_but_found :
    (fs : List WindowFrame) (found : List (Option ℕ))
    → ((r : ℕ) → pins_of fs r ≡ 0)
    → length fs ≤ count_where (λ j f. is_free (in_found j found) f) 0 fs + count_found found
free_but_found fs [] unpinned = omega (arith, all_free 0 fs unpinned)
free_but_found fs (none ∷ found) unpinned = free_but_found fs found unpinned
free_but_found fs (some s ∷ found) unpinned = omega (
  arith,
  free_but_found fs found unpinned,
  count_where-le (λ j f. is_free (in_found j found) f)
      (λ j f. is_free ((s == j) || in_found j found) f) s 0 fs (λ j f other. ground (arith, other)),
)

found-missing :
    (fs : List WindowFrame) (vs : List ℤ)
    → count_missing (find_all fs vs) + count_found (find_all fs vs) ≡ length vs
found-missing fs [] = refl
found-missing fs (v ∷ vs) = ground (arith, found-missing fs vs)

-- No operation changes how many frames the cache has.
length-modify {ℓ} :
    {A : Type ℓ} (g : A → A) (i : ℕ) (xs : List A) → length (modify g i xs) ≡ length xs
length-modify g i [] = refl
length-modify g zero (x ∷ xs) = refl
length-modify g (suc i) (x ∷ xs) = ap suc (length-modify g i xs)

length-each {ℓ} :
    {A : Type ℓ} (g : A → A) (is : List ℕ) (xs : List A) → length (modify_each g is xs) ≡ length xs
length-each g [] xs = refl
length-each g (i ∷ is) xs = length-each g is (modify g i xs) ∙ length-modify g i xs

length-pin_loop :
    (todo : List (ℤ × Option ℕ)) (p q : Pinning)
    → pin_loop todo p ≡ some q
    → length q.cache.frames ≡ length p.cache.frames
unfolding pin_loop pin replace
length-pin_loop [] p q e =
    let same : p ≡ q = ground arith in ap (λ (x : Pinning). length x.cache.frames) (sym same)
length-pin_loop ((fn, some r) ∷ todo) p q e =
    length-pin_loop todo (pin p r) q e ∙ length-modify _ r p.cache.frames
length-pin_loop ((fn, none) ∷ todo) p q e =
    elim (Option-cases (oldest_free (taken_in p.pinned todo) 0 none p.cache.frames)) [
      | inl lost ↦ absurd (ground (arith, lost))
      | inr ((r, f), found) ↦
          length-pin_loop todo (pin (replace p r fn) r) q (rw (found, pin_loop) at e)
          ∙ length-modify _ r (modify (replaced fn) r p.cache.frames)
          ∙ length-modify (replaced fn) r p.cache.frames
    ]

length-opened :
    (center radius clip_frames : ℕ) (p : Option Pinning) (before cache : WindowCache)
    (window : Window)
    → ((q : Pinning) → p ≡ some q → length q.cache.frames ≡ length before.frames)
    → opened_from center radius clip_frames p ≡ some (cache, window)
    → length cache.frames ≡ length before.frames
length-opened center radius clip_frames none before cache window same e = absurd (ground arith)
length-opened center radius clip_frames (some q) before cache window same e =
    let end : q.cache ≡ cache = ground arith in
    ap (λ (c : WindowCache). length c.frames) (sym end) ∙ same q refl

length-fresh_frames : (count region : ℕ) → length (fresh_frames count region) ≡ count
length-fresh_frames zero region = refl
length-fresh_frames (suc count) region = ap suc (length-fresh_frames count (suc region))

length-Step : {v w : World} → Step v w → length w.cache.frames ≡ length v.cache.frames
unfolding open_window mark_queued read_by close_window
length-Step {v} (Step.opens center radius clip_frames cache window inside room e) =
    let wanted = wanted_frames center radius clip_frames in
    let begin : Pinning = record { cache = v.cache; pinned = []; uploads = [] } in
    length-opened center radius clip_frames _ v.cache cache window
      (length-pin_loop (zip wanted (find_all v.cache.frames wanted)) begin) e
length-Step {v} (Step.queues before after o ready value e) =
    length-each (marked ready value) o.window.uploads v.cache.frames
length-Step {v} (Step.reads before after o (timeline, value) e) =
    elim (Bool-cases (timeline == 0)) [
      | inl nothing ↦ rw nothing refl
      | inr stage ↦
          rw stage (length-each (read_once (timeline, value)) o.window.pinned v.cache.frames)
    ]
length-Step {v} (Step.closes before after o e) =
    length-each unpinned o.window.pinned _ ∙ length-each given_up o.window.uploads v.cache.frames

length-Reach : {count : ℕ} {w : World} → Reach count w → length w.cache.frames ≡ count
length-Reach {count} Reach.here = length-fresh_frames count 0
length-Reach (Reach.next r st) = length-Step st ∙ length-Reach r

length-wanted_loop :
    (frame : ℕ → ℤ) (count t : ℕ) (wanted : List ℤ)
    → length (wanted_loop frame count t wanted) ≤ length wanted + count
unfolding wanted_loop
length-wanted_loop frame zero t wanted = omega arith
length-wanted_loop frame (suc count) t wanted = elim (Bool-cases (has_number (frame t) wanted)) [
  | inl old ↦ rw old (omega (arith, length-wanted_loop frame count (suc t) wanted))
  | inr new ↦ rw new (
      omega (
        arith,
        length-wanted_loop frame count (suc t) (wanted ++ frame t ∷ []),
        length-append wanted (frame t ∷ []),
      ))
]

-- With no window open, the wait of a constructor is over if the cache was made with a frame for each of
-- the window's 2 radius + 1 slots: a request waits for the windows of others only.
pub idle_opens :
    {count : ℕ} {w : World}
    → Reach count w
    → (center radius clip_frames : ℕ) → w.windows ≡ []
    → 2 * radius + 1 ≤ count
    → can_open w.cache.frames (wanted_frames center radius clip_frames) ≡ true
unfolding can_open count_free wanted_frames
idle_opens {w = w} reach center radius clip_frames idle room =
    let fs = w.cache.frames in
    let vs = wanted_frames center radius clip_frames in
    let unpinned = λ (r : ℕ). (windows-IsConsistent reach).counted r ∙ ap (pinned_by r) idle in
    let few = length-wanted_loop (slot_frame center radius clip_frames) (2 * radius + 1) 0 [] in
    ground (
      arith,
      free_but_found fs (find_all fs vs) unpinned,
      found-missing fs vs,
      few,
      length-Reach reach,
    )
