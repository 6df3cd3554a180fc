-- ===== src/WindowCache/Opening.antt =====
-- The constructor past its wait.
use mathlib.Core.Path.{subst}
use vapoursynth_nssfactory.Base.{
  ℕ, ◌+◌, ◌*◌, ◌≤◌, ◌<◌, ◌≡◌, refl, sym, ◌∙◌, ap, inl, inr, true, false, ℤ, pos, Option, none, some,
  List, [], ◌∷◌, get_elem?, arith, leb→le, Bool-cases,
}
use vapoursynth_nssfactory.WindowCache.{
  WindowFrame, WindowCache, Window, Pinning, find_loop, find_all, zip, in_found, count_missing,
  count_free, can_open, open_window, window_of, opened_from, wanted_frames, slot_frame, slot_loop,
  place_of, has_place,
}
use vapoursynth_nssfactory.WindowCache.Search.{holders, find_loop-eq-some, find_loop-eq-none}
use vapoursynth_nssfactory.WindowCache.Changes.{
  pins_of, count_place, KeepsPinned, IsUnique, GivenUp,
}
use vapoursynth_nssfactory.WindowCache.Loop.{
  Todo, numbers, founds, AreDistinct, Located, Served, IsEnough, Ends, is_open,
}
use vapoursynth_nssfactory.WindowCache.Loop.Total.{pin_loop-Ends}
use vapoursynth_nssfactory.WindowCache.Wanted.{
  AreFrames, wanted_frames-AreDistinct, wanted_frames-AreFrames,
}

numbers-zip : (fs : List WindowFrame) (vs : List ℤ) → numbers (zip vs (find_all fs vs)) ≡ vs
numbers-zip fs [] = refl
numbers-zip fs (v ∷ vs) = ap (λ rest. v ∷ rest) (numbers-zip fs vs)

founds-zip :
    (fs : List WindowFrame) (vs : List ℤ) → founds (zip vs (find_all fs vs)) ≡ find_all fs vs
founds-zip fs [] = refl
founds-zip fs (v ∷ vs) = ap (λ rest. find_loop v 0 none fs ∷ rest) (founds-zip fs vs)

-- A frame that is found has its number, so it is not given up.
Located-entry :
    (fs : List WindowFrame) (v : ℤ) (m : ℕ) (found : Option ℕ) (todo : Todo)
    → GivenUp fs
    → v ≡ pos m
    → find_loop v 0 none fs ≡ found
    → Located fs todo
    → Located fs ((v, found) ∷ todo)
unfolding holders
Located-entry fs v m none todo g p e rest = ((find_loop-eq-none v 0 none fs e).1, rest)
Located-entry fs v m (some r) todo g p e rest = elim (find_loop-eq-some v 0 none fs r e) [
  | inl found ↦ absurd (ground arith)
  | inr (j, f, place, at, num) ↦
      let here : j ≡ r = omega arith in
      let fine : f.failed ≡ false = elim (Bool-cases f.failed) [
        | inl bad ↦ absurd (ground (arith, g j f at bad))
        | inr good ↦ good
      ] in
      ((f, subst (λ k. get_elem? fs k ≡ some f) here at, num, fine), rest)
]

Located-zip :
    (fs : List WindowFrame) (vs : List ℤ)
    → GivenUp fs
    → AreFrames vs
    → Located fs (zip vs (find_all fs vs))
Located-zip fs [] g h = tt
Located-zip fs (v ∷ vs) g ((m, e), h) =
    Located-entry fs v m (find_loop v 0 none fs) (zip vs (find_all fs vs)) g e refl
      (Located-zip fs vs g h)

IsEnough-zip :
    (cache : WindowCache) (vs : List ℤ)
    → can_open cache.frames vs ≡ true
    → IsEnough
        (zip vs (find_all cache.frames vs))
        record { cache = cache; pinned = []; uploads = [] }
unfolding can_open
IsEnough-zip cache vs h =
    let same = founds-zip cache.frames vs in
    subst (λ found. count_missing found ≤ count_free (λ r. in_found r found) cache.frames)
      (sym same) (leb→le _ _ h)

-- A new window and the cache after its constructor.
module _ (center radius clip_frames : ℕ) where
  pub record Opened (before after : WindowCache) (w : Window) : Type 0 where
    pub served : Served after.frames (wanted_frames center radius clip_frames) w.pinned
    pub keeps : KeepsPinned before.frames after.frames
    pub counted :
        (r : ℕ) → pins_of after.frames r ≡ pins_of before.frames r + count_place r w.pinned
    pub unique : IsUnique before.frames → IsUnique after.frames
    pub given_up : GivenUp after.frames
    pub slots :
        w.slots
        ≡ slot_loop
            (λ t.
              place_of
                (slot_frame center radius clip_frames t)
                (wanted_frames center radius clip_frames)
                w.pinned)
            (2 * radius + 1)
            0
    pub uploaded :
        (r : ℕ) (g : WindowFrame)
        → get_elem? after.frames r ≡ some g
        → is_open g ≡ true
        → has_place r w.uploads ≡ false
        → (f : WindowFrame) × (get_elem? before.frames r ≡ some f) × (is_open f ≡ true)

  Ends-Opened :
      (cache : WindowCache) (q : Pinning)
      → Ends
          (zip
            (wanted_frames center radius clip_frames)
            (find_all cache.frames (wanted_frames center radius clip_frames)))
          record { cache = cache; pinned = []; uploads = [] }
          q
      → GivenUp cache.frames
      → Opened cache q.cache (window_of center radius clip_frames q)
  Ends-Opened cache q ends given =
      let wanted = wanted_frames center radius clip_frames in
      record {
        served = subst (Served q.cache.frames wanted) (sym ends.pinned) (
            subst (λ vs. Served q.cache.frames vs ends.new) (numbers-zip cache.frames wanted)
              ends.served);
        keeps = ends.keeps;
        counted = λ r.
            ends.counted r ∙ ap (λ ps. pins_of cache.frames r + count_place r ps) (sym ends.pinned);
        unique = ends.unique;
        given_up = ends.given_up given;
        slots = refl;
        uploaded =
            λ r g at o new. ends.uploaded r g at o (ap (has_place r) (sym ends.uploads) ∙ new);
      }

  pub open_window-Opened :
      (cache : WindowCache)
      → center < clip_frames
      → GivenUp cache.frames
      → can_open cache.frames (wanted_frames center radius clip_frames) ≡ true
      → (after : WindowCache) × (w : Window) × (open_window center radius clip_frames cache
          ≡ some (after, w))
        × Opened cache after w
  unfolding open_window
  open_window-Opened cache inside given room =
      let wanted = wanted_frames center radius clip_frames in
      let (q, e, ends) =
        pin_loop-Ends (zip wanted (find_all cache.frames wanted))
          record { cache = cache; pinned = []; uploads = [] }
          (subst AreDistinct (sym (numbers-zip cache.frames wanted))
            (wanted_frames-AreDistinct center radius clip_frames))
          (Located-zip cache.frames wanted given
            (wanted_frames-AreFrames center radius clip_frames inside))
          (IsEnough-zip cache wanted room) in
      (
        q.cache,
        window_of center radius clip_frames q,
        ap (opened_from center radius clip_frames) e,
        Ends-Opened cache q ends given,
      )
