-- ===== src/WindowCache/World.antt =====
-- The requests that share a WindowCache: the windows that are open, and what they do. A request runs
-- each of its calls under WindowCache::mu, in any order with those of the others; a wait changes nothing,
-- so it is no step, and a constructor steps when its wait is over.
use vapoursynth_nssfactory.Base.{ℕ, zero, suc, ◌<◌, ◌≡◌, true, false, List, [], ◌∷◌, ◌++◌, some}
use vapoursynth_nssfactory.WindowCache.{
  WindowFrame, WindowCache, Window, Use, can_open, wanted_frames, open_window, close_window,
  mark_queued, read_by, no_frame,
}

-- An open window with the arguments of its constructor.
pub record Open : Type 0 where
  pub center : ℕ
  pub radius : ℕ
  pub clip_frames : ℕ
  pub window : Window

pub record World : Type 0 where
  pub cache : WindowCache
  pub windows : List Open

pub data Step (v : World) : World → Type 0 where
  -- A request for a frame of the clip opens its window.
  opens :
      (center radius clip_frames : ℕ) (cache : WindowCache) (window : Window)
      → center < clip_frames
      → can_open v.cache.frames (wanted_frames center radius clip_frames) ≡ true
      → open_window center radius clip_frames v.cache ≡ some (cache, window)
      → Step v record {
        cache = cache;
        windows =
            record { center = center; radius = radius; clip_frames = clip_frames; window = window }
            ∷ v.windows;
      }
  -- It has submitted its uploads.
  queues :
      (before after : List Open) (o : Open) (ready value : ℕ)
      → v.windows ≡ before ++ o ∷ after
      → Step v (record v { cache = mark_queued v.cache o.window ready value })
  -- It has submitted the stage that reads its frames.
  reads :
      (before after : List Open) (o : Open) (compute : Use)
      → v.windows ≡ before ++ o ∷ after
      → Step v (record v { cache = read_by v.cache o.window compute })
  -- It is done, or gives up before its uploads are queued.
  closes :
      (before after : List Open) (o : Open)
      → v.windows ≡ before ++ o ∷ after
      → Step v record { cache = close_window v.cache o.window; windows = before ++ after }

-- A WindowFrame as it is made, and the frames of a cache.
abbrev pub fresh_frame : ℕ → WindowFrame
fresh_frame region = record {
  region = region;
  n = no_frame;
  pins = 0;
  queued = false;
  failed = false;
  used = 0;
  ready = 0;
  ready_value = 0;
  uses = [];
}

abbrev pub fresh_frames : ℕ → ℕ → List WindowFrame
fresh_frames zero region = []
fresh_frames (suc count) region = fresh_frame region ∷ fresh_frames count (suc region)

abbrev pub start_world : ℕ → World
start_world count = record {
  cache = record { frames = fresh_frames count 0; clock = 0 };
  windows = [];
}

pub data Reach (count : ℕ) : World → Type 0 where
  here : Reach count (start_world count)
  next : {v w : World} → Reach count v → Step v w → Reach count w
