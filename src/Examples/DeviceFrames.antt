-- ===== src/Examples/DeviceFrames.antt =====
-- Two windows of a clip of ten frames in a device cache of five: frames 4 to 6, then 5 to 7.
use vapoursynth_nssfactory.Base.{
  ℕ, ◌+◌, ◌≤◌, ◌<◌, ◌≡◌, refl, true, false, ◌||◌, ◌==◌, pos, Option, none, some, [], ◌∷◌, get_elem?,
  ◌+ℤ◌, ◌-ℤ◌, arith,
}
use vapoursynth_nssfactory.Temporal.{temporal_slot_frame}
use vapoursynth_nssfactory.WindowCache.{
  WindowFrame, WindowCache, Window, open_window, can_open, wanted_frames, wait_queued, mark_queued,
  sleeps, returns, has_place, pin_loop, pin, replace, oldest_free, count_where, count_free,
  find_loop, wanted_loop, slot_loop, place_of, any_failed, all_queued,
}
use vapoursynth_nssfactory.WindowCache.Changes.{KeepsPinned, pins_of, count_place}
use vapoursynth_nssfactory.WindowCache.Loop.{Served}
use vapoursynth_nssfactory.WindowCache.Search.{IsOldest, oldest_free-IsOldest}
use vapoursynth_nssfactory.WindowCache.World.{Open, World, Step, Reach, start_world, fresh_frames}
use vapoursynth_nssfactory.WindowCache.Invariant.{IsConsistent, uploaded_by}
use vapoursynth_nssfactory.WindowCache.Preserved.{windows-IsConsistent}
use vapoursynth_nssfactory.WindowCache.Laws.{window_reads, waits_for_uploader, open_window_safe}
use vapoursynth_nssfactory.WindowCache.Room.{idle_opens}

abbrev opened : WindowCache → ℕ → Option (WindowCache × Window)
opened cache center = open_window center 1 10 cache

abbrev cache_in : Option (WindowCache × Window) → WindowCache
cache_in none = record { frames = []; clock = 0 }
cache_in (some (cache, window)) = cache

abbrev window_in : Option (WindowCache × Window) → Window
window_in none = record { slots = []; pinned = []; uploads = [] }
window_in (some (cache, window)) = window

abbrev first_open : Open
first_open = record {
  center = 5;
  radius = 1;
  clip_frames = 10;
  window = window_in (opened (start_world 5).cache 5);
}

abbrev one_window : World
one_window = record { cache = cache_in (opened (start_world 5).cache 5); windows = first_open ∷ [] }

abbrev second_open : Open
second_open = record {
  center = 6;
  radius = 1;
  clip_frames = 10;
  window = window_in (opened one_window.cache 6);
}

abbrev two_windows : World
two_windows = record {
  cache = cache_in (opened one_window.cache 6);
  windows = second_open ∷ first_open ∷ [];
}

-- The uploads of the first window are queued.
abbrev one_queued : World
one_queued = record two_windows { cache = mark_queued two_windows.cache first_open.window 1 9 }

room_for_first : can_open (start_world 5).cache.frames (wanted_frames 5 1 10) ≡ true
unfolding can_open wanted_frames count_free count_where find_loop wanted_loop temporal_slot_frame
    ◌+ℤ◌ ◌-ℤ◌
room_for_first = refl

opens_first : opened (start_world 5).cache 5 ≡ some (one_window.cache, first_open.window)
unfolding open_window pin_loop pin replace oldest_free find_loop wanted_frames wanted_loop slot_loop
    place_of temporal_slot_frame ◌+ℤ◌ ◌-ℤ◌
opens_first = refl

Reach-one : Reach 5 one_window
Reach-one = Reach.next Reach.here (Step.opens 5 1 10 _ _ (omega arith) room_for_first opens_first)

room_for_second : can_open one_window.cache.frames (wanted_frames 6 1 10) ≡ true
unfolding can_open wanted_frames count_free count_where find_loop wanted_loop temporal_slot_frame
    ◌+ℤ◌ ◌-ℤ◌ open_window pin_loop pin replace oldest_free slot_loop place_of
room_for_second = refl

opens_second : opened one_window.cache 6 ≡ some (two_windows.cache, second_open.window)
unfolding open_window pin_loop pin replace oldest_free find_loop wanted_frames wanted_loop slot_loop
    place_of temporal_slot_frame ◌+ℤ◌ ◌-ℤ◌
opens_second = refl

Reach-two : Reach 5 two_windows
Reach-two = Reach.next Reach-one (Step.opens 6 1 10 _ _ (omega arith) room_for_second opens_second)

Reach-queued : Reach 5 one_queued
Reach-queued = Reach.next Reach-two (Step.queues (second_open ∷ []) [] first_open 1 9 refl)

windows-IsConsistent_example : IsConsistent one_queued
windows-IsConsistent_example = windows-IsConsistent Reach-queued

-- The second window waits for the frames 5 and 6, which the first is to upload.
second_sleeps : wait_queued two_windows.cache second_open.window ≡ sleeps
unfolding wait_queued any_failed all_queued open_window pin_loop pin replace oldest_free find_loop
    wanted_frames wanted_loop slot_loop place_of temporal_slot_frame ◌+ℤ◌ ◌-ℤ◌
second_sleeps = refl

waits_for_uploader_example :
    (r : ℕ) × (f : WindowFrame) × (has_place r second_open.window.pinned ≡ true)
    × (get_elem? two_windows.cache.frames r ≡ some f)
    × (f.queued ≡ false)
    × (has_place r second_open.window.uploads ≡ false)
    × (uploaded_by r (first_open ∷ []) ≡ true)
waits_for_uploader_example =
    waits_for_uploader Reach-two [] (first_open ∷ []) second_open refl second_sleeps

second_returns : wait_queued one_queued.cache second_open.window ≡ returns
unfolding wait_queued any_failed all_queued open_window pin_loop pin replace oldest_free find_loop
    wanted_frames wanted_loop slot_loop place_of temporal_slot_frame ◌+ℤ◌ ◌-ℤ◌ mark_queued
second_returns = refl

window_reads_example :
    (r : ℕ) × (f : WindowFrame) × (get_elem? second_open.window.slots 2 ≡ some (some r))
    × (get_elem? one_queued.cache.frames r ≡ some f)
    × (f.n ≡ temporal_slot_frame (pos 6) (pos 2) (pos 1) (pos 10))
    × (0 < f.pins)
    × ((f.queued || has_place r second_open.window.uploads) ≡ true)
window_reads_example =
    window_reads Reach-queued [] (first_open ∷ []) second_open refl 2 (omega arith) second_returns

open_window_safe_example :
    (cache : WindowCache) × (window : Window) × (open_window 6 1 10 one_window.cache
      ≡ some (cache, window))
    × Served cache.frames (wanted_frames 6 1 10) window.pinned
    × KeepsPinned one_window.cache.frames cache.frames
    × ((r : ℕ)
        → pins_of cache.frames r ≡ pins_of one_window.cache.frames r + count_place r window.pinned)
open_window_safe_example = open_window_safe Reach-one 6 1 10 (omega arith) room_for_second

idle_opens_example : can_open (start_world 5).cache.frames (wanted_frames 5 1 10) ≡ true
idle_opens_example = idle_opens {count = 5} Reach.here 5 1 10 refl (omega arith)

three_free : 1 ≤ count_free (λ r. r == 0) (fresh_frames 3 0)
unfolding count_free count_where
three_free = omega arith

oldest_free-IsOldest_example :
    (r : ℕ) × (f : WindowFrame) × (oldest_free (λ r. r == 0) 0 none (fresh_frames 3 0)
      ≡ some (r, f))
    × IsOldest (λ r. r == 0) (fresh_frames 3 0) r f
oldest_free-IsOldest_example = oldest_free-IsOldest (λ r. r == 0) (fresh_frames 3 0) three_free
