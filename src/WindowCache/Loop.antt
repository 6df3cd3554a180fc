-- ===== src/WindowCache/Loop.antt =====
-- The second loop of the constructor, which pins the window: enough frames are free in each round, and
-- what it leaves behind.
pub mod Rounds
pub mod Total
use vapoursynth_nssfactory.Base.{
  ℕ, zero, suc, ◌+◌, ◌≤◌, ◌<◌, ◌≡◌, refl, sym, ◌∙◌, ap, Bool, true, false, ◌||◌, ◌==◌, ℤ, pos, eq_ℤ,
  Option, none, some, List, [], ◌∷◌, ◌++◌, map, get_elem?, length, arith, if◌then◌else◌, not, ◌&&◌,
}
use vapoursynth_nssfactory.WindowCache.{
  WindowFrame, WindowCache, Pinning, has_number, has_place, in_found, count_missing, count_free,
  taken_in, no_frame,
}
use vapoursynth_nssfactory.WindowCache.Search.{holders}
use vapoursynth_nssfactory.WindowCache.Changes.{
  count_place, pins_of, GivenUp, IsUnique, KeepsPinned,
}

-- The numbers that are still to be pinned, each with its frame if it has one.
abbrev pub Todo : Type 0
Todo = List (ℤ × Option ℕ)

abbrev pub numbers : Todo → List ℤ
numbers = map (λ entry. entry.0)

abbrev pub founds : Todo → List (Option ℕ)
founds = map (λ entry. entry.1)

abbrev pub AreDistinct : List ℤ → Type 0
AreDistinct [] = Unit
AreDistinct (v ∷ vs) = (has_number v vs ≡ false) × AreDistinct vs

-- The frame at r has the number and is not given up.
abbrev pub Reads : List WindowFrame → ℤ → ℕ → Type 0
Reads fs fn r = (f : WindowFrame) × (get_elem? fs r ≡ some f) × (f.n ≡ fn) × (f.failed ≡ false)

abbrev pub Located : List WindowFrame → Todo → Type 0
Located fs [] = Unit
Located fs ((fn, some r) ∷ todo) = Reads fs fn r × Located fs todo
Located fs ((fn, none) ∷ todo) = (holders fn fs ≡ 0) × Located fs todo

-- The places that the loop has pinned for the numbers: each is pinned and has its number.
abbrev pub Served : List WindowFrame → List ℤ → List ℕ → Type 0
Served fs [] [] = Unit
Served fs [] (r ∷ rs) = ⊥
Served fs (v ∷ vs) [] = ⊥
Served fs (v ∷ vs) (r ∷ rs) = (Reads fs v r × (0 < pins_of fs r)) × Served fs vs rs

abbrev pub IsEnough : Todo → Pinning → Type 0
IsEnough todo p = count_missing (founds todo) ≤ count_free (taken_in p.pinned todo) p.cache.frames

-- A frame that is not queued though it has a number: its upload is to come.
abbrev pub is_open : WindowFrame → Bool
is_open f = not f.queued && not (eq_ℤ f.n no_frame)

-- From p the loop ends with q.
pub record Ends (todo : Todo) (p q : Pinning) : Type 0 where
  pub new : List ℕ
  pub fresh : List ℕ
  pub pinned : q.pinned ≡ p.pinned ++ new
  pub uploads : q.uploads ≡ p.uploads ++ fresh
  pub served : Served q.cache.frames (numbers todo) new
  pub keeps : KeepsPinned p.cache.frames q.cache.frames
  pub counted : (r : ℕ) → pins_of q.cache.frames r ≡ pins_of p.cache.frames r + count_place r new
  pub unique : IsUnique p.cache.frames → IsUnique q.cache.frames
  pub given_up : GivenUp p.cache.frames → GivenUp q.cache.frames
  pub uploaded :
      (r : ℕ) (g : WindowFrame)
      → get_elem? q.cache.frames r ≡ some g
      → is_open g ≡ true
      → has_place r fresh ≡ false
      → (f : WindowFrame) × (get_elem? p.cache.frames r ≡ some f) × (is_open f ≡ true)
