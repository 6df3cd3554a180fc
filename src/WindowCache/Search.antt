-- ===== src/WindowCache/Search.antt =====
-- The two searches of the constructor: a frame by its number, and the free frame that was used longest
-- ago.
use mathlib.Core.Path.{subst}
use vapoursynth_nssfactory.Base.{
  ℕ, zero, suc, ◌+◌, ◌≤◌, ◌≡◌, refl, sym, ap, inl, inr, ◌⊎◌, Bool, true, ltb, ℤ, eq_ℤ, eq_ℤ→eq,
  Option, none, some, List, [], ◌∷◌, get_elem?, arith, Bool-cases,
}
use vapoursynth_nssfactory.WindowCache.{
  WindowFrame, count_where, count_free, find_loop, is_free, oldest_free,
}

abbrev pub numbered : ℤ → ℕ → WindowFrame → Bool
numbered fn i f = eq_ℤ f.n fn

-- How many frames have the number.
unfoldable pub holders : ℤ → List WindowFrame → ℕ
unfolding count_where
holders fn = count_where (numbered fn) 0

-- What find_loop has found is `found`, or the place of a frame with the number.
pub find_loop-eq-some :
    (fn : ℤ) (i : ℕ) (found : Option ℕ) (fs : List WindowFrame) (r : ℕ)
    → find_loop fn i found fs ≡ some r
    → (found ≡ some r)
      ⊎ ((j : ℕ) × (f : WindowFrame) × (r ≡ i + j) × (get_elem? fs j ≡ some f) × (f.n ≡ fn))
unfolding find_loop
find_loop-eq-some fn i found [] r h = inl h
find_loop-eq-some fn i found (f ∷ fs) r h = elim (find_loop-eq-some fn (suc i) _ fs r h) [
  | inl e ↦ elim (Bool-cases (eq_ℤ f.n fn)) [
    | inl same ↦ inr (0, f, ground arith, refl, eq_ℤ→eq f.n fn same)
    | inr other ↦ inl (ground arith)
  ]
  | inr (j, g, e, at, num) ↦ inr (suc j, g, omega arith, at, num)
]

pub find_loop-eq-none :
    (fn : ℤ) (i : ℕ) (found : Option ℕ) (fs : List WindowFrame)
    → find_loop fn i found fs ≡ none
    → (found ≡ none) × (count_where (numbered fn) i fs ≡ 0)
unfolding find_loop count_where
find_loop-eq-none fn i found [] h = (h, refl)
find_loop-eq-none fn i found (f ∷ fs) h =
    let (none_yet, zero_rest) = find_loop-eq-none fn (suc i) _ fs h in
    elim (Bool-cases (eq_ℤ f.n fn)) [
      | inl same ↦ absurd (ground arith)
      | inr other ↦ (ground arith, ground arith)
    ]

-- Frame f at place r is free, and no free frame was used before it.
pub record IsOldest (taken : ℕ → Bool) (fs : List WindowFrame) (r : ℕ) (f : WindowFrame)
    : Type 0 where
  pub at : get_elem? fs r ≡ some f
  pub free : is_free (taken r) f ≡ true
  pub least :
      (j : ℕ) (g : WindowFrame)
      → get_elem? fs j ≡ some g
      → is_free (taken j) g ≡ true
      → f.used ≤ g.used

module _ (taken : ℕ → Bool) where
  -- No free frame of fs, whose places are from i on, was used before f.
  abbrev Least : ℕ → List WindowFrame → WindowFrame → Type 0
  Least i fs f =
      (j : ℕ) (g : WindowFrame)
      → get_elem? fs j ≡ some g
      → is_free (taken (i + j)) g ≡ true
      → f.used ≤ g.used

  -- Place s of the frames from i on holds f, which is free.
  abbrev Offers : ℕ → List WindowFrame → ℕ → WindowFrame → Type 0
  Offers i fs s f = (j : ℕ) × (s ≡ i + j) × (get_elem? fs j ≡ some f) × (is_free (taken s) f ≡ true)

  Least-cons :
      (i : ℕ) (h : WindowFrame) (fs : List WindowFrame) (f : WindowFrame)
      → (is_free (taken i) h ≡ true → f.used ≤ h.used)
      → Least (suc i) fs f
      → Least i (h ∷ fs) f
  Least-cons i h fs f first rest zero g e free =
      let here : i + 0 ≡ i = omega arith in
      let same : h ≡ g = ground arith in
      subst (λ (x : WindowFrame). f.used ≤ x.used) same
        (first (
          subst (λ k. is_free (taken k) h ≡ true) here
            (subst (λ x. is_free (taken (i + 0)) x ≡ true) (sym same) free)))
  Least-cons i h fs f first rest (suc j) g e free =
      let there : i + suc j ≡ suc i + j = omega arith in
      rest j g e (subst (λ k. is_free (taken k) g ≡ true) there free)

  Offers-cons :
      (i : ℕ) (h : WindowFrame) (fs : List WindowFrame) (s : ℕ) (f : WindowFrame)
      → Offers (suc i) fs s f
      → Offers i (h ∷ fs) s f
  Offers-cons i h fs s f (j, e, at, free) = (suc j, omega arith, at, free)

  -- What the search ends with, from a best frame so far.
  record Ends (i r : ℕ) (b : WindowFrame) (fs : List WindowFrame) : Type 0 where
    place : ℕ
    frame : WindowFrame
    found : oldest_free taken i (some (r, b)) fs ≡ some (place, frame)
    before : frame.used ≤ b.used
    least : Least i fs frame
    origin : ((place ≡ r) × (frame ≡ b)) ⊎ Offers i fs place frame

  Ends-here :
      (i : ℕ) (h : WindowFrame) (fs : List WindowFrame)
      → is_free (taken i) h ≡ true
      → (e : Ends (suc i) i h fs) → Offers i (h ∷ fs) e.place e.frame
  Ends-here i h fs free e = elim e.origin [
    | inl (p, q) ↦ (0, omega arith, ap some (sym q), rw (p, q) free)
    | inr o ↦ Offers-cons i h fs e.place e.frame o
  ]

  Ends-later :
      (i r : ℕ) (b h : WindowFrame) (fs : List WindowFrame) (e : Ends (suc i) r b fs)
      → ((e.place ≡ r) × (e.frame ≡ b)) ⊎ Offers i (h ∷ fs) e.place e.frame
  Ends-later i r b h fs e = elim e.origin [
    | inl same ↦ inl same
    | inr o ↦ inr (Offers-cons i h fs e.place e.frame o)
  ]

  oldest_free-Ends : (i r : ℕ) (b : WindowFrame) (fs : List WindowFrame) → Ends i r b fs
  unfolding oldest_free
  oldest_free-Ends i r b [] = record {
    place = r;
    frame = b;
    found = refl;
    before = omega arith;
    least = λ j g e. absurd (ground arith);
    origin = inl (refl, refl);
  }
  oldest_free-Ends i r b (h ∷ fs) = elim (Bool-cases (is_free (taken i) h)) [
    | inl free ↦ elim (Bool-cases (ltb h.used b.used)) [
      | inl younger ↦
          let e = oldest_free-Ends (suc i) i h fs in
          let le : e.frame.used ≤ h.used = e.before in
          record {
            place = e.place;
            frame = e.frame;
            found = rw (free, younger) e.found;
            before = ground arith;
            least = Least-cons i h fs e.frame (λ _. le) e.least;
            origin = inr (Ends-here i h fs free e);
          }
      | inr not_younger ↦
          let e = oldest_free-Ends (suc i) r b fs in
          let le : e.frame.used ≤ b.used = e.before in
          record {
            place = e.place;
            frame = e.frame;
            found = rw (free, not_younger) e.found;
            before = le;
            least = Least-cons i h fs e.frame (λ _. ground arith) e.least;
            origin = Ends-later i r b h fs e;
          }
    ]
    | inr held ↦
        let e = oldest_free-Ends (suc i) r b fs in
        record {
          place = e.place;
          frame = e.frame;
          found = rw held e.found;
          before = e.before;
          least = Least-cons i h fs e.frame (λ free. absurd (ground arith)) e.least;
          origin = Ends-later i r b h fs e;
        }
  ]

  -- The search without a frame so far finds one if any frame is free.
  oldest_free-finds :
      (i : ℕ) (fs : List WindowFrame)
      → 1 ≤ count_where (λ j f. is_free (taken j) f) i fs
      → (s : ℕ) × (f : WindowFrame) × (oldest_free taken i none fs ≡ some (s, f))
        × Least i fs f
        × Offers i fs s f
  unfolding oldest_free count_where
  oldest_free-finds i [] h = absurd (omega arith)
  oldest_free-finds i (h ∷ fs) some_free = elim (Bool-cases (is_free (taken i) h)) [
    | inl free ↦
        let e = oldest_free-Ends (suc i) i h fs in
        (
          e.place,
          e.frame,
          rw free e.found,
          Least-cons i h fs e.frame (λ _. e.before) e.least,
          Ends-here i h fs free e,
        )
    | inr held ↦
        let (s, f, e, least, offers) = oldest_free-finds (suc i) fs (ground arith) in
        (
          s,
          f,
          rw held e,
          Least-cons i h fs f (λ free. absurd (ground arith)) least,
          Offers-cons i h fs s f offers,
        )
  ]

-- The search of the constructor finds a frame if any is free, and it is the one used longest ago.
pub oldest_free-IsOldest :
    (taken : ℕ → Bool) (fs : List WindowFrame)
    → 1 ≤ count_free taken fs
    → (r : ℕ) × (f : WindowFrame) × (oldest_free taken 0 none fs ≡ some (r, f))
      × IsOldest taken fs r f
unfolding count_free
oldest_free-IsOldest taken fs some_free =
    let (r, f, e, least, (j, p, at, free)) = oldest_free-finds taken 0 fs some_free in
    let place : j ≡ r = omega arith in
    (
      r,
      f,
      e,
      record {
        at = subst (λ k. get_elem? fs k ≡ some f) place at;
        free = free;
        least = λ k g found open_to.
            least k g found (subst (λ m. is_free (taken m) g ≡ true) (omega arith) open_to);
      },
    )
