-- ===== src/WindowCache/Later.antt =====
-- What the calls of a window that is open do to each frame.
use mathlib.Core.Path.{subst}
use vapoursynth_nssfactory.Base.{
  ℕ, zero, suc, ◌-◌, ◌≤◌, ◌≡◌, refl, sym, ◌∙◌, ap, inl, inr, ◌⊎◌, true, false, ◌==◌, pos, some,
  List, [], ◌∷◌, get_elem?, arith, if◌then◌else◌, ==_iff, Bool-cases,
}
use vapoursynth_nssfactory.WindowCache.{
  WindowFrame, Use, modify, modify_each, has_place, no_frame, count_where, given_up, unpinned,
  marked, read_once,
}
use vapoursynth_nssfactory.WindowCache.Frames.{
  get_elem?-modify_self, get_elem?-modify_ne, get_elem?-modify,
}
use vapoursynth_nssfactory.WindowCache.Search.{holders, numbered}
use vapoursynth_nssfactory.WindowCache.Changes.{pins_of, count_place}
use vapoursynth_nssfactory.WindowCache.Loop.{is_open}

-- From f to g: the number stays unless the frame is given up, and no upload is asked for again.
pub record Later (f g : WindowFrame) : Type 0 where
  pub stands : ((g.n ≡ f.n) × (g.failed ≡ f.failed)) ⊎ (g.failed ≡ true)
  pub open_before : is_open g ≡ true → is_open f ≡ true
  pub gone : (f.failed ≡ true → f.n ≡ no_frame) → g.failed ≡ true → g.n ≡ no_frame
  pub number : (g.n ≡ f.n) ⊎ (g.n ≡ no_frame)

pub Later-refl : (f : WindowFrame) → Later f f
Later-refl f = record {
  stands = inl (refl, refl);
  open_before = λ h. h;
  gone = λ h. h;
  number = inl refl;
}

pub Later-trans : (f g h : WindowFrame) → Later f g → Later g h → Later f h
Later-trans f g h p q = record {
  stands = ground (arith, p.stands, q.stands);
  open_before = λ o. p.open_before (q.open_before o);
  gone = λ no. q.gone (p.gone no);
  number = ground (arith, p.number, q.number);
}

pub Later-given_up : (f : WindowFrame) → Later f (given_up f)
Later-given_up f = record {
  stands = ground arith;
  open_before = λ o. ground arith;
  gone = λ h bad. ground arith;
  number = ground arith;
}

pub Later-unpinned : (f : WindowFrame) → Later f (unpinned f)
Later-unpinned f = record {
  stands = inl (refl, refl);
  open_before = λ h. h;
  gone = λ h. h;
  number = inl refl;
}

pub Later-marked : (ready value : ℕ) (f : WindowFrame) → Later f (marked ready value f)
Later-marked ready value f = record {
  stands = inl (refl, refl);
  open_before = λ o. absurd (ground arith);
  gone = λ h. h;
  number = inl refl;
}

pub Later-read : (compute : Use) (f : WindowFrame) → Later f (read_once compute f)
Later-read compute f = record {
  stands = inl (refl, refl);
  open_before = λ h. h;
  gone = λ h. h;
  number = inl refl;
}

-- Every frame stays at its place, and is later what it was.
pub record AllLater (fs gs : List WindowFrame) : Type 0 where
  pub forward :
      (r : ℕ) (f : WindowFrame)
      → get_elem? fs r ≡ some f
      → (g : WindowFrame) × (get_elem? gs r ≡ some g) × Later f g
  pub backward :
      (r : ℕ) (g : WindowFrame)
      → get_elem? gs r ≡ some g
      → (f : WindowFrame) × (get_elem? fs r ≡ some f) × Later f g

pub AllLater-refl : (fs : List WindowFrame) → AllLater fs fs
AllLater-refl fs = record {
  forward = λ r f at. (f, at, Later-refl f);
  backward = λ r f at. (f, at, Later-refl f);
}

pub AllLater-trans :
    (fs gs hs : List WindowFrame) → AllLater fs gs → AllLater gs hs → AllLater fs hs
AllLater-trans fs gs hs p q = record {
  forward = λ r f at.
      let (g, at_g, l) = p.forward r f at in
      let (h, at_h, m) = q.forward r g at_g in (h, at_h, Later-trans f g h l m);
  backward = λ r h at.
      let (g, at_g, m) = q.backward r h at in
      let (f, at_f, l) = p.backward r g at_g in (f, at_f, Later-trans f g h l m);
}

module _ (change : WindowFrame → WindowFrame) (later : (f : WindowFrame) → Later f (change f)) where
  AllLater-modify : (fs : List WindowFrame) (i : ℕ) → AllLater fs (modify change i fs)
  AllLater-modify fs i = record {
    forward = λ r f at. elim (Bool-cases (i == r)) [
      | inl here ↦
          let place : r ≡ i = sym ((==_iff i r).0 here) in
          (
            change f,
            subst (λ k. get_elem? (modify change k fs) r ≡ some (change f)) place
                (get_elem?-modify_self change fs r f at),
            later f,
          )
      | inr there ↦ (f, get_elem?-modify_ne change fs i r (λ e. ground arith) ∙ at, Later-refl f)
    ];
    backward = λ r g at.
        let (f, at_f, cases) = get_elem?-modify change fs i r g at in
        (
          f,
          at_f,
          elim cases [
            | inl (e, k) ↦ subst (Later f) (sym k) (later f)
            | inr (e, k) ↦ subst (Later f) (sym k) (Later-refl f)
          ],
        );
  }

  pub AllLater-each : (is : List ℕ) (fs : List WindowFrame) → AllLater fs (modify_each change is fs)
  AllLater-each [] fs = AllLater-refl fs
  AllLater-each (i ∷ is) fs =
      AllLater-trans fs (modify change i fs) (modify_each change is (modify change i fs))
        (AllLater-modify fs i) (AllLater-each is (modify change i fs))

  -- A frame that each call closes is closed after them all.
  pub closed_each :
      ((f : WindowFrame) → is_open (change f) ≡ false)
      → (is : List ℕ) (fs : List WindowFrame) (r : ℕ) (g : WindowFrame) → has_place r is ≡ true
      → get_elem? (modify_each change is fs) r ≡ some g
      → is_open g ≡ false
  closed_each shut [] fs r g h at = absurd (ground arith)
  closed_each shut (i ∷ is) fs r g h at = elim (Bool-cases (i == r)) [
    | inl here ↦
        let (f, at_f, l) = (AllLater-each is (modify change i fs)).backward r g at in
        let (x, at_x, cases) = get_elem?-modify change fs i r f at_f in
        elim cases [
          | inl (e, k) ↦
              let shut_f : is_open f ≡ false = ap is_open k ∙ shut x in
              elim (Bool-cases (is_open g)) [
                | inl o ↦ absurd (ground (arith, l.open_before o))
                | inr c ↦ c
              ]
          | inr (e, k) ↦ absurd (e ((==_iff i r).0 here))
        ]
    | inr there ↦ closed_each shut is (modify change i fs) r g (ground arith) at
  ]

  count_where-numbered :
      (m k i : ℕ) (fs : List WindowFrame)
      → count_where (numbered (pos m)) k (modify change i fs) ≤ count_where (numbered (pos m)) k fs
  unfolding count_where
  count_where-numbered m k i [] = omega arith
  count_where-numbered m k zero (f ∷ fs) = elim (later f).number [
    | inl same ↦ rw same (ground arith)
    | inr none_left ↦ rw none_left (ground arith)
  ]
  count_where-numbered m k (suc i) (f ∷ fs) = ground (arith, count_where-numbered m (suc k) i fs)

  pub holders-each :
      (m : ℕ) (is : List ℕ) (fs : List WindowFrame)
      → holders (pos m) (modify_each change is fs) ≤ holders (pos m) fs
  unfolding holders
  holders-each m [] fs = omega arith
  holders-each m (i ∷ is) fs =
      omega (arith, count_where-numbered m 0 i fs, holders-each m is (modify change i fs))

-- Pins through calls that do not change them, and through the destructor.
pins_of-modify_at :
    (change : WindowFrame → WindowFrame) (count : ℕ → ℕ)
    → ((f : WindowFrame) → (change f).pins ≡ count f.pins)
    → count 0 ≡ 0
    → (i r : ℕ) (fs : List WindowFrame)
    → pins_of (modify change i fs) r ≡ (if i == r then count (pins_of fs r) else pins_of fs r)
pins_of-modify_at change count each z i r [] = ground arith
pins_of-modify_at change count each z zero zero (f ∷ fs) = each f
pins_of-modify_at change count each z zero (suc r) (f ∷ fs) = ground arith
pins_of-modify_at change count each z (suc i) zero (f ∷ fs) = ground arith
pins_of-modify_at change count each z (suc i) (suc r) (f ∷ fs) =
    ground (arith, pins_of-modify_at change count each z i r fs)

pub pins_of-each :
    (change : WindowFrame → WindowFrame)
    → ((f : WindowFrame) → (change f).pins ≡ f.pins)
    → (is : List ℕ) (fs : List WindowFrame) (r : ℕ)
    → pins_of (modify_each change is fs) r ≡ pins_of fs r
pins_of-each change same [] fs r = refl
pins_of-each change same (i ∷ is) fs r =
    pins_of-each change same is (modify change i fs) r
    ∙ ground (arith, pins_of-modify_at change (λ n. n) same refl i r fs)

pub pins_of-unpinned :
    (is : List ℕ) (fs : List WindowFrame) (r : ℕ)
    → pins_of (modify_each unpinned is fs) r ≡ pins_of fs r - count_place r is
pins_of-unpinned [] fs r = omega arith
pins_of-unpinned (i ∷ is) fs r = ground (
  arith,
  pins_of-unpinned is (modify unpinned i fs) r,
  pins_of-modify_at unpinned (λ n. n - 1) (λ f. refl) (omega arith) i r fs,
)
