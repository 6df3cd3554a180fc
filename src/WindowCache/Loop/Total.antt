-- ===== src/WindowCache/Loop/Total.antt =====
-- The loop ends, with a frame for each number.
use mathlib.Core.Path.{subst}
use mathlib.Core.List.{append-nil, append_assoc}
use vapoursynth_nssfactory.Base.{
  ℕ, ◌+◌, ◌<◌, ◌≡◌, ◌≢◌, refl, sym, ◌∙◌, ap, inl, inr, Bool, true, false, ◌||◌, ◌==◌, ◌%◌, ◌^◌, ℤ,
  pos, eq_ℤ, eq_ℤ→eq, Option, none, some, List, [], ◌∷◌, ◌++◌, get_elem?, arith, Bool-cases,
}
use vapoursynth_nssfactory.WindowCache.{
  WindowFrame, Pinning, has_number, has_place, count_free, is_free, taken_in, modify, pin, replace,
  pinned_at, replaced, pin_loop, oldest_free,
}
use vapoursynth_nssfactory.WindowCache.Frames.{get_elem?-modify_self, get_elem?-modify, one}
use vapoursynth_nssfactory.WindowCache.Search.{holders, IsOldest, oldest_free-IsOldest}
use vapoursynth_nssfactory.WindowCache.Changes.{
  pins_in, pins_of, GivenUp, IsUnique, KeepsPinned, KeepsPinned-trans, KeepsPinned-modify,
  pins_of-modify, GivenUp-modify, holders-modify,
}
use vapoursynth_nssfactory.WindowCache.Loop.{
  Todo, numbers, AreDistinct, Reads, Located, IsEnough, is_open, Ends,
}
use vapoursynth_nssfactory.WindowCache.Loop.Rounds.{
  has_place-append, modify-modify, and_false, Located-pin, Located-replace, count_free-pin,
}

-- The effect of a round that pins the frame at r for fn.
record Round (fn : ℤ) (r : ℕ) (up : List ℕ) (fs gs : List WindowFrame) : Type 0 where
  reads : Reads gs fn r
  pinned : 0 < pins_of gs r
  keeps : KeepsPinned fs gs
  counted : (s : ℕ) → pins_of gs s ≡ pins_of fs s + one (r == s)
  unique : IsUnique fs → IsUnique gs
  given_up : GivenUp fs → GivenUp gs
  uploaded :
      (s : ℕ) (g : WindowFrame)
      → get_elem? gs s ≡ some g
      → is_open g ≡ true
      → has_place s up ≡ false
      → (f : WindowFrame) × (get_elem? fs s ≡ some f) × (is_open f ≡ true)

pub has_place-++ :
    (r : ℕ) (xs ys : List ℕ) → has_place r (xs ++ ys) ≡ (has_place r xs || has_place r ys)
has_place-++ r [] ys = refl
has_place-++ r (x ∷ xs) ys = ground (arith, has_place-++ r xs ys)

Ends-nil : (p : Pinning) → Ends [] p p
Ends-nil p = record {
  new = [];
  fresh = [];
  pinned = sym (append-nil p.pinned);
  uploads = sym (append-nil p.uploads);
  served = tt;
  keeps = λ r f at pinned.
      (f, at, record { n = refl; failed = refl; queued = refl; pins = omega arith });
  counted = λ r. omega arith;
  unique = λ h. h;
  given_up = λ h. h;
  uploaded = λ r g at o up. (g, at, o);
}

Ends-cons :
    (fn : ℤ) (slot : Option ℕ) (todo : Todo) (r : ℕ) (up : List ℕ) (p s q : Pinning)
    → s.pinned ≡ p.pinned ++ r ∷ []
    → s.uploads ≡ p.uploads ++ up
    → Round fn r up p.cache.frames s.cache.frames
    → Ends todo s q
    → Ends ((fn, slot) ∷ todo) p q
Ends-cons fn slot todo r up p s q e_pinned e_uploads d e =
    let (f, at, num, fine) = d.reads in
    let held = subst (λ o. 0 < pins_in o) at d.pinned in
    let (g, at_g, same) = e.keeps r f at held in
    record {
      new = r ∷ e.new;
      fresh = up ++ e.fresh;
      pinned = e.pinned ∙ ap (λ xs. xs ++ e.new) e_pinned ∙ append_assoc p.pinned (r ∷ []) e.new;
      uploads = e.uploads ∙ ap (λ xs. xs ++ e.fresh) e_uploads ∙ append_assoc p.uploads up e.fresh;
      served = (
        ((g, at_g, same.n ∙ num, same.failed ∙ fine), omega (arith, e.counted r, d.pinned)),
        e.served,
      );
      keeps = KeepsPinned-trans p.cache.frames s.cache.frames q.cache.frames d.keeps e.keeps;
      counted = λ k. omega (arith, e.counted k, d.counted k);
      unique = λ h. e.unique (d.unique h);
      given_up = λ h. e.given_up (d.given_up h);
      uploaded = λ k x at_k o no.
          let split = sym (has_place-++ k up e.fresh) ∙ no in
          let (y, at_y, oy) = e.uploaded k x at_k o (ground (arith, split)) in
          d.uploaded k y at_y oy (ground (arith, split));
    }

-- A round for a number whose frame is there.
Round-pin :
    (fn : ℤ) (r clock : ℕ) (fs : List WindowFrame)
    → Reads fs fn r
    → Round fn r [] fs (modify (pinned_at clock) r fs)
Round-pin fn r clock fs (f, at, num, fine) =
    let g = pinned_at clock in
    let now = get_elem?-modify_self g fs r f at in
    record {
      reads = (g f, now, num, fine);
      pinned = rw now (omega arith);
      keeps =
          KeepsPinned-modify fs r f g at
            (λ held. record { n = refl; failed = refl; queued = refl; pins = omega arith });
      counted = pins_of-modify fs r f g at refl;
      unique = λ h m. omega (arith, h m, holders-modify fs r f g at (pos m));
      given_up = GivenUp-modify fs r f g at (λ bad. cc);
      uploaded = λ s x at_x o no.
          let (y, at_y, cases) = get_elem?-modify g fs r s x at_x in
          (
            y,
            at_y,
            elim cases [
              | inl (e, k) ↦ subst (λ z. is_open z ≡ true) k o
              | inr (e, k) ↦ subst (λ z. is_open z ≡ true) k o
            ],
          );
    }

-- A round for a number without a frame, with a free frame f at r.
Round-replace :
    (fn : ℤ) (r clock : ℕ) (fs : List WindowFrame) (f : WindowFrame)
    → get_elem? fs r ≡ some f
    → f.pins ≡ 0
    → holders fn fs ≡ 0
    → Round fn r (r ∷ []) fs (modify (λ x. pinned_at clock (replaced fn x)) r fs)
Round-replace fn r clock fs f at unheld absent =
    let g = λ (x : WindowFrame). pinned_at clock (replaced fn x) in
    let now = get_elem?-modify_self g fs r f at in
    record {
      reads = (g f, now, refl, refl);
      pinned = rw now (omega arith);
      keeps = KeepsPinned-modify fs r f g at (λ held. absurd (omega arith));
      counted = pins_of-modify fs r f g at refl;
      unique = λ h m. elim (Bool-cases (eq_ℤ fn (pos m))) [
        | inl same ↦
            let none_yet : holders (pos m) fs ≡ 0 =
              subst (λ v. holders v fs ≡ 0) (eq_ℤ→eq fn (pos m) same) absent in
            omega (arith, none_yet, holders-modify fs r f g at (pos m), ap one same)
        | inr other ↦ omega (arith, h m, holders-modify fs r f g at (pos m), ap one other)
      ];
      given_up = GivenUp-modify fs r f g at (λ bad. cc);
      uploaded = λ s x at_x o no.
          let (y, at_y, cases) = get_elem?-modify g fs r s x at_x in
          (
            y,
            at_y,
            elim cases [
              | inl (e, k) ↦ absurd (ground arith)
              | inr (e, k) ↦ subst (λ z. is_open z ≡ true) k o
            ],
          );
    }

is_free-eq-true :
    (taken : Bool) (f : WindowFrame) → is_free taken f ≡ true → (taken ≡ false) × (f.pins ≡ 0)
is_free-eq-true true f h = absurd (ground arith)
is_free-eq-true false f h = (refl, ground arith)

module _ (pinned : List ℕ) (todo : Todo) (r : ℕ) where
  taken_in-pinned : taken_in (pinned ++ r ∷ []) todo r ≡ true
  taken_in-pinned = ground (arith, has_place-append r r pinned)

  taken_in-others : (j : ℕ) → j ≢ r → taken_in (pinned ++ r ∷ []) todo j ≡ taken_in pinned todo j
  taken_in-others j other = ground (arith, has_place-append j r pinned, other)

  taken_in-found :
      (fn : ℤ) (j : ℕ)
      → taken_in (pinned ++ r ∷ []) todo j ≡ taken_in pinned ((fn, some r) ∷ todo) j
  taken_in-found fn j = ground (arith, has_place-append j r pinned)

-- Enough frames stay free.
IsEnough-pin :
    (fn : ℤ) (r : ℕ) (todo : Todo) (p : Pinning)
    → Reads p.cache.frames fn r
    → IsEnough ((fn, some r) ∷ todo) p
    → IsEnough todo (pin p r)
unfolding pin
IsEnough-pin fn r todo p (f, at, num, fine) enough =
    let g = pinned_at ((p.cache.clock + 1) % 2 ^ 64) in
    let shut : taken_in p.pinned ((fn, some r) ∷ todo) r ≡ true =
      sym (taken_in-found p.pinned todo r fn r) ∙ taken_in-pinned p.pinned todo r in
    let held : is_free (taken_in p.pinned ((fn, some r) ∷ todo) r) f ≡ false =
      rw shut (and_false (f.pins == 0)) in
    omega (
      arith,
      ap one held,
      count_free-pin p.cache.frames r f g at (taken_in p.pinned ((fn, some r) ∷ todo))
          (taken_in (p.pinned ++ r ∷ []) todo) (taken_in-pinned p.pinned todo r)
          (λ j other. taken_in-found p.pinned todo r fn j),
    )

IsEnough-replace :
    (fn : ℤ) (r : ℕ) (f : WindowFrame) (todo : Todo) (p : Pinning)
    → IsOldest (taken_in p.pinned todo) p.cache.frames r f
    → IsEnough ((fn, none) ∷ todo) p
    → IsEnough todo (pin (replace p r fn) r)
unfolding pin replace
IsEnough-replace fn r f todo p oldest enough =
    let clock = (p.cache.clock + 1) % 2 ^ 64 in
    let g = λ (x : WindowFrame). pinned_at clock (replaced fn x) in
    let frames = modify-modify (pinned_at clock) (replaced fn) p.cache.frames r in
    let free =
      count_free-pin p.cache.frames r f g oldest.at (taken_in p.pinned todo)
        (taken_in (p.pinned ++ r ∷ []) todo) (taken_in-pinned p.pinned todo r)
        (taken_in-others p.pinned todo r) in
    omega (
      arith,
      ap one oldest.free,
      free,
      ap (λ fs. count_free (taken_in (p.pinned ++ r ∷ []) todo) fs) frames,
    )

-- The rounds before the rest of the loop.
Ends-pin :
    (fn : ℤ) (r : ℕ) (todo : Todo) (p q : Pinning)
    → Reads p.cache.frames fn r
    → Ends todo (pin p r) q
    → Ends ((fn, some r) ∷ todo) p q
unfolding pin
Ends-pin fn r todo p q reads ends =
    Ends-cons fn (some r) todo r [] p (pin p r) q refl (sym (append-nil p.uploads))
      (Round-pin fn r ((p.cache.clock + 1) % 2 ^ 64) p.cache.frames reads) ends

Located-pin_lem :
    (fn : ℤ) (r : ℕ) (todo : Todo) (p : Pinning)
    → Reads p.cache.frames fn r
    → Located p.cache.frames todo
    → Located (pin p r).cache.frames todo
unfolding pin
Located-pin_lem fn r todo p (f, at, num, fine) l =
    Located-pin p.cache.frames r f (pinned_at ((p.cache.clock + 1) % 2 ^ 64)) at todo refl refl l

module _ (fn : ℤ) (r : ℕ) (f : WindowFrame) (todo : Todo) (p : Pinning)
    (oldest : IsOldest (taken_in p.pinned todo) p.cache.frames r f) where
  replace-frames :
      (pin (replace p r fn) r).cache.frames
      ≡ modify (λ x. pinned_at ((p.cache.clock + 1) % 2 ^ 64) (replaced fn x)) r p.cache.frames
  unfolding pin replace
  replace-frames = modify-modify _ (replaced fn) p.cache.frames r

  Located-replace_lem :
      has_number fn (numbers todo) ≡ false
      → Located p.cache.frames todo
      → Located (pin (replace p r fn) r).cache.frames todo
  Located-replace_lem new l =
      let untaken = (is_free-eq-true (taken_in p.pinned todo r) f oldest.free).0 in
      subst (λ fs. Located fs todo) (sym replace-frames)
        (Located-replace p.cache.frames r f _ oldest.at todo (ground arith) new l)

  replace-pinned : (pin (replace p r fn) r).pinned ≡ p.pinned ++ r ∷ []
  unfolding pin replace
  replace-pinned = refl

  replace-uploads : (pin (replace p r fn) r).uploads ≡ p.uploads ++ r ∷ []
  unfolding pin replace
  replace-uploads = refl

  Ends-replace :
      (q : Pinning)
      → holders fn p.cache.frames ≡ 0
      → Ends todo (pin (replace p r fn) r) q
      → Ends ((fn, none) ∷ todo) p q
  Ends-replace q absent ends =
      let unheld = (is_free-eq-true (taken_in p.pinned todo r) f oldest.free).1 in
      Ends-cons fn none todo r (r ∷ []) p (pin (replace p r fn) r) q replace-pinned replace-uploads
        (subst (Round fn r (r ∷ []) p.cache.frames) (sym replace-frames)
          (Round-replace fn r _ p.cache.frames f oldest.at unheld absent))
        ends

pin_loop-oldest :
    (fn : ℤ) (todo : Todo) (p : Pinning) (r : ℕ) (f : WindowFrame)
    → oldest_free (taken_in p.pinned todo) 0 none p.cache.frames ≡ some (r, f)
    → pin_loop ((fn, none) ∷ todo) p ≡ pin_loop todo (pin (replace p r fn) r)
unfolding pin_loop
pin_loop-oldest fn todo p r f found = rw (found, pin_loop) refl

-- The loop never lacks a free frame, and ends as Ends says.
pub pin_loop-Ends :
    (todo : Todo) (p : Pinning)
    → AreDistinct (numbers todo)
    → Located p.cache.frames todo
    → IsEnough todo p
    → (q : Pinning) × (pin_loop todo p ≡ some q) × Ends todo p q
unfolding pin_loop
pin_loop-Ends [] p d l enough = (p, refl, Ends-nil p)
pin_loop-Ends ((fn, some r) ∷ todo) p (new, d) (reads, l) enough =
    let (q, e, ends) =
      pin_loop-Ends todo (pin p r) d (Located-pin_lem fn r todo p reads l)
        (IsEnough-pin fn r todo p reads enough) in
    (q, e, Ends-pin fn r todo p q reads ends)
pin_loop-Ends ((fn, none) ∷ todo) p (new, d) (absent, l) enough =
    let (r, f, found, oldest) =
      oldest_free-IsOldest (taken_in p.pinned todo) p.cache.frames (omega arith) in
    let (q, e, ends) =
      pin_loop-Ends todo (pin (replace p r fn) r) d (Located-replace_lem fn r f todo p oldest new l)
        (IsEnough-replace fn r f todo p oldest enough) in
    (q, pin_loop-oldest fn todo p r f found ∙ e, Ends-replace fn r f todo p oldest q absent ends)
