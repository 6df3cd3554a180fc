-- ===== src/Matcher/TopK/CachedWorst.antt =====
-- CachedWorstTopK: as StableTopK, but the place of the worst kept value is remembered.
use vapoursynth_nssfactory.Base.{
  ℕ, ◌≤◌, ◌≡◌, refl, ap, ◌∙◌, Bool, List, [], ◌∷◌, ◌++◌, ltb, ◌==◌, if◌then◌else◌, length,
  length-append, length-set, get_or, set, take, arith, Bool-cases, inl, inr, ℤ, pos, negsuc,
}
use vapoursynth_nssfactory.Matcher.TopK.Sort.{sort, scan}
use vapoursynth_nssfactory.Matcher.TopK.Stable.{StableTopK}
use vapoursynth_nssfactory.Matcher.TopK.Stable
use vapoursynth_nssfactory.Matcher.TopK.Stream.{feed}

pub record CachedWorstTopK {ℓ} (A : Type ℓ) : Type ℓ where
  pub items : List A
  pub capacity : ℕ
  pub worst : ℕ

abbrev pub empty {ℓ} : {A : Type ℓ} → ℕ → CachedWorstTopK A
empty capacity = record { items = []; capacity = capacity; worst = 0 }

module _ {ℓ} {A : Type ℓ} (less : A → A → Bool) where
  -- The private `scan`.
  pub rescan : CachedWorstTopK A → CachedWorstTopK A
  rescan s = record s { worst = scan less s.items }

  pub add : CachedWorstTopK A → A → CachedWorstTopK A
  unfolding rescan
  add s m =
      if s.capacity == 0
      then s
      else if ltb (length s.items) s.capacity
      then (let pushed = record s { items = s.items ++ m ∷ [] } in
          if length pushed.items == s.capacity then rescan pushed else pushed)
      else if less m (get_or s.items s.worst m)
      then rescan (record s { items = set s.items s.worst m })
      else s

  pub adopt : CachedWorstTopK A → List A → ℤ → CachedWorstTopK A
  unfolding rescan
  adopt s storage n =
      let kept = record s { items = take (clamp n) storage } in
      if length kept.items == 0 then kept else rescan kept
    where
      -- std::clamp(n, 0, cap_).
      clamp : ℤ → ℕ
      clamp (negsuc k) = 0
      clamp (pos k) = if ltb s.capacity k then s.capacity else k

  pub finish : CachedWorstTopK A → List A
  finish s = sort less s.items

-- The same state without the remembered place.
abbrev pub view {ℓ} : {A : Type ℓ} → CachedWorstTopK A → StableTopK A
view c = record { items = c.items; capacity = c.capacity }

module _ {ℓ} {A : Type ℓ} (less : A → A → Bool) where
  -- In a full storage the remembered place is the one that a scan would find.
  abbrev pub IsCached : CachedWorstTopK A → Type 0
  IsCached c = c.capacity ≤ length c.items → c.worst ≡ scan less c.items

  add-IsCached : (c : CachedWorstTopK A) (m : A) → IsCached c → IsCached (add less c m)
  unfolding add
  add-IsCached c m a h =
      ground (arith, a, length-append c.items (m ∷ []), length-set c.items c.worst m)

  view-add :
      (c : CachedWorstTopK A) (m : A)
      → IsCached c
      → view (add less c m) ≡ Stable.add less (view c) m
  unfolding add Stable.add
  view-add c m a = elim (Bool-cases (c.capacity == 0)) [
    | inl none_kept ↦ rw none_kept
    | inr some_kept ↦ elim (Bool-cases (ltb (length c.items) c.capacity)) [
      | inl room ↦ elim (Bool-cases (length (c.items ++ m ∷ []) == c.capacity)) [
        | inl now_full ↦ rw (some_kept, room, now_full)
        | inr not_full ↦ rw (some_kept, room, not_full)
      ]
      | inr full ↦
          let e : c.worst ≡ scan less c.items = a (ground arith) in
          elim (Bool-cases (less m (get_or c.items (scan less c.items) m))) [
            | inl taken ↦ rw (some_kept, full, e, taken)
            | inr refused ↦ rw (some_kept, full, e, refused)
          ]
    ]
  ]

  view-feed :
      (c : CachedWorstTopK A) (ms : List A)
      → IsCached c
      → view (feed (add less) c ms) ≡ feed (Stable.add less) (view c) ms
  view-feed c [] a = refl
  view-feed c (m ∷ ms) a =
      view-feed (add less c m) ms (add-IsCached c m a)
      ∙ ap (λ s. feed (Stable.add less) s ms) (view-add c m a)

  finish-view : (c : CachedWorstTopK A) → finish less c ≡ Stable.finish less (view c)
  unfolding finish Stable.finish sort
  finish-view c = elim (Bool-cases (ltb 1 (length c.items))) [
    | inl many ↦ rw many
    | inr few ↦ rw few (short c.items (ground arith))
  ]
    where
      short : (xs : List A) → length xs ≤ 1 → sort less xs ≡ xs
      short [] h = refl
      short (x ∷ []) h = refl
      short (x ∷ y ∷ xs) h = absurd (omega arith)

  -- On every stream of candidates, a CachedWorstTopK ends with what a StableTopK ends with.
  pub cached-eq-stable :
      (capacity : ℕ) (candidates : List A)
      → finish less (feed (add less) (empty capacity) candidates)
        ≡ Stable.finish less (feed (Stable.add less) (Stable.empty capacity) candidates)
  unfolding scan
  cached-eq-stable k ms =
      finish-view (feed (add less) (empty k) ms)
      ∙ ap (Stable.finish less) (view-feed (empty k) ms (λ h. empty_scan))
    where
      empty_scan : 0 ≡ scan less []
      empty_scan = refl
