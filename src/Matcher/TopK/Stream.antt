-- ===== src/Matcher/TopK/Stream.antt =====
-- A policy fed with a whole stream of candidates.
use mathlib.Core.List.{perm_middle, append-nil}
use mathlib.Core.List.Perm
use vapoursynth_nssfactory.Base.{List, [], ◌∷◌, ◌++◌, Perm}

-- `for (candidate : candidates) topk.add(candidate)`.
abbrev pub feed {ℓ κ} : {S : Type κ} {A : Type ℓ} → (S → A → S) → S → List A → S
feed add s [] = s
feed add s (m ∷ ms) = feed add (add s m) ms

-- What has been seen after it, the latest first.
abbrev pub seen_after {ℓ} : {A : Type ℓ} → List A → List A → List A
seen_after [] seen = seen
seen_after (m ∷ ms) seen = seen_after ms (m ∷ seen)

pub feed_inv {ℓ κ μ} :
    {S : Type κ} {A : Type ℓ} (add : S → A → S) (P : List A → S → Type μ)
    → ((seen : List A) (s : S) (m : A) → P seen s → P (m ∷ seen) (add s m))
    → (seen : List A) (s : S) (ms : List A) → P seen s
    → P (seen_after ms seen) (feed add s ms)
feed_inv add P step seen s [] h = h
feed_inv add P step seen s (m ∷ ms) h =
    feed_inv add P step (m ∷ seen) (add s m) ms (step seen s m h)

pub seen_after-perm {ℓ} : {A : Type ℓ} (ms seen : List A) → Perm (seen_after ms seen) (ms ++ seen)
seen_after-perm [] seen = Perm.rfl
seen_after-perm (m ∷ ms) seen = Perm.trans (seen_after-perm ms (m ∷ seen)) (perm_middle ms seen)

pub seen_all-perm {ℓ} : {A : Type ℓ} (ms : List A) → Perm (seen_after ms []) ms
seen_all-perm ms = rw append-nil at (seen_after-perm ms [])
