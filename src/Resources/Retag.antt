-- ===== src/Resources/Retag.antt =====
-- An account that moves to another kind.
use mathlib.Core.Path.{subst}
use vapoursynth_nssfactory.Base.{
  ℕ, zero, suc, ap, [], ◌∷◌, false, inl, inr, Bool-cases, ◌+◌, ◌-◌, ◌≤◌, ◌≡◌, refl, sym, true, some,
  List, get_elem?, set, arith,
}
use vapoursynth_nssfactory.Resources.{
  ResourceKind, ResourceSnapshot, ResourceAccount, is_owned, retag, same_kind, set_bytes, plus,
  minus,
}
use vapoursynth_nssfactory.Resources.System.{
  IsBalanced, owned_sum, held-set, same_kind→eq, bytes_fit, owned_sum-set, part-le-sum, minus-exact,
}
use vapoursynth_nssfactory.Resources.Laws.{account_fits}

pub set-same :
    (accounts : List ResourceAccount) (i : ℕ) (a : ResourceAccount)
    → get_elem? accounts i ≡ some a
    → set accounts i a ≡ accounts
set-same [] i a e = refl
set-same (c ∷ others) zero a e = let same : c ≡ a = cc in ap (λ x. x ∷ others) (sym same)
set-same (c ∷ others) (suc i) a e = ap (◌∷◌ c) (set-same others i a e)

module _ (state : ResourceSnapshot) (accounts : List ResourceAccount) (i : ℕ) (a : ResourceAccount)
    (v : IsBalanced state accounts) (at : get_elem? accounts i ≡ some a) where
  fits : a.bytes ≤ state.bytes a.kind
  fits = account_fits state accounts i a v at

  -- Moving the account's bytes to another owned kind, with exact counts.
  module _ (kind : ResourceKind) (o : is_owned a.kind ≡ true) (p : is_owned kind ≡ true) where
    taken : ResourceKind → ℕ
    taken = set_bytes state.bytes a.kind (state.bytes a.kind - a.bytes)

    moved : ResourceSnapshot
    moved = record state { bytes = set_bytes taken kind (taken kind + a.bytes) }

    moved_account : ResourceAccount
    moved_account = record a { kind = kind }

    taken_sum : owned_sum taken + a.bytes ≡ state.owned
    unfolding taken
    taken_sum =
        ground (arith, owned_sum-set state.bytes a.kind (state.bytes a.kind - a.bytes), fits, v.sum)

    kind_fits : taken kind + a.bytes ≤ state.owned
    kind_fits = ground (arith, part-le-sum kind taken, taken_sum)

    moved_sum : owned_sum (set_bytes taken kind (taken kind + a.bytes)) ≡ state.owned
    moved_sum = ground (arith, owned_sum-set taken kind (taken kind + a.bytes), taken_sum)

    retag-exact :
        same_kind kind a.kind ≡ false → retag a kind (some state) ≡ (some moved, moved_account)
    unfolding retag moved moved_account taken
    retag-exact other =
        let less : minus (state.bytes a.kind) a.bytes ≡ state.bytes a.kind - a.bytes =
          minus-exact (state.bytes a.kind) a.bytes fits (bytes_fit state accounts v a.kind) in
        let kept : taken kind ≡ state.bytes kind = ground (arith, other) in
        let more : plus (state.bytes kind) a.bytes ≡ state.bytes kind + a.bytes =
          omega (arith, kept, kind_fits, v.within_limit, v.limit_fits) in
        rw (other, less, more) refl

    moved-IsBalanced :
        same_kind kind a.kind ≡ false → IsBalanced moved (set accounts i moved_account)
    unfolding moved moved_account taken
    moved-IsBalanced other = record {
      kinds = λ k. ground (
        arith,
        held-set k accounts i a moved_account at,
        v.kinds k,
        fits,
        same_kind→eq k a.kind,
        same_kind→eq k kind,
      );
      sum = sym moved_sum;
      within_limit = v.within_limit;
      within_peak = v.within_peak;
      peak_within = v.peak_within;
      limit_fits = v.limit_fits;
      framework_fits = ground (
        arith,
        v.framework_fits,
        same_kind→eq ResourceKind.framework a.kind,
        same_kind→eq ResourceKind.framework kind,
      );
    }

  -- What a retag returns.
  abbrev pub Retagged : ResourceKind → Type 0
  Retagged kind =
      (state' : ResourceSnapshot) × (retag a kind (some state)
        ≡ (some state', record a { kind = kind }))
      × IsBalanced state' (set accounts i (record a { kind = kind }))
      × (state'.owned ≡ state.owned)
      × (state'.peak ≡ state.peak)
      × (state'.limit ≡ state.limit)

  retag_same : Retagged a.kind
  unfolding retag
  retag_same =
      let same : same_kind a.kind a.kind ≡ true = ground arith in
      (
        state,
        rw same refl,
        subst (IsBalanced state) (sym (set-same accounts i a at)) v,
        refl,
        refl,
        refl,
      )

  -- Moving an account from one owned kind to another keeps the budget balanced, and changes neither
  -- the total, nor the peak, nor the limit.
  pub retag-IsBalanced :
      (kind : ResourceKind) → is_owned a.kind ≡ true → is_owned kind ≡ true → Retagged kind
  unfolding moved moved_account
  retag-IsBalanced kind o p = elim (Bool-cases (same_kind kind a.kind)) [
    | inl same ↦ subst Retagged (sym (same_kind→eq kind a.kind same)) retag_same
    | inr other ↦ (
      moved kind o p,
      retag-exact kind o p other,
      moved-IsBalanced kind o p other,
      refl,
      refl,
      refl,
    )
  ]
