-- ===== src/Resources/Laws.antt =====
-- What the operations on one account do to a budget and all of its accounts.
use mathlib.Core.Path.{fun_ext}
use vapoursynth_nssfactory.Base.{
  ℕ, ◌+◌, ◌-◌, ◌≤◌, ◌≡◌, refl, sym, true, some, List, get_elem?, set, ok, err, runtime_error, max,
  if◌then◌else◌, leb, arith,
}
use vapoursynth_nssfactory.Checked.{size_max}
use vapoursynth_nssfactory.Resources.{
  ResourceKind, ResourceSnapshot, ResourceAccount, is_owned, acquire, release, set_bytes, plus,
}
use vapoursynth_nssfactory.Resources.System.{
  IsBalanced, held, owned_sum, held-set, Acquired, acquire-Acquired, same_kind→eq, own-le-held,
  bytes_fit, owned_part, owned_sum-set, counted, part-le-sum, minus-exact, owned-exact, own_kind,
}

module _ (state : ResourceSnapshot) (accounts : List ResourceAccount) (i : ℕ) (a : ResourceAccount)
    (v : IsBalanced state accounts) (at : get_elem? accounts i ≡ some a) where
  pub account_fits : a.bytes ≤ state.bytes a.kind
  account_fits = omega (arith, own_kind a, own-le-held a.kind accounts i a at, v.kinds a.kind)

  -- A successful `acquire` on any account keeps the budget balanced: the total stays within the
  -- limit, and every count is exact.
  pub acquire-IsBalanced :
      (n : ℕ) (state' : ResourceSnapshot) (a' : ResourceAccount)
      → n ≤ size_max
      → acquire a n (some state) ≡ ok (some state', a')
      → IsBalanced state' (set accounts i a')
  acquire-IsBalanced n state' a' h e =
      let room = bytes_fit state accounts v a.kind in
      let d : Acquired state a n state' a' =
        acquire-Acquired state a n state' a' e h room (omega (arith, account_fits)) in
      let w = set_bytes state.bytes a.kind (state.bytes a.kind + n) in
      let f : state'.bytes ≡ w = fun_ext d.bytes in
      let sums = owned_sum-set state.bytes a.kind (state.bytes a.kind + n) in
      let exact : (owned_sum w ≡ state'.owned)
          × (state'.owned ≤ state.limit)
          × (state'.owned ≤ state'.peak)
          × (state'.peak ≤ state.limit) =
        counted (is_owned a.kind) state.owned state.peak state.limit (state.bytes a.kind) n
          (owned_sum w) state'.owned state'.peak v.within_limit v.within_peak v.peak_within
          v.limit_fits d.owned d.peak d.tested (rw v.sum sums) in
      record {
        kinds = λ k.
            ground
              (arith, d.bytes k, held-set k accounts i a a' at, v.kinds k, same_kind→eq k a.kind);
        sum = rw f (sym exact.0);
        within_limit = omega (arith, d.limit, exact.1);
        within_peak = exact.2;
        peak_within = omega (arith, d.limit, exact.3);
        limit_fits = omega (arith, d.limit, v.limit_fits);
        framework_fits = ground (
          arith,
          d.bytes ResourceKind.framework,
          d.fits,
          v.framework_fits,
          same_kind→eq ResourceKind.framework a.kind,
        );
      }

  -- Giving back bytes that the account holds, with exact counts.
  module _ (n : ℕ) (h : n ≤ a.bytes) where
    released : ResourceSnapshot
    released = record state {
      bytes = set_bytes state.bytes a.kind (state.bytes a.kind - n);
      owned = state.owned - owned_part a.kind n;
    }

    released_account : ResourceAccount
    released_account = record a { bytes = a.bytes - n }

    kind_sum : owned_part a.kind (state.bytes a.kind) ≤ owned_sum state.bytes
    kind_sum = part-le-sum a.kind state.bytes

    owned_fits : owned_part a.kind n ≤ state.owned
    owned_fits = ground (arith, kind_sum, account_fits, v.sum)

    release-exact : release a n (some state) ≡ (some released, released_account)
    unfolding release released released_account
    release-exact =
        let bytes =
          minus-exact (state.bytes a.kind) n (omega (arith, account_fits))
            (bytes_fit state accounts v a.kind) in
        let owned =
          owned-exact (is_owned a.kind) state.owned n (omega (arith, owned_fits)) (omega arith) in
        let account =
          minus-exact a.bytes n h
            (omega (arith, account_fits, bytes_fit state accounts v a.kind)) in
        λ j. (
          some (record state { bytes = set_bytes state.bytes a.kind (bytes j); owned = owned j }),
          record a { bytes = account j },
        )

    release-kinds : (k : ResourceKind) → released.bytes k ≡ held k (set accounts i released_account)
    unfolding released released_account
    release-kinds k = ground (
      arith,
      held-set k accounts i a released_account at,
      v.kinds k,
      account_fits,
      same_kind→eq k a.kind,
    )

    released-IsBalanced : IsBalanced released (set accounts i released_account)
    unfolding released
    released-IsBalanced = record {
      kinds = release-kinds;
      sum = ground (
        arith,
        owned_sum-set state.bytes a.kind (state.bytes a.kind - n),
        v.sum,
        kind_sum,
        account_fits,
      );
      within_limit = omega arith;
      within_peak = omega arith;
      peak_within = omega arith;
      limit_fits = omega arith;
      framework_fits = ground (arith, v.framework_fits, same_kind→eq ResourceKind.framework a.kind);
    }

  -- A `release` of bytes that the account holds takes them from the account, keeps the budget
  -- balanced, and changes neither the limit nor the peak.
  pub release-IsBalanced :
      (n : ℕ)
      → n ≤ a.bytes
      → (state' : ResourceSnapshot) × (release a n (some state)
          ≡ (some state', record a { bytes = a.bytes - n }))
        × IsBalanced state' (set accounts i (record a { bytes = a.bytes - n }))
        × (state'.limit ≡ state.limit)
        × (state'.peak ≡ state.peak)
  unfolding released released_account
  release-IsBalanced n h = (released n h, release-exact n h, released-IsBalanced n h, refl, refl)

  -- On a balanced budget an `acquire` of an owned kind whose total stays within the limit adds the
  -- bytes to the kind, the total and the account, and raises the peak to the total; beyond the
  -- limit it throws the error of the memory limit.
  pub acquire-limit :
      (n : ℕ)
      → n ≤ size_max
      → is_owned a.kind ≡ true
      → acquire a n (some state) ≡ (
          if leb (state.owned + n) state.limit
          then ok (
            some (record state {
              bytes = set_bytes state.bytes a.kind (state.bytes a.kind + n);
              owned = state.owned + n;
              peak = max state.peak (state.owned + n);
            }),
            record a { bytes = a.bytes + n },
          )
          else err (runtime_error "nss: memory_limit_mb exceeded"))
  unfolding acquire
  acquire-limit n h o =
      let room = bytes_fit state accounts v a.kind in
      let part = part-le-sum a.kind state.bytes in
      let exact : (leb (state.owned + n) state.limit ≡ true
          → plus state.owned n ≡ state.owned + n) =
        λ k. ground (arith, v.limit_fits, k) in
      ground (arith, room, part, account_fits, v.sum, v.within_limit, v.limit_fits, exact)
