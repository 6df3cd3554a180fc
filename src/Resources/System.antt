-- ===== src/Resources/System.antt =====
-- Several accounts on one budget.
use vapoursynth_nssfactory.Base.{
  ℕ, suc, ◌+◌, ◌-◌, ◌≤◌, ◌≡◌, refl, Bool, true, false, if◌then◌else◌, some, List, [], ◌∷◌, zero,
  get_elem?, set, max, ok, arith,
}
use vapoursynth_nssfactory.Checked.{size_max}
use vapoursynth_nssfactory.Resources.{
  ResourceKind, ResourceSnapshot, ResourceAccount, same_kind, is_owned, acquire, plus, minus,
  set_bytes,
}

-- The bytes that the accounts of one kind hold together.
abbrev pub held : ResourceKind → List ResourceAccount → ℕ
held k [] = 0
held k (a ∷ others) = (if same_kind k a.kind then a.bytes else 0) + held k others

-- The bytes of all owned kinds.
abbrev pub owned_sum : (ResourceKind → ℕ) → ℕ
owned_sum bytes =
    bytes ResourceKind.workspace
    + bytes ResourceKind.cached
    + bytes ResourceKind.pinned
    + bytes ResourceKind.inflight
    + bytes ResourceKind.output

-- A budget agrees with its accounts: each kind's bytes are those that its accounts hold, the owned
-- bytes are those of the owned kinds, within the limit and the peak, and the peak within the limit.
pub record IsBalanced (state : ResourceSnapshot) (accounts : List ResourceAccount) : Type 0 where
  pub kinds : (k : ResourceKind) → state.bytes k ≡ held k accounts
  pub sum : state.owned ≡ owned_sum state.bytes
  pub within_limit : state.owned ≤ state.limit
  pub within_peak : state.owned ≤ state.peak
  pub peak_within : state.peak ≤ state.limit
  pub limit_fits : state.limit ≤ size_max
  pub framework_fits : state.bytes ResourceKind.framework ≤ size_max

-- The bytes that one account adds to a kind.
abbrev pub own : ResourceKind → ResourceAccount → ℕ
own k a = if same_kind k a.kind then a.bytes else 0

pub held-set :
    (k : ResourceKind) (accounts : List ResourceAccount) (i : ℕ) (a b : ResourceAccount)
    → get_elem? accounts i ≡ some a
    → held k (set accounts i b) + own k a ≡ held k accounts + own k b
held-set k [] i a b e = cc
held-set k (c ∷ others) zero a b e = let same : c ≡ a = cc in rw same (omega arith)
held-set k (c ∷ others) (suc i) a b e = omega (arith, held-set k others i a b e)

module _ (state : ResourceSnapshot) (a : ResourceAccount) (n : ℕ) (state' : ResourceSnapshot)
    (a' : ResourceAccount) where
  -- What a successful `acquire` has done, with its std::size_t sums as they are written.
  pub record Acquired : Type 0 where
    pub kind : a'.kind ≡ a.kind
    pub account : a'.bytes ≡ a.bytes + n
    pub bytes :
        (k : ResourceKind)
        → state'.bytes k ≡ set_bytes state.bytes a.kind (state.bytes a.kind + n) k
    pub owned : state'.owned ≡ (if is_owned a.kind then plus state.owned n else state.owned)
    pub peak :
        state'.peak ≡ (if is_owned a.kind then max state.peak (plus state.owned n) else state.peak)
    pub limit : state'.limit ≡ state.limit
    pub tested : is_owned a.kind ≡ true → n ≤ minus state.limit state.owned
    pub fits : state.bytes a.kind + n ≤ size_max

  pub acquire-Acquired :
      acquire a n (some state) ≡ ok (some state', a')
      → n ≤ size_max
      → state.bytes a.kind ≤ size_max
      → a.bytes ≤ size_max
      → Acquired
  unfolding acquire
  acquire-Acquired e h s c = record {
    kind = ground arith;
    account = ground arith;
    bytes = λ k. ground arith;
    owned = ground arith;
    peak = ground arith;
    limit = ground arith;
    tested = λ o. ground arith;
    fits = ground arith;
  }

pub same_kind→eq : (j k : ResourceKind) → same_kind j k ≡ true → j ≡ k
same_kind→eq j k h = ground arith

pub own-le-held :
    (k : ResourceKind) (accounts : List ResourceAccount) (i : ℕ) (a : ResourceAccount)
    → get_elem? accounts i ≡ some a
    → own k a ≤ held k accounts
own-le-held k [] i a e = cc
own-le-held k (c ∷ others) zero a e = let same : c ≡ a = cc in rw same (omega arith)
own-le-held k (c ∷ others) (suc i) a e = omega (arith, own-le-held k others i a e)

-- No count of a balanced budget is above what a std::size_t holds.
pub bytes_fit :
    (state : ResourceSnapshot) (accounts : List ResourceAccount)
    → IsBalanced state accounts
    → (k : ResourceKind) → state.bytes k ≤ size_max
bytes_fit state accounts v ResourceKind.framework = v.framework_fits
bytes_fit state accounts v ResourceKind.workspace = omega arith
bytes_fit state accounts v ResourceKind.cached = omega arith
bytes_fit state accounts v ResourceKind.pinned = omega arith
bytes_fit state accounts v ResourceKind.inflight = omega arith
bytes_fit state accounts v ResourceKind.output = omega arith

abbrev pub owned_part : ResourceKind → ℕ → ℕ
owned_part k n = if is_owned k then n else 0

pub owned_sum-set :
    (bytes : ResourceKind → ℕ) (k : ResourceKind) (n : ℕ)
    → owned_sum (set_bytes bytes k n) + owned_part k (bytes k) ≡ owned_sum bytes + owned_part k n
owned_sum-set bytes ResourceKind.framework n = omega arith
owned_sum-set bytes ResourceKind.workspace n = omega arith
owned_sum-set bytes ResourceKind.cached n = omega arith
owned_sum-set bytes ResourceKind.pinned n = omega arith
owned_sum-set bytes ResourceKind.inflight n = omega arith
owned_sum-set bytes ResourceKind.output n = omega arith

-- The totals of a successful `acquire` in numbers: they do not wrap.
pub counted :
    (is_owned_kind : Bool) (total peak limit bytes n sum total' peak' : ℕ)
    → total ≤ limit
    → total ≤ peak
    → peak ≤ limit
    → limit ≤ size_max
    → total' ≡ (if is_owned_kind then plus total n else total)
    → peak' ≡ (if is_owned_kind then max peak (plus total n) else peak)
    → (is_owned_kind ≡ true → n ≤ minus limit total)
    → sum + (if is_owned_kind then bytes else 0) ≡ total + (if is_owned_kind then bytes + n else 0)
    → (sum ≡ total') × (total' ≤ limit) × (total' ≤ peak') × (peak' ≤ limit)
counted true total peak limit bytes n sum total' peak' l p q r o k t u =
    let room : n ≤ minus limit total = t refl in omega arith
counted false total peak limit bytes n sum total' peak' l p q r o k t u = omega arith

pub part-le-sum :
    (k : ResourceKind) (bytes : ResourceKind → ℕ) → owned_part k (bytes k) ≤ owned_sum bytes
part-le-sum ResourceKind.framework bytes = omega arith
part-le-sum ResourceKind.workspace bytes = omega arith
part-le-sum ResourceKind.cached bytes = omega arith
part-le-sum ResourceKind.pinned bytes = omega arith
part-le-sum ResourceKind.inflight bytes = omega arith
part-le-sum ResourceKind.output bytes = omega arith

pub minus-exact : (a n : ℕ) → n ≤ a → a ≤ size_max → minus a n ≡ a - n
minus-exact a n h k = omega arith

pub owned-exact :
    (b : Bool) (owned n : ℕ)
    → (if b then n else 0) ≤ owned
    → owned ≤ size_max
    → (if b then minus owned n else owned) ≡ owned - (if b then n else 0)
owned-exact true owned n h k = minus-exact owned n h k
owned-exact false owned n h k = omega arith

pub own_kind : (a : ResourceAccount) → own a.kind a ≡ a.bytes
own_kind a = ground arith
