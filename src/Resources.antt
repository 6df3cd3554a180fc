-- ===== src/Resources.antt =====
-- include/nss/resources.hpp: the byte budget of a filter, and the accounts that are charged to it.
-- A std::size_t wraps modulo 2 ^ 64.
pub mod System
pub mod Laws
pub mod Retag
pub mod Allocator
pub mod Charges
use vapoursynth_nssfactory.Base.{
  ℕ, ◌+◌, ◌-◌, ◌%◌, ◌^◌, Bool, true, false, ◌&&◌, ◌||◌, not, ltb, if◌then◌else◌, Option, none, some,
  max, Result, ok, err, ◌>>=◌, runtime_error,
}
use vapoursynth_nssfactory.Checked.{checked_add}

-- Without the last one, Count.
pub data ResourceKind : Type 0 where
  workspace cached pinned inflight output framework : ResourceKind

abbrev pub same_kind : ResourceKind → ResourceKind → Bool
same_kind ResourceKind.workspace ResourceKind.workspace = true
same_kind ResourceKind.cached ResourceKind.cached = true
same_kind ResourceKind.pinned ResourceKind.pinned = true
same_kind ResourceKind.inflight ResourceKind.inflight = true
same_kind ResourceKind.output ResourceKind.output = true
same_kind ResourceKind.framework ResourceKind.framework = true
same_kind _ _ = false

-- The budget's state: the bytes of each kind, those of the owned kinds, their peak and their limit.
pub record ResourceSnapshot : Type 0 where
  pub bytes : ResourceKind → ℕ
  pub owned : ℕ
  pub peak : ℕ
  pub limit : ℕ

abbrev pub new_budget : ℕ → ResourceSnapshot
new_budget limit = record { bytes = λ _. 0; owned = 0; peak = 0; limit = limit }

-- An account, without the pointer to its budget: the operations take the budget as an argument.
pub record ResourceAccount : Type 0 where
  pub kind : ResourceKind
  pub bytes : ℕ

abbrev pub new_account : ResourceKind → ResourceAccount
new_account kind = record { kind = kind; bytes = 0 }

-- `a += b` and `a -= b` of a std::size_t.
abbrev pub plus : ℕ → ℕ → ℕ
plus a b = (a + b) % 2 ^ 64

abbrev pub minus : ℕ → ℕ → ℕ
minus a b = (a + 2 ^ 64 - b) % 2 ^ 64

abbrev pub set_bytes : (ResourceKind → ℕ) → ResourceKind → ℕ → ResourceKind → ℕ
set_bytes bytes kind n k = if same_kind k kind then n else bytes k

abbrev pub is_owned : ResourceKind → Bool
is_owned kind = not (same_kind kind ResourceKind.framework)

-- The budget of an account, which may be null, and the account.
abbrev pub Charged : Type 0
Charged = Option ResourceSnapshot × ResourceAccount

-- An exception leaves both as they are: nothing is written before the last test.
unfoldable pub acquire : ResourceAccount → ℕ → Option ResourceSnapshot → Result Charged
unfolding checked_add
acquire a n none = ok (none, a)
acquire a n (some state) =
    if is_owned a.kind && ltb (minus state.limit state.owned) n
    then err (runtime_error "nss: memory_limit_mb exceeded")
    else do
      next ← checked_add (state.bytes a.kind) n
      account_next ← checked_add a.bytes n
      let owned = if is_owned a.kind then plus state.owned n else state.owned
      let peak = if is_owned a.kind then max state.peak owned else state.peak
      ok (
        some (record state {
          bytes = set_bytes state.bytes a.kind next;
          owned = owned;
          peak = peak;
        }),
        record a { bytes = account_next },
      )

unfoldable pub release : ResourceAccount → ℕ → Option ResourceSnapshot → Charged
release a n none = (none, a)
release a n (some state) = (
  some (record state {
    bytes = set_bytes state.bytes a.kind (minus (state.bytes a.kind) n);
    owned = if is_owned a.kind then minus state.owned n else state.owned;
  }),
  record a { bytes = minus a.bytes n },
)

unfoldable pub retag : ResourceAccount → ResourceKind → Option ResourceSnapshot → Charged
retag a kind none = (none, a)
retag a kind (some state) =
    if same_kind kind a.kind
    then (some state, a)
    else let taken = set_bytes state.bytes a.kind (minus (state.bytes a.kind) a.bytes) in
      (
        some (record state { bytes = set_bytes taken kind (plus (taken kind) a.bytes) }),
        record a { kind = kind },
      )
