-- ===== src/Examples/Budgets.antt =====
-- A budget of 100 bytes with one account of the workspace, which holds 30 bytes.
use vapoursynth_nssfactory.Base.{
  true, ℕ, ◌+◌, ◌≡◌, refl, arith, List, [], ◌∷◌, some, ok, err, runtime_error, max, leb,
  if◌then◌else◌,
}
use vapoursynth_nssfactory.Checked.{checked_add, checked_mul}
use vapoursynth_nssfactory.Resources.{
  ResourceKind, ResourceSnapshot, ResourceAccount, Charged, acquire, set_bytes, new_budget,
  new_account,
}
use vapoursynth_nssfactory.Resources.Allocator.{World, Step, Reach, allocate}
use vapoursynth_nssfactory.Resources.Charges.{IsCharged}
use vapoursynth_nssfactory.Resources.Charges.Steps.{Reach-IsCharged}
use vapoursynth_nssfactory.Resources.System.{IsBalanced}
use vapoursynth_nssfactory.Resources.Laws.{acquire-limit}

abbrev workspace : ℕ → ResourceAccount
workspace bytes = record { kind = ResourceKind.workspace; bytes = bytes }

abbrev workspace_bytes : ℕ → ResourceKind → ℕ
workspace_bytes n ResourceKind.workspace = n
workspace_bytes n _ = 0

abbrev budget : ResourceSnapshot
budget = record { bytes = workspace_bytes 30; owned = 30; peak = 50; limit = 100 }

abbrev accounts : List ResourceAccount
accounts = workspace 30 ∷ []

budget-IsBalanced : IsBalanced budget accounts
budget-IsBalanced = record {
  kinds = λ k. ground arith;
  sum = refl;
  within_limit = omega arith;
  within_peak = omega arith;
  peak_within = omega arith;
  limit_fits = omega arith;
  framework_fits = omega arith;
}

abbrev more : ResourceSnapshot
more = record {
  bytes = set_bytes (workspace_bytes 30) ResourceKind.workspace 90;
  owned = 90;
  peak = 90;
  limit = 100;
}

acquire_60 : acquire (workspace 30) 60 (some budget) ≡ ok (some more, workspace 90)
unfolding acquire checked_add
acquire_60 = refl

acquire-limit_example : acquire (workspace 30) 71 (some budget) ≡ (
    if leb (30 + 71) 100
    then ok (
      some (record budget {
        bytes = set_bytes (workspace_bytes 30) ResourceKind.workspace (30 + 71);
        owned = 30 + 71;
        peak = max 50 (30 + 71);
      }),
      workspace (30 + 71),
    )
    else err (runtime_error "nss: memory_limit_mb exceeded"))
acquire-limit_example =
    acquire-limit budget accounts 0 (workspace 30) budget-IsBalanced refl 71 (omega arith) refl

-- A limit of 100 bytes: a block of 10 elements of 4 bytes, a second one that is over the limit, and the
-- first one given back.
abbrev open_world : World
open_world = record {
  state = new_budget 100;
  accounts = new_account ResourceKind.cached ∷ [];
  blocks = [];
}

abbrev after_acquire : ℕ → Charged
after_acquire n = (
  some (record (new_budget 100) {
    bytes = set_bytes (λ k. 0) ResourceKind.cached n;
    owned = n;
    peak = 40;
  }),
  record { kind = ResourceKind.cached; bytes = n },
)

allocates_40 :
    allocate (new_account ResourceKind.cached) 10 4 true (some (new_budget 100))
    ≡ record { charged = after_acquire 40; outcome = ok 40 }
unfolding allocate acquire checked_mul checked_add
allocates_40 = refl

refuses_80 :
    allocate record { kind = ResourceKind.cached; bytes = 40 } 20 4 true (after_acquire 40).0
    ≡ record {
      charged = after_acquire 40;
      outcome = err (runtime_error "nss: memory_limit_mb exceeded");
    }
unfolding allocate acquire checked_mul checked_add
refuses_80 = refl

abbrev one_block : World
one_block = record {
  state = record (new_budget 100) {
    bytes = set_bytes (λ k. 0) ResourceKind.cached 40;
    owned = 40;
    peak = 40;
  };
  accounts = record { kind = ResourceKind.cached; bytes = 40 } ∷ [];
  blocks = record { account = 0; count = 10; size = 4 } ∷ [];
}

Reach-IsCharged_example : IsCharged one_block
Reach-IsCharged_example = Reach-IsCharged {limit = 100} (omega arith) (
    Reach.next
      (Reach.next (Reach.next Reach.here (Step.opens ResourceKind.cached))
        (Step.allocates 0 10 4 40 _ _ _ refl allocates_40))
      (Step.throws 0 20 4 true _ _ _ _ refl refuses_80))
