-- ===== src/Resources/Charges/Steps.antt =====
-- Each call of an allocator or an account keeps the charges.
use mathlib.Core.Path.{subst}
use vapoursynth_nssfactory.Base.{
  ℕ, zero, suc, ◌+◌, ◌*◌, ◌%◌, ◌^◌, ◌≤◌, ◌≡◌, ◌≢◌, refl, sym, ◌∙◌, ap, inl, inr, true, some, List,
  [], ◌∷◌, ◌++◌, get_elem?, set, length, ok, err, Error, ◌⊎◌, arith, get_elem?-set_self, length-set,
  length-append,
}
use vapoursynth_nssfactory.Checked.{size_max}
use vapoursynth_nssfactory.Resources.{
  ResourceKind, ResourceSnapshot, ResourceAccount, retag, is_owned, new_account,
}
use vapoursynth_nssfactory.Resources.System.{IsBalanced, held, bytes_fit}
use vapoursynth_nssfactory.Resources.Laws.{account_fits}
use vapoursynth_nssfactory.Resources.Retag.{retag-IsBalanced, set-same}
use vapoursynth_nssfactory.Resources.Allocator.{deallocate, Allocation, World, Step, Reach}
use vapoursynth_nssfactory.Resources.Charges.{
  block_bytes, charged_to, IsCharged, charged_to-append, lt-length, accounted-set, release_charged,
  acquire_charged, Tried, Refused, allocate-inv,
}

set-set {ℓ} : {A : Type ℓ} (xs : List A) (i : ℕ) (a b : A) → set (set xs i a) i b ≡ set xs i b
set-set [] i a b = refl
set-set (x ∷ xs) zero a b = refl
set-set (x ∷ xs) (suc i) a b = ap (◌∷◌ x) (set-set xs i a b)

-- An account that changes with its blocks.
IsCharged-set :
    (w : World) (i : ℕ) (a a' : ResourceAccount) (state' : ResourceSnapshot)
    (blocks' : List Allocation)
    → IsCharged w
    → get_elem? w.accounts i ≡ some a
    → IsBalanced state' (set w.accounts i a')
    → a'.bytes ≡ charged_to i blocks'
    → ((j : ℕ) → i ≢ j → charged_to j blocks' ≡ charged_to j w.blocks)
    → IsCharged record { state = state'; accounts = set w.accounts i a'; blocks = blocks' }
IsCharged-set w i a a' state' blocks' c at balanced own others = record {
  balanced = balanced;
  accounted = accounted-set w.accounts w.blocks blocks' i a a' at c.accounted own others;
  vacant = λ j out.
      let inside = lt-length w.accounts i a at in
      let size = length-set w.accounts i a' in
      others j (λ e. omega arith) ∙ c.vacant j (omega arith);
}

allocates_step :
    (w : World) (i count size bytes : ℕ) (a a' : ResourceAccount) (state' : ResourceSnapshot)
    → IsCharged w
    → get_elem? w.accounts i ≡ some a
    → Refused a a' w.state state' (ok bytes) ⊎ Tried a a' w.state state' (ok bytes) (count * size)
    → IsCharged record {
      state = state';
      accounts = set w.accounts i a';
      blocks = record { account = i; count = count; size = size } ∷ w.blocks;
    }
allocates_step w i count size bytes a a' state' c at (inl (e, no_error, _, _)) =
    absurd (ground arith)
allocates_step w i count size bytes a a' state' c at (inr (s, x, le, e, inr (no_error, _))) =
    absurd (ground arith)
allocates_step w i count size bytes a a' state' c at
      (inr (s, x, le, e, inl (_, same_state, same_account))) =
    let (balanced, more) = acquire_charged w i a x (count * size) s c.balanced at le e in
    IsCharged-set w i a a' state' _ c at
      (subst (λ t. IsBalanced t (set w.accounts i a')) same_state
        (subst (λ y. IsBalanced s (set w.accounts i y)) same_account balanced))
      (ground (arith, ap (λ (y : ResourceAccount). y.bytes) same_account, more, c.accounted i a at))
      (λ j apart. ground arith)

throws_step :
    (w : World) (i n : ℕ) (a a' : ResourceAccount) (state' : ResourceSnapshot) (e : Error)
    → IsCharged w
    → get_elem? w.accounts i ≡ some a
    → Refused a a' w.state state' (err e) ⊎ Tried a a' w.state state' (err e) n
    → IsCharged record { state = state'; accounts = set w.accounts i a'; blocks = w.blocks }
throws_step w i n a a' state' e c at (inl (_, _, same_state, same_account)) =
    IsCharged-set w i a a' state' w.blocks c at
      (subst (λ t. IsBalanced t (set w.accounts i a')) same_state
        (subst (λ y. IsBalanced w.state (set w.accounts i y)) same_account
          (subst (IsBalanced w.state) (sym (set-same w.accounts i a at)) c.balanced)))
      (ap (λ (y : ResourceAccount). y.bytes) (sym same_account) ∙ c.accounted i a at)
      (λ j apart. refl)
throws_step w i n a a' state' e c at (inr (s, x, le, got, inl (no_bytes, _, _))) =
    absurd (ground arith)
throws_step w i n a a' state' e c at (inr (s, x, le, got, inr (_, back))) =
    let (balanced, more) = acquire_charged w i a x n s c.balanced at le got in
    let between : World = record { state = s; accounts = set w.accounts i x; blocks = w.blocks } in
    let (end, less) =
      release_charged between i x a' n state' balanced
        (get_elem?-set_self w.accounts i x (lt-length w.accounts i a at)) (omega arith) back in
    IsCharged-set w i a a' state' w.blocks c at
      (subst (IsBalanced state') (set-set w.accounts i x a') end)
      (omega (arith, less, more, c.accounted i a at)) (λ j apart. refl)

deallocates_step :
    (w : World) (before after : List Allocation) (b : Allocation) (a a' : ResourceAccount)
    (state' : ResourceSnapshot)
    → IsCharged w
    → w.blocks ≡ before ++ b ∷ after
    → get_elem? w.accounts b.account ≡ some a
    → deallocate a b.count b.size (some w.state) ≡ (some state', a')
    → IsCharged
        record { state = state'; accounts = set w.accounts b.account a'; blocks = before ++ after }
unfolding deallocate
deallocates_step w before after b a a' state' c among at e =
    let i = b.account in
    let split = λ (j : ℕ). ap (charged_to j) among ∙ charged_to-append j before (b ∷ after) in
    let here : a.bytes ≡ charged_to i before + (block_bytes b + charged_to i after) =
      c.accounted i a at ∙ split i ∙ ground arith in
    let fits : a.bytes ≤ size_max = omega (
      arith,
      account_fits w.state w.accounts i a c.balanced at,
      bytes_fit w.state w.accounts c.balanced a.kind,
    ) in
    let exact : b.count * b.size % 2 ^ 64 ≡ b.count * b.size = omega arith in
    let (balanced, less) =
      release_charged w i a a' (b.count * b.size) state' c.balanced at (omega arith)
        (rw exact at e) in
    IsCharged-set w i a a' state' (before ++ after) c at balanced
      (omega (arith, less, here, charged_to-append i before after))
      (λ j apart. ground (arith, apart, split j, charged_to-append j before after))

retags_step :
    (w : World) (i : ℕ) (kind : ResourceKind) (a a' : ResourceAccount) (state' : ResourceSnapshot)
    → IsCharged w
    → get_elem? w.accounts i ≡ some a
    → is_owned a.kind ≡ true
    → is_owned kind ≡ true
    → retag a kind (some w.state) ≡ (some state', a')
    → IsCharged record { state = state'; accounts = set w.accounts i a'; blocks = w.blocks }
retags_step w i kind a a' state' c at o p e =
    let (s, r, balanced, _, _, _) =
      retag-IsBalanced w.state w.accounts i a c.balanced at kind o p in
    let same_state : s ≡ state' = ground (arith, sym r ∙ e) in
    let same_account : record a { kind = kind } ≡ a' = ground (arith, sym r ∙ e) in
    IsCharged-set w i a a' state' w.blocks c at
      (subst (λ t. IsBalanced t (set w.accounts i a')) same_state
        (subst (λ y. IsBalanced s (set w.accounts i y)) same_account balanced))
      (ap (λ (y : ResourceAccount). y.bytes) (sym same_account) ∙ c.accounted i a at)
      (λ j apart. refl)

held-append :
    (k : ResourceKind) (accounts : List ResourceAccount) (kind : ResourceKind)
    → held k (accounts ++ new_account kind ∷ []) ≡ held k accounts
held-append k [] kind = ground arith
held-append k (a ∷ accounts) kind = ground (arith, held-append k accounts kind)

get_elem?-snoc {ℓ} :
    {A : Type ℓ} (xs : List A) (x : A) (i : ℕ) (a : A)
    → get_elem? (xs ++ x ∷ []) i ≡ some a
    → (get_elem? xs i ≡ some a) ⊎ ((i ≡ length xs) × (a ≡ x))
get_elem?-snoc [] x zero a e = inr (refl, ground arith)
get_elem?-snoc [] x (suc i) a e = absurd (ground arith)
get_elem?-snoc (y ∷ xs) x zero a e = inl e
get_elem?-snoc (y ∷ xs) x (suc i) a e = elim (get_elem?-snoc xs x i a e) [
  | inl h ↦ inl h
  | inr (p, q) ↦ inr (ap suc p, q)
]

opens_step :
    (w : World) (kind : ResourceKind)
    → IsCharged w
    → IsCharged (record w { accounts = w.accounts ++ new_account kind ∷ [] })
opens_step w kind c = record {
  balanced = record {
    kinds = λ k. c.balanced.kinds k ∙ sym (held-append k w.accounts kind);
    sum = c.balanced.sum;
    within_limit = c.balanced.within_limit;
    within_peak = c.balanced.within_peak;
    peak_within = c.balanced.peak_within;
    limit_fits = c.balanced.limit_fits;
    framework_fits = c.balanced.framework_fits;
  };
  accounted = λ i a at. elim (get_elem?-snoc w.accounts (new_account kind) i a at) [
    | inl old ↦ c.accounted i a old
    | inr (p, q) ↦ ap (λ (y : ResourceAccount). y.bytes) q ∙ sym (c.vacant i (omega arith))
  ];
  vacant = λ i out. c.vacant i (omega (arith, length-append w.accounts (new_account kind ∷ [])));
}

-- A budget of at most 2 ^ 64 - 1 bytes, in every state that accounts and allocators can bring it to by
-- opening accounts, allocations, allocations that throw, deallocations and moves of an account between
-- owned kinds: the bytes of each kind are those of its accounts, the total is that of the owned kinds, at
-- most the peak, and the peak at most the limit; and the bytes of an account are those of the blocks that
-- are allocated with it, so that no deallocation takes more than is charged.
pub Reach-IsCharged : {limit : ℕ} {w : World} → limit ≤ size_max → Reach limit w → IsCharged w
Reach-IsCharged h Reach.here = record {
  balanced = record {
    kinds = λ k. refl;
    sum = refl;
    within_limit = omega arith;
    within_peak = omega arith;
    peak_within = omega arith;
    limit_fits = h;
    framework_fits = omega arith;
  };
  accounted = λ i a at. absurd (ground arith);
  vacant = λ i out. refl;
}
Reach-IsCharged h (Reach.next {v} r (Step.opens kind)) = opens_step v kind (Reach-IsCharged h r)
Reach-IsCharged h (Reach.next {v} r (Step.allocates i count size bytes a a' state' at e)) =
    allocates_step v i count size bytes a a' state' (Reach-IsCharged h r) at
      (allocate-inv a a' v.state state' (ok bytes) count size true e)
Reach-IsCharged h (Reach.next {v} r (Step.throws i count size memory t a a' state' at e)) =
    throws_step v i (count * size) a a' state' t (Reach-IsCharged h r) at
      (allocate-inv a a' v.state state' (err t) count size memory e)
Reach-IsCharged h (Reach.next {v} r (Step.deallocates before after b a a' state' among at e)) =
    deallocates_step v before after b a a' state' (Reach-IsCharged h r) among at e
Reach-IsCharged h (Reach.next {v} r (Step.retags i kind a a' state' at o p e)) =
    retags_step v i kind a a' state' (Reach-IsCharged h r) at o p e
