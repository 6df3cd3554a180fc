-- ===== src/Resources/Allocator.antt =====
-- include/nss/resources.hpp: ResourceAllocator, and the containers that charge their memory to accounts.
-- Whether std::allocator has the memory is an argument.
use vapoursynth_nssfactory.Base.{
  ℕ, ◌*◌, ◌%◌, ◌^◌, ◌≡◌, Bool, true, false, Option, some, List, [], ◌∷◌, ◌++◌, get_elem?, set,
  Result, ok, err, Error, bad_alloc,
}
use vapoursynth_nssfactory.Checked.{checked_mul}
use vapoursynth_nssfactory.Resources.{
  ResourceKind, ResourceSnapshot, ResourceAccount, Charged, acquire, release, retag, is_owned,
  new_budget, new_account,
}

-- allocate() for an account: the bytes that it returns, or an exception, after which the budget and the
-- account are as they stand beside it.
pub record Allocated : Type 0 where
  pub charged : Charged
  pub outcome : Result ℕ

abbrev pub obtained : Bool → ℕ → Charged → Allocated
obtained true bytes (budget, a) = record { charged = (budget, a); outcome = ok bytes }
obtained false bytes (budget, a) = record {
  charged = release a bytes budget;
  outcome = err bad_alloc;
}

abbrev pub charged_by :
    Option ResourceSnapshot → ResourceAccount → Bool → ℕ → Result Charged → Allocated
charged_by budget a memory bytes (err e) = record { charged = (budget, a); outcome = err e }
charged_by budget a memory bytes (ok charged) = obtained memory bytes charged

abbrev pub sized : Option ResourceSnapshot → ResourceAccount → Bool → Result ℕ → Allocated
sized budget a memory (err e) = record { charged = (budget, a); outcome = err e }
sized budget a memory (ok bytes) = charged_by budget a memory bytes (acquire a bytes budget)

unfoldable pub allocate : ResourceAccount → ℕ → ℕ → Bool → Option ResourceSnapshot → Allocated
allocate a count size memory budget = sized budget a memory (checked_mul count size)

unfoldable pub deallocate : ResourceAccount → ℕ → ℕ → Option ResourceSnapshot → Charged
deallocate a count size budget = release a (count * size % 2 ^ 64) budget

-- A block that is allocated: the place of its account, its count and the size of an element.
pub record Allocation : Type 0 where
  pub account : ℕ
  pub count : ℕ
  pub size : ℕ

pub record World : Type 0 where
  pub state : ResourceSnapshot
  pub accounts : List ResourceAccount
  pub blocks : List Allocation

-- The calls take the budget's mutex in any order. An account that nothing refers to any more stays in
-- the list, with no bytes.
pub data Step (w : World) : World → Type 0 where
  -- make_resource_account.
  opens :
      (kind : ResourceKind) → Step w (record w { accounts = w.accounts ++ new_account kind ∷ [] })
  allocates :
      (i count size bytes : ℕ) (a a' : ResourceAccount) (state' : ResourceSnapshot)
      → get_elem? w.accounts i ≡ some a
      → allocate a count size true (some w.state)
        ≡ record { charged = (some state', a'); outcome = ok bytes }
      → Step w record {
        state = state';
        accounts = set w.accounts i a';
        blocks = record { account = i; count = count; size = size } ∷ w.blocks;
      }
  -- An allocation that throws, for the limit, for its size or for want of memory.
  throws :
      (i count size : ℕ) (memory : Bool) (e : Error) (a a' : ResourceAccount)
      (state' : ResourceSnapshot)
      → get_elem? w.accounts i ≡ some a
      → allocate a count size memory (some w.state)
        ≡ record { charged = (some state', a'); outcome = err e }
      → Step w record { state = state'; accounts = set w.accounts i a'; blocks = w.blocks }
  deallocates :
      (before after : List Allocation) (b : Allocation) (a a' : ResourceAccount)
      (state' : ResourceSnapshot)
      → w.blocks ≡ before ++ b ∷ after
      → get_elem? w.accounts b.account ≡ some a
      → deallocate a b.count b.size (some w.state) ≡ (some state', a')
      → Step w record {
        state = state';
        accounts = set w.accounts b.account a';
        blocks = before ++ after;
      }
  -- An account of an owned kind moves to another.
  retags :
      (i : ℕ) (kind : ResourceKind) (a a' : ResourceAccount) (state' : ResourceSnapshot)
      → get_elem? w.accounts i ≡ some a
      → is_owned a.kind ≡ true
      → is_owned kind ≡ true
      → retag a kind (some w.state) ≡ (some state', a')
      → Step w record { state = state'; accounts = set w.accounts i a'; blocks = w.blocks }

abbrev pub start_world : ℕ → World
start_world limit = record { state = new_budget limit; accounts = []; blocks = [] }

pub data Reach (limit : ℕ) : World → Type 0 where
  here : Reach limit (start_world limit)
  next : {v w : World} → Reach limit v → Step v w → Reach limit w
