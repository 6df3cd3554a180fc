-- ===== src/Workspace.antt =====
-- src/host/workspace.cpp, class Workspace: one buffer of floats for each thread. The key 0 stands for
-- std::thread::id{}, which is no thread's. The address that posix_memalign gives, none where it
-- fails, is an argument; the block at it has the size that was asked for. The account is one of
-- Resources. The nodes of the map, which a ResourceAllocator charges too, are left out.
pub mod Sizes
pub mod Laws
pub mod Outcome
use vapoursynth_nssfactory.Base.{
  ℕ, zero, suc, ◌+◌, ◌*◌, ◌/◌, ◌%◌, ◌^◌, Bool, true, false, ltb, leb, ◌==◌, if◌then◌else◌, max,
  Option, none, some, List, [], ◌∷◌, Result, ok, err, Error, bad_array_new_length, bad_alloc,
}
use vapoursynth_nssfactory.Checked.{size_max}
use vapoursynth_nssfactory.Resources.{
  ResourceKind, ResourceSnapshot, ResourceAccount, Charged, new_account, acquire, release,
}

-- What posix_memalign has given: its address and its bytes.
pub record AlignedBlock : Type 0 where
  pub address : ℕ
  pub size : ℕ

pub record Buffer : Type 0 where
  pub p : Option AlignedBlock
  pub n : ℕ

-- The account may be null; it stands with the state of its budget.
pub record Workspace : Type 0 where
  pub map : List (ℕ × Buffer)
  pub serial : Bool
  pub account : Option Charged

-- make_resource_account, for the budget of the thread that constructs it.
abbrev pub make_resource_account : Option ResourceSnapshot → ResourceKind → Option Charged
make_resource_account none kind = none
make_resource_account (some budget) kind = some (some budget, new_account kind)

abbrev pub workspace : Option ResourceSnapshot → Workspace
workspace budget = record {
  map = [];
  serial = false;
  account = make_resource_account budget ResourceKind.workspace;
}

abbrev pub no_buffer : Buffer
no_buffer = record { p = none; n = 0 }

-- `map_[key]`, and a write to it.
abbrev pub buffer_at : ℕ → List (ℕ × Buffer) → Buffer
buffer_at key [] = no_buffer
buffer_at key ((k, b) ∷ bs) = let rest = buffer_at key bs in if k == key then b else rest

abbrev pub write_at : ℕ → Buffer → List (ℕ × Buffer) → List (ℕ × Buffer)
write_at key new [] = (key, new) ∷ []
write_at key new ((k, b) ∷ bs) =
    let rest = write_at key new bs in if k == key then (k, new) ∷ bs else (k, b) ∷ rest

-- `std::max<std::size_t>(64, floats * sizeof(float))`, a product of std::size_t.
abbrev pub bytes_of : ℕ → ℕ
bytes_of floats = max 64 ((floats * 4) % 2 ^ 64)

unfoldable pub aligned64 : ℕ → Option ℕ → Option AlignedBlock
aligned64 bytes none = none
aligned64 bytes (some address) =
    some record { address = address; size = if bytes == 0 then 64 else bytes }

-- The block, where there is one and the buffer is large enough.
abbrev pub usable : Buffer → ℕ → Option AlignedBlock
usable b floats = if leb floats b.n then b.p else none

-- `if (account_) account_->acquire(bytes)`, and the same with release.
abbrev pub acquire_for : ℕ → Option Charged → Result (Option Charged)
acquire_for bytes none = ok none
acquire_for bytes (some (budget, a)) = elim (acquire a bytes budget) [
  | ok charged ↦ ok (some charged)
  | err e ↦ err e
]

abbrev pub release_for : ℕ → Option Charged → Option Charged
release_for bytes none = none
release_for bytes (some (budget, a)) = some (release a bytes budget)

-- `if (account_ && buf.p) account_->release(...)`.
abbrev pub release_old : Buffer → Option Charged → Option Charged
release_old b account = elim b.p [ none ↦ account | some old ↦ release_for (bytes_of b.n) account ]

-- From the allocation on; `buf` is the entry of the key.
unfoldable pub replace_buffer :
    ℕ → ℕ → Buffer → Option AlignedBlock → Workspace → Workspace × Result AlignedBlock
replace_buffer key floats buf none w =
    (record w { account = release_for (bytes_of floats) w.account }, err bad_alloc)
replace_buffer key floats buf (some block) w = (
  record w {
    map = write_at key record { p = some block; n = floats } w.map;
    account = release_old buf w.account;
  },
  ok block,
)

-- The part under the unique lock. Looking up the entry adds it.
unfoldable pub grow_buffer : ℕ → ℕ → Option ℕ → Workspace → Workspace × Result AlignedBlock
unfolding replace_buffer aligned64
grow_buffer key floats address w =
    let buf = buffer_at key w.map in
    let entered = record w { map = write_at key buf w.map } in
    elim (usable buf floats) [
      | some block ↦ (entered, ok block)
      | none ↦ elim (acquire_for (bytes_of floats) w.account) [
        | err e ↦ (entered, err e)
        | ok account ↦
            replace_buffer key floats buf (aligned64 (bytes_of floats) address)
              (record entered { account = account })
      ]
    ]

abbrev pub key_of : Workspace → ℕ → ℕ
key_of w thread = if w.serial then 0 else suc thread

unfoldable pub get : ℕ → ℕ → Option ℕ → Workspace → Workspace × Result AlignedBlock
unfolding grow_buffer
get thread floats address w =
    if ltb (size_max / 4) floats
    then (w, err bad_array_new_length)
    else elim (usable (buffer_at (key_of w thread) w.map) floats) [
      | some block ↦ (w, ok block)
      | none ↦ grow_buffer (key_of w thread) floats address w
    ]

-- The loop of the destructor.
abbrev pub free_all : List (ℕ × Buffer) → Option Charged → Option Charged
free_all [] account = account
free_all ((k, b) ∷ bs) account = free_all bs (release_old b account)

-- What the destructor leaves of the account.
unfoldable pub destroy : Workspace → Option Charged
destroy w = free_all w.map w.account

-- A call of get with what it meets: the budget, which other accounts have changed since, and what
-- posix_memalign answers.
pub record Call : Type 0 where
  pub thread : ℕ
  pub floats : ℕ
  pub budget : ResourceSnapshot
  pub address : Option ℕ

abbrev pub meet : ResourceSnapshot → Workspace → Workspace
meet budget w = record w {
  account = elim w.account [ none ↦ none | some c ↦ some (some budget, c.1) ];
}

abbrev pub after_calls : List Call → Workspace → Workspace
after_calls [] w = w
after_calls (c ∷ cs) w = after_calls cs (get c.thread c.floats c.address (meet c.budget w)).0
