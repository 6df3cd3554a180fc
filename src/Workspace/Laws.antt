-- ===== src/Workspace/Laws.antt =====
-- What get and the destructor do to the charge.
use mathlib.Core.Path.{subst}
use vapoursynth_nssfactory.Base.{
  ℕ, ◌+◌, ◌*◌, ◌/◌, ◌≤◌, ◌≡◌, refl, sym, inl, inr, ltb, Option, none, some, List, [], ◌∷◌, Every,
  arith, Bool-cases, Result, ok, err,
}
use vapoursynth_nssfactory.Checked.{size_max}
use vapoursynth_nssfactory.Resources.{ResourceSnapshot, Charged}
use vapoursynth_nssfactory.Workspace.{
  AlignedBlock, Buffer, Workspace, workspace, buffer_at, write_at, bytes_of, aligned64, usable,
  acquire_for, replace_buffer, grow_buffer, key_of, get, Call, meet, after_calls,
}
use vapoursynth_nssfactory.Workspace.Sizes.{
  held, IsHeld, IsSized, IsConsistent, held-write_at, held-same, buffer_at-write_at,
  buffer_at-IsSized, write_at-IsSized, bytes_of-exact, release_for-IsHeld, acquire_for-IsHeld,
  release_old-IsHeld, given, given-size, given-IsSized,
}

entered-IsConsistent :
    (key : ℕ) (w : Workspace)
    → IsConsistent w
    → IsConsistent (record w { map = write_at key (buffer_at key w.map) w.map })
entered-IsConsistent key w v = record {
  charged = rw (held-same key w.map) v.charged;
  sized =
      write_at-IsSized key (buffer_at key w.map) w.map (buffer_at-IsSized key w.map v.sized)
        v.sized;
}

-- `w` is the workspace with the entry and the charge for the request.
replace_buffer-IsConsistent :
    (key floats : ℕ) (address : Option ℕ) (w : Workspace)
    → floats * 4 ≤ size_max
    → IsHeld w.account (bytes_of floats + held w.map)
    → Every (λ (entry : ℕ × Buffer). IsSized entry.1) w.map
    → IsConsistent
        (replace_buffer key floats (buffer_at key w.map) (aligned64 (bytes_of floats) address) w).0
unfolding replace_buffer aligned64
replace_buffer-IsConsistent key floats none w f h v = record {
  charged = release_for-IsHeld (bytes_of floats) (held w.map) w.account h;
  sized = v;
}
replace_buffer-IsConsistent key floats (some address) w f h v =
    let new = given floats address in
    let old = buffer_at key w.map in
    record {
      charged =
          release_old-IsHeld old.p old.n (held (write_at key new w.map)) w.account
            (buffer_at-IsSized key w.map v)
            (subst (IsHeld w.account)
              (omega (arith, held-write_at key new w.map, given-size floats)) h);
      sized = write_at-IsSized key new w.map (given-IsSized floats address f) v;
    }

grow_buffer-IsConsistent :
    (key floats : ℕ) (address : Option ℕ) (w : Workspace)
    → floats * 4 ≤ size_max
    → IsConsistent w
    → IsConsistent (grow_buffer key floats address w).0
unfolding grow_buffer
grow_buffer-IsConsistent key floats address w f v = go (usable (buffer_at key w.map) floats) refl
  where
    entered : Workspace
    entered = record w { map = write_at key (buffer_at key w.map) w.map }

    charge :
        (r : Result (Option Charged))
        → acquire_for (bytes_of floats) w.account ≡ r
        → IsConsistent
            (elim r as (λ x. Workspace × Result AlignedBlock) [
              | err e ↦ (entered, err e)
              | ok account ↦
                  replace_buffer key floats
                    (buffer_at key w.map)
                    (aligned64 (bytes_of floats) address)
                    (record entered { account = account })
            ]).0
    charge (err e) f = entered-IsConsistent key w v
    charge (ok account) e =
        subst
          (λ b.
            IsConsistent
              (replace_buffer key floats b (aligned64 (bytes_of floats) address)
                (record entered { account = account })).0)
          (buffer_at-write_at key (buffer_at key w.map) w.map)
          (replace_buffer-IsConsistent key floats address (record entered { account = account }) f
            (subst (λ n. IsHeld account (bytes_of floats + n)) (sym (held-same key w.map))
              (acquire_for-IsHeld (bytes_of floats) (held w.map) w.account account
                (ground (arith, bytes_of-exact floats f)) v.charged e))
            (entered-IsConsistent key w v).sized)

    go :
        (u : Option AlignedBlock)
        → usable (buffer_at key w.map) floats ≡ u
        → IsConsistent (grow_buffer key floats address w).0
    go (some block) e = rw (grow_buffer, e) (entered-IsConsistent key w v)
    go none e = rw (grow_buffer, e) (charge (acquire_for (bytes_of floats) w.account) refl)

get-IsConsistent :
    (thread floats : ℕ) (address : Option ℕ) (w : Workspace)
    → IsConsistent w
    → IsConsistent (get thread floats address w).0
unfolding get
get-IsConsistent thread floats address w v = elim (Bool-cases (ltb (size_max / 4) floats)) [
  | inl large ↦ rw large v
  | inr small ↦
      rw small (go (ground (arith, small)) (usable (buffer_at (key_of w thread) w.map) floats))
]
  where
    go :
        floats * 4 ≤ size_max
        → (u : Option AlignedBlock)
        → IsConsistent
            (elim u as (λ x. Workspace × Result AlignedBlock) [
              | some block ↦ (w, ok block)
              | none ↦ grow_buffer (key_of w thread) floats address w
            ]).0
    go f (some block) = v
    go f none = grow_buffer-IsConsistent (key_of w thread) floats address w f v

meet-IsConsistent :
    (budget : ResourceSnapshot) (w : Workspace) → IsConsistent w → IsConsistent (meet budget w)
meet-IsConsistent budget w v = record { charged = others w.account v.charged; sized = v.sized }
  where
    others :
        (account : Option Charged)
        → IsHeld account (held w.map)
        → IsHeld
            (elim account as (λ x. Option Charged) [
              | none ↦ none
              | some c ↦ some (some budget, c.1)
            ])
            (held w.map)
    others none h = tt
    others (some (none, a)) h = absurd h
    others (some (some before, a)) h = h

pub after_calls-IsConsistent :
    (cs : List Call) (w : Workspace) → IsConsistent w → IsConsistent (after_calls cs w)
after_calls-IsConsistent [] w v = v
after_calls-IsConsistent (c ∷ cs) w v = after_calls-IsConsistent cs _ (
    get-IsConsistent c.thread c.floats c.address (meet c.budget w) (meet-IsConsistent c.budget w v))

pub workspace-IsConsistent : (budget : Option ResourceSnapshot) → IsConsistent (workspace budget)
workspace-IsConsistent none = record { charged = tt; sized = tt }
workspace-IsConsistent (some budget) = record { charged = (refl, omega arith); sized = tt }
