-- ===== src/Settings/Staleness.antt =====
-- What other processes do to the shared cache between a write of
-- backend/core/settings_service.py and its commit.
use django_base_x.Prelude.{
  ℕ, ◌<◌, ◌≤◌, Bool, true, none, some, List, [], ◌≡◌, refl, arith, All-impl,
}
use django_base_x.Settings.Service.{Place, Row, Cache, Faults, started, bump_generation, lookup}
use django_base_x.Settings.Coherence.{
  IsCoherent, IsBehind, next_generation, next_generation-none, next_generation-some,
  lookup-IsBehind, bump-IsCoherent,
}
use django_base_x.Settings.State.{State, Change, changed, committed, committed_all, commit}

module _ {N : Type 0} where
  abbrev evicted : Cache N → Cache N
  evicted cache = record { generation = none; slots = cache.slots }

  -- The caches that follow from one, with the clock: lookups of any process under any rows and
  -- failures, bumps that reach the cache or not, the loss of the generation while it is behind the
  -- clock, as one that counts writes from a start at the clock is, and the passing of time.
  pub data Follows (cache : Cache N) (start : ℕ) : Cache N → ℕ → Type 0 where
    still : Follows cache start cache start
    looks :
        (faults : Faults) (rows : List (Row N)) (place : Place) {after : Cache N} {now : ℕ}
        → Follows cache start after now
        → Follows cache start (lookup faults now rows place after).1 now
    bumps :
        (reached : Bool) {after : Cache N} {now : ℕ}
        → Follows cache start after now
        → Follows cache start (bump_generation reached now after) now
    loses :
        (g : ℕ) {after : Cache N} {now : ℕ}
        → after.generation ≡ some g
        → g < now
        → Follows cache start after now
        → Follows cache start (evicted after) now
    ticks :
        {after : Cache N} {now later : ℕ}
        → now ≤ later
        → Follows cache start after now
        → Follows cache start after later

  -- The same entries under a bound that has not come down.
  moved-IsBehind :
      (now later : ℕ) (cache after : Cache N)
      → after.slots ≡ cache.slots
      → next_generation now cache ≤ next_generation later after
      → IsBehind now cache
      → IsBehind later after
  unfolding IsBehind next_generation
  moved-IsBehind now later cache after same order h = rw same (
      All-impl (λ slot. slot.generation < next_generation now cache)
        (λ slot. slot.generation < next_generation later after)
        (λ slot older. omega (arith, older, order)) cache.slots h)

  bump-slots :
      (reached : Bool) (now : ℕ) (cache : Cache N)
      → ((bump_generation reached now cache).slots ≡ cache.slots)
        × (next_generation now cache ≤ next_generation now (bump_generation reached now cache))
  unfolding bump_generation started next_generation
  bump-slots reached now cache = (ground arith, ground arith)

  bump-IsBehind :
      (reached : Bool) (now : ℕ) (cache : Cache N)
      → IsBehind now cache
      → IsBehind now (bump_generation reached now cache)
  bump-IsBehind reached now cache h =
      let (same, order) = bump-slots reached now cache in
      moved-IsBehind now now cache (bump_generation reached now cache) same order h

  later-order :
      (now later : ℕ) (cache : Cache N)
      → now ≤ later
      → next_generation now cache ≤ next_generation later cache
  unfolding next_generation
  later-order now later cache h = ground (arith, h)

  Follows-IsBehind :
      {cache : Cache N} {start : ℕ} {after : Cache N} {now : ℕ}
      → Follows cache start after now
      → IsBehind start cache
      → IsBehind now after
  Follows-IsBehind still h = h
  Follows-IsBehind (looks faults rows place {after} {now} follows) h =
      lookup-IsBehind faults now rows place after (Follows-IsBehind follows h)
  Follows-IsBehind (bumps reached {after} {now} follows) h =
      bump-IsBehind reached now after (Follows-IsBehind follows h)
  Follows-IsBehind (loses g {after} {now} e behind follows) h =
      moved-IsBehind now now after (evicted after) refl
        (omega (
          arith,
          behind,
          next_generation-some now after g e,
          next_generation-none now (evicted after) refl,
        ))
        (Follows-IsBehind follows h)
  Follows-IsBehind (ticks {after} {now} {later} order follows) h =
      moved-IsBehind now later after after refl (later-order now later after order)
        (Follows-IsBehind follows h)

  abbrev pub with_cache : Cache N → State N → State N
  with_cache cache state = record {
    rows = state.rows;
    cache = cache;
    snapshot = state.snapshot;
    waiting = state.waiting;
    audit = state.audit;
  }

  -- A write's change waits for the commit. Whatever lookups, bumps, losses of the generation and
  -- time come between the write and the commit, from a cache with no entry ahead of its
  -- generation, and whatever rows those lookups saw, the commit leaves no entry of the current
  -- generation that differs from the committed rows, if the cache answers its bump.
  pub commit-IsCoherent :
      (reached : Bool) (start now : ℕ) (change : Change N) (rows : List (Row N)) (state : State N)
      (between : Cache N)
      → IsBehind start state.cache
      → state.waiting ≡ []
      → Follows (changed reached start change rows state).cache start between now
      → IsCoherent now rows
          (commit true now (with_cache between (changed reached start change rows state))).cache
  unfolding commit changed committed_all committed
  commit-IsCoherent reached start now change rows state between behind quiet follows = rw quiet (
      bump-IsCoherent now rows between
        (Follows-IsBehind follows (bump-IsBehind reached start state.cache behind)))
