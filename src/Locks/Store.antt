-- ===== src/Locks/Store.antt =====
-- MemoryStore of backend/core/locks.py, and _check_ttl. Instants are microseconds of the monotonic
-- clock, a ttl is milliseconds. `now` is the clock as _live reads it, `then_` as the new expiry does.
use django_base_x.Prelude.{
  ℕ, ◌+◌, ◌*◌, String, Bool, true, false, not, Option, none, some, List, ◌∷◌, leb, ltb, str_eq,
  first_where, filter_by, if◌then◌else◌,
}
use django_base_x.Prelude.Result.{Result, ok, err}
use django_base_x.Errors.{Exc, value_error}

pub record Entry : Type 0 where
  pub key : String
  pub token : String
  pub expires_at : ℕ

abbrev pub Store : Type 0
Store = List Entry

abbrev pub max_lock_ttl_seconds : ℕ
max_lock_ttl_seconds = 3600

-- (time_limit + JOB_LOCK_MARGIN_SECONDS) * 1000
unfoldable pub job_lock_ttl_ms : ℕ → ℕ
job_lock_ttl_ms time_limit = (time_limit + 30) * 1000

unfoldable pub check_ttl : ℕ → Result Exc Unit
check_ttl ttl_ms =
    if ltb ttl_ms 1
    then err value_error
    else if ltb (max_lock_ttl_seconds * 1000) ttl_ms
    then err value_error
    else ok tt

-- dict: get, del, and assignment
unfoldable pub get : String → Store → Option Entry
get key store = first_where (λ e. str_eq e.key key) store

unfoldable pub remove : String → Store → Store
remove key store = filter_by (λ e. not (str_eq e.key key)) store

unfoldable pub put : Entry → Store → Store
unfolding remove
put entry store = entry ∷ remove entry.key store

-- The entry if it has not expired, and the store, from which an expired one is deleted.
unfoldable pub live : String → ℕ → Store → Option Entry × Store
unfolding get remove
live key now store = elim (get key store) [
  | none ↦ (none, store)
  | some entry ↦ if leb entry.expires_at now then (none, remove key store) else (some entry, store)
]

unfoldable pub entry_for : String → String → ℕ → ℕ → Entry
entry_for key token ttl_ms then_ = record {
  key = key;
  token = token;
  expires_at = then_ + ttl_ms * 1000;
}

unfoldable pub acquire : String → String → ℕ → ℕ → ℕ → Store → Bool × Store
unfolding live put entry_for
acquire key token ttl_ms now then_ store =
    let seen = live key now store in
    elim seen.0 [
      | some entry ↦ (false, seen.1)
      | none ↦ (true, put (entry_for key token ttl_ms then_) seen.1)
    ]

unfoldable pub release : String → String → ℕ → Store → Bool × Store
unfolding live remove
release key token now store =
    let seen = live key now store in
    elim seen.0 [
      | none ↦ (false, seen.1)
      | some entry ↦ if str_eq entry.token token then (true, remove key seen.1) else (false, seen.1)
    ]

unfoldable pub extend : String → String → ℕ → ℕ → ℕ → Store → Bool × Store
unfolding live put entry_for
extend key token ttl_ms now then_ store =
    let seen = live key now store in
    elim seen.0 [
      | none ↦ (false, seen.1)
      | some entry ↦
          if str_eq entry.token token
          then (true, put (entry_for key token ttl_ms then_) seen.1)
          else (false, seen.1)
    ]
