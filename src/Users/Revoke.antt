-- ===== src/Users/Revoke.antt =====
-- Revocation and liveness: _revoke_rows, revoke_family, revoke_all_for_user, session_is_live and
-- _forget of backend/users/tokens.py.
use django_base_x.Prelude.{
  ℕ, ◌+◌, String, Bool, true, false, ◌&&◌, not, Option, none, some, List, ◌∷◌, ltb, leb, is_empty,
  str_eq, ◌==◌, any_where, count_where, update_where, first_where, filter_by, if◌then◌else◌,
}
use django_base_x.Users.Session.{Reason, Session, User, Live, Db, Config, is_unrevoked}

unfoldable pub as_revoked : ℕ → Reason → Session → Session
as_revoked now reason s = record s { revoked_at = some now; revoked_reason = reason }

-- cache.delete_many of the sessions' keys
unfoldable pub forget : List Session → List Live → List Live
forget sessions cache =
    filter_by (λ e. not (any_where (λ (s : Session). str_eq s.public_id e.sid) sessions)) cache

-- filter(pk__in=ids, revoked_at__isnull=True)
unfoldable pub is_revocable : List Session → Session → Bool
unfolding is_unrevoked
is_revocable sessions r = any_where (λ (s : Session). s.id == r.id) sessions && is_unrevoked r

-- Returns how many it revoked, and the database. The delete of the cached answers comes before the
-- commit: what a reader of the old row then puts back is an argument of the laws (Users.Staleness).
unfoldable pub revoke_rows : List Session → Reason → ℕ → Db → ℕ × Db
unfolding forget
revoke_rows sessions reason now db = (
  count_where (is_revocable sessions) db.sessions,
  record db {
    sessions = update_where (is_revocable sessions) (as_revoked now reason) db.sessions;
    cache = forget sessions db.cache;
  },
)

unfoldable pub revoke_family : String → Reason → ℕ → Db → ℕ × Db
revoke_family family reason now db =
    revoke_rows (filter_by (λ s. str_eq s.family_id family) db.sessions) reason now db

-- `keep_sid`: no exclusion when it is missing or empty
unfoldable pub is_kept : Option String → Session → Bool
is_kept none s = false
is_kept (some sid) s = not (is_empty sid) && str_eq s.public_id sid

unfoldable pub revoke_all_for_user : ℕ → Reason → Option String → ℕ → Db → ℕ × Db
unfolding is_unrevoked is_kept
revoke_all_for_user user reason keep now db =
    revoke_rows
      (filter_by (λ s. (s.user == user && is_unrevoked s) && not (is_kept keep s)) db.sessions)
      reason now db

-- expires_at and password_changed_at against a cached or fresh answer
unfoldable pub is_usable : Live → User → ℕ → Bool
is_usable state user now =
    if leb state.expires_at now
    then false
    else elim user.password_changed_at [ none ↦ true | some changed ↦ leb changed state.issued_at ]

-- cache.get of the session's key
unfoldable pub is_cached : String → ℕ → Live → Bool
is_cached sid now e = str_eq e.sid sid && ltb now e.until

-- The answer, and the cache with what was read put into it.
unfoldable pub session_is_live : Config → String → User → ℕ → Db → Bool × Db
unfolding is_usable
session_is_live cfg sid user now db = elim (first_where (is_cached sid now) db.cache) [
  | some state ↦ (is_usable state user now, db)
  | none ↦ elim (first_where (λ s. str_eq s.public_id sid && s.user == user.id) db.sessions) [
    | none ↦ (false, db)
    | some row ↦ elim row.revoked_at [
      | some at ↦ (false, db)
      | none ↦
          let state : Live = record {
            sid = sid;
            until = now + cfg.liveness_cache_ttl;
            expires_at = row.expires_at;
            issued_at = row.issued_at;
          } in
          (
            is_usable state user now,
            if ltb 0 cfg.liveness_cache_ttl then record db { cache = state ∷ db.cache } else db,
          )
    ]
  ]
]
