-- ===== src/Users/Session.antt =====
-- One row per refresh token (backend/users/models/session.py), the accounts behind them, and the
-- liveness cache. `hash` stands for SHA-256 and `successor key jti` for the HMAC of
-- backend/users/tokens.py; the lifetimes are the settings' of the same names.
use django_base_x.Prelude.{
  ℕ, String, Bool, ◌&&◌, not, Option, none, some, List, ◌∷◌, ltb, is_none, is_empty, str_eq, ◌==◌,
  first_where, filter_by,
}

pub data Reason : Type 0 where
  unset logout rotated reuse_detected password_changed admin expired : Reason

pub record Session : Type 0 where
  pub id : ℕ
  pub public_id : String
  pub user : ℕ
  pub jti : String
  pub family_id : String
  pub parent_jti : String
  pub replaced_by_jti : String
  pub issued_at : ℕ
  pub expires_at : ℕ
  pub last_seen_at : ℕ
  pub password_confirmed_at : Option ℕ
  pub revoked_at : Option ℕ
  pub revoked_reason : Reason
  pub ip : Option String
  pub user_agent : String
  pub device_label : String

-- users.models.User, as far as it is read here
pub record User : Type 0 where
  pub id : ℕ
  pub is_active : Bool
  pub password_changed_at : Option ℕ

-- The cached answer of session_is_live; from `until` on the cache has lost it.
pub record Live : Type 0 where
  pub sid : String
  pub until : ℕ
  pub expires_at : ℕ
  pub issued_at : ℕ

pub record Db : Type 0 where
  pub sessions : List Session
  pub next_id : ℕ
  pub users : List User
  pub cache : List Live

pub record Config : Type 0 where
  pub hash : String → String
  pub successor : String → String → String
  pub key_id : String → String
  pub signing_key : String
  pub fallbacks : List String
  pub refresh_lifetime : ℕ
  pub idle_lifetime : ℕ
  pub rotation_grace : ℕ
  pub liveness_cache_ttl : ℕ
  pub max_sessions : ℕ

-- What a request says of its client.
pub record Client : Type 0 where
  pub ip : Option String
  pub user_agent : String

-- IssuedTokens, as what the two tokens are encoded from.
pub record Issued : Type 0 where
  pub session : Session
  pub jti : String
  pub at : ℕ

unfoldable pub is_unrevoked : Session → Bool
is_unrevoked s = is_none s.revoked_at

-- UserSession.is_live
unfoldable pub is_live : ℕ → Session → Bool
unfolding is_unrevoked
is_live now s = is_unrevoked s && ltb now s.expires_at

-- settings.JWT_SIGNING_KEY, then the fallbacks that are not empty
unfoldable pub verifying_keys : Config → List String
verifying_keys cfg = cfg.signing_key ∷ filter_by (λ k. not (is_empty k)) cfg.fallbacks

-- select_related("user").filter(jti=...).first(): an inner join
unfoldable pub session_with_user : String → Db → Option (Session × User)
session_with_user jti db = elim (first_where (λ s. str_eq s.jti jti) db.sessions) [
  | none ↦ none
  | some session ↦ elim (first_where (λ u. u.id == session.user) db.users) [
    | none ↦ none
    | some user ↦ some (session, user)
  ]
]
