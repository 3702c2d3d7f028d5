-- ===== src/Users/Rotate.antt =====
-- rotate, _rotate_row and _grace_reissue of backend/users/tokens.py. A failure commits what was
-- written before it, so the database stands beside the result. One reading of the clock serves the
-- whole exchange.
use django_base_x.Prelude.{
  ℕ, ◌+◌, String, Bool, false, ◌||◌, not, Option, none, some, [], ◌∷◌, ◌++◌, ltb, leb, slice_to,
  is_empty, str_eq, ◌==◌, any_where, update_where, first_where, map, if◌then◌else◌,
}
use django_base_x.Prelude.Result.{Result, ok, err}
use django_base_x.Users.Session.{
  Reason, Session, User, Db, Config, Client, Issued, is_live, verifying_keys, session_with_user,
}
use django_base_x.Users.Keys.{Jwt, TokenError, decode}
use django_base_x.Users.Revoke.{forget, revoke_rows, revoke_family}

-- objects.create under the unique jti
unfoldable pub create : Session → Db → Result TokenError Db
create row db =
    if any_where (λ s. str_eq s.jti row.jti) db.sessions
    then err TokenError.integrity_error
    else ok (record db { sessions = db.sessions ++ (row ∷ []); next_id = db.next_id + 1 })

unfoldable pub successor_of : Config → String → String → Session → Client → ℕ → ℕ → Session
successor_of cfg public_id new_raw session client now id = record {
  id = id;
  public_id = public_id;
  user = session.user;
  jti = cfg.hash new_raw;
  family_id = session.family_id;
  parent_jti = session.jti;
  replaced_by_jti = "";
  issued_at = now;
  expires_at = session.expires_at;
  last_seen_at = now;
  password_confirmed_at = session.password_confirmed_at;
  revoked_at = none;
  revoked_reason = Reason.unset;
  ip = client.ip;
  user_agent = slice_to 255 client.user_agent;
  device_label = session.device_label;
}

-- session.save(update_fields=["revoked_at", "revoked_reason", "replaced_by_jti"])
unfoldable pub as_rotated : ℕ → String → Session → Session
as_rotated now jti s = record s {
  revoked_at = some now;
  revoked_reason = Reason.rotated;
  replaced_by_jti = jti;
}

unfoldable pub rotate_row :
    Config → String → Session → String → Client → ℕ → Db → Result TokenError Issued × Db
unfolding create as_rotated forget
rotate_row cfg public_id session raw_jti client now db =
    let new_raw = cfg.successor cfg.signing_key raw_jti in
    let successor = successor_of cfg public_id new_raw session client now db.next_id in
    elim (create successor db) [
      | err e ↦ (err e, db)
      | ok db' ↦ (
        ok (record { session = successor; jti = new_raw; at = now }),
        record db' {
          sessions =
              update_where (λ s. s.id == session.id) (as_rotated now successor.jti) db'.sessions;
          cache = forget (session ∷ []) db'.cache;
        },
      )
    ]

-- The successor's raw jti, under whichever key it was derived with.
unfoldable pub successor_raw : Config → Session → String → Option String
successor_raw cfg session raw_jti =
    first_where (λ c. str_eq (cfg.hash c) session.replaced_by_jti)
      (map (λ key. cfg.successor key raw_jti) (verifying_keys cfg))

unfoldable pub live_successor : Session → ℕ → Db → Option Session
unfolding is_live session_with_user
live_successor session now db = elim (session_with_user session.replaced_by_jti db) [
  | none ↦ none
  | some (successor, user) ↦
      if not (is_live now successor) || not user.is_active then none else some successor
]

unfoldable pub grace_reissue : Config → Session → String → ℕ → ℕ → Db → Option Issued
unfolding successor_raw live_successor
grace_reissue cfg session raw_jti revoked_at now db = elim session.revoked_reason [
  | Reason.rotated ↦
      if ltb (revoked_at + cfg.rotation_grace) now
      then none
      else elim (successor_raw cfg session raw_jti) [
        | none ↦ none
        | some raw ↦ elim (live_successor session now db) [
          | none ↦ none
          | some successor ↦ some (record { session = successor; jti = raw; at = now })
        ]
      ]
  | _ ↦ none
]

unfoldable pub is_idle : Config → Session → ℕ → Bool
is_idle cfg session now =
    leb session.expires_at now || leb (session.last_seen_at + cfg.idle_lifetime) now

unfoldable pub predates : Session → User → Bool
predates session user = elim user.password_changed_at [
  | none ↦ false
  | some changed ↦ ltb session.issued_at changed
]

-- The transaction of rotate, for a token of this jti.
unfoldable pub exchange : Config → String → String → Client → ℕ → Db → Result TokenError Issued × Db
unfolding grace_reissue rotate_row is_idle predates session_with_user
exchange cfg public_id raw_jti client now db = elim (session_with_user (cfg.hash raw_jti) db) [
  | none ↦ (err TokenError.unknown_token, db)
  | some (session, user) ↦ elim session.revoked_at [
    | some at ↦ elim (grace_reissue cfg session raw_jti at now db) [
      | some issued ↦ (ok issued, db)
      | none ↦ (
        err TokenError.reuse_detected,
        (revoke_family session.family_id Reason.reuse_detected now db).1,
      )
    ]
    | none ↦
        if is_idle cfg session now
        then (err TokenError.session_expired, (revoke_rows (session ∷ []) Reason.expired now db).1)
        else if not user.is_active
        then (err TokenError.inactive, db)
        else if predates session user
        then (err TokenError.predates_password, db)
        else rotate_row cfg public_id session raw_jti client now db
  ]
]

unfoldable pub rotate :
    Jwt → Config → String → String → Client → ℕ → Db → Result TokenError Issued × Db
unfolding exchange
rotate lib cfg token public_id client now db = elim (decode lib cfg token "refresh") [
  | err e ↦ (err e, db)
  | ok c ↦ elim c.jti [
    | none ↦ (err TokenError.no_jti, db)
    | some raw_jti ↦
        if is_empty raw_jti
        then (err TokenError.no_jti, db)
        else exchange cfg public_id raw_jti client now db
  ]
]
