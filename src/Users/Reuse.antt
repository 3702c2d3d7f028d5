-- ===== src/Users/Reuse.antt =====
-- A refresh token that comes back after its rotation (backend/users/tokens.py).
use django_base_x.Prelude.{
  ℕ, ◌≡◌, refl, String, Bool, true, false, none, some, List, [], ◌∷◌, arith, str_eq, ◌==◌,
  any_where, count_where, update_where, filter_by, is_empty, All, All-impl,
}
use django_base_x.Prelude.Result.{ok, err}
use django_base_x.Users.Session.{
  Reason, Session, User, Db, Config, Client, is_unrevoked, session_with_user,
}
use django_base_x.Users.Keys.{Jwt, Claims, TokenError, decode}
use django_base_x.Users.Revoke.{as_revoked, is_revocable, revoke_rows, revoke_family}
use django_base_x.Users.Rotate.{grace_reissue, exchange, rotate}
use django_base_x.Users.Families.{is_open_in, open_in}

any_in_filter :
    (p : Session → Bool) (rows : List Session)
    → All
        (λ r. p r ≡ true → any_where (λ (s : Session). s.id == r.id) (filter_by p rows) ≡ true)
        rows
unfolding any_where filter_by
any_in_filter p [] = tt
any_in_filter p (x ∷ rows) = (
  λ t. ground (arith, t),
  All-impl (λ r. p r ≡ true → any_where (λ (s : Session). s.id == r.id) (filter_by p rows) ≡ true)
      (λ r. p r ≡ true → any_where (λ (s : Session). s.id == r.id) (filter_by p (x ∷ rows)) ≡ true)
      (λ r h t. ground (arith, h t)) rows (any_in_filter p rows),
)

-- An update of every counted row, out of the count, leaves none.
count_where-update_every :
    (q p : Session → Bool) (g : Session → Session)
    → ((s : Session) → q (g s) ≡ false)
    → (rows : List Session) → All (λ r. q r ≡ true → p r ≡ true) rows
    → count_where q (update_where p g rows) ≡ 0
unfolding count_where update_where
count_where-update_every q p g gone [] h = refl
count_where-update_every q p g gone (x ∷ rows) h =
    ground (arith, gone x, h.0, count_where-update_every q p g gone rows h.1)

pub revoke_family-none_open :
    (family : String) (reason : Reason) (now : ℕ) (db : Db)
    → open_in family (revoke_family family reason now db).1 ≡ 0
unfolding revoke_family revoke_rows is_revocable as_revoked is_unrevoked
revoke_family-none_open family reason now db =
    let mine = λ (s : Session). str_eq s.family_id family in
    count_where-update_every (is_open_in family) (is_revocable (filter_by mine db.sessions))
      (as_revoked now reason) (λ s. ground arith) db.sessions
      (All-impl
        (λ r.
          mine r ≡ true
          → any_where (λ (s : Session). s.id == r.id) (filter_by mine db.sessions) ≡ true)
        (λ r. is_open_in family r ≡ true → is_revocable (filter_by mine db.sessions) r ≡ true)
        (λ r h t. ground (arith, h, t)) db.sessions (any_in_filter mine db.sessions))

module _ (lib : Jwt) (cfg : Config) (token public_id : String) (client : Client) (now : ℕ) (db : Db)
    (c : Claims) (raw_jti : String) (session : Session) (user : User) (at : ℕ) where
  -- A verified refresh token whose session is already revoked, when the grace window does not give
  -- out its successor: the refresh fails as a reuse, and what it commits leaves no session of the
  -- whole family unrevoked.
  pub rotate_reuse :
      decode lib cfg token "refresh" ≡ ok c
      → c.jti ≡ some raw_jti
      → is_empty raw_jti ≡ false
      → session_with_user (cfg.hash raw_jti) db ≡ some (session, user)
      → session.revoked_at ≡ some at
      → grace_reissue cfg session raw_jti at now db ≡ none
      → ((rotate lib cfg token public_id client now db).0 ≡ err TokenError.reuse_detected)
        × (open_in session.family_id (rotate lib cfg token public_id client now db).1 ≡ 0)
  unfolding rotate exchange
  rotate_reuse decoded named filled found revoked theft = (
    rw (rotate, exchange, decoded, named, filled, found, revoked, theft) refl,
    rw (rotate, exchange, decoded, named, filled, found, revoked, theft)
        (revoke_family-none_open session.family_id Reason.reuse_detected now db),
  )
