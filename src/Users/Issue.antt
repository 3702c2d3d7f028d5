-- ===== src/Users/Issue.antt =====
-- issue_pair and _enforce_session_cap of backend/users/tokens.py.
use django_base_x.Prelude.{
  ℕ, ◌+◌, String, Bool, ◌&&◌, ◌||◌, none, List, [], ◌∷◌, ltb, drop, slice_to, ◌==◌, filter_by,
  if◌then◌else◌,
}
use django_base_x.Prelude.Result.{Result, ok, ◌>>=◌}
use django_base_x.Users.Session.{Reason, Session, Db, Config, Client, Issued, is_live}
use django_base_x.Users.Keys.{TokenError}
use django_base_x.Users.Revoke.{revoke_rows}
use django_base_x.Users.Rotate.{create}

-- The session of a new login; `public_id`, `family` and `raw_jti` are drawn at random.
unfoldable pub new_session : Config → String → String → String → ℕ → Client → ℕ → ℕ → Session
new_session cfg public_id family raw_jti user client now id = record {
  id = id;
  public_id = public_id;
  user = user;
  jti = cfg.hash raw_jti;
  family_id = family;
  parent_jti = "";
  replaced_by_jti = "";
  issued_at = now;
  expires_at = now + cfg.refresh_lifetime;
  last_seen_at = now;
  password_confirmed_at = none;
  revoked_at = none;
  revoked_reason = Reason.unset;
  ip = client.ip;
  user_agent = slice_to 255 client.user_agent;
  device_label = "";
}

-- order_by("-issued_at", "-pk")
unfoldable pub is_newer : Session → Session → Bool
is_newer a b = ltb b.issued_at a.issued_at || (a.issued_at == b.issued_at && ltb b.id a.id)

unfoldable pub insert_newest : Session → List Session → List Session
insert_newest s [] = s ∷ []
insert_newest s (x ∷ xs) =
    let rest = insert_newest s xs in if is_newer x s then x ∷ rest else s ∷ x ∷ xs

unfoldable pub newest_first : List Session → List Session
unfolding insert_newest
newest_first [] = []
newest_first (x ∷ xs) = insert_newest x (newest_first xs)

unfoldable pub revoke_surplus : ℕ → List Session → Db → Db
revoke_surplus now [] db = db
revoke_surplus now (s ∷ surplus) db = (revoke_rows (s ∷ surplus) Reason.expired now db).1

unfoldable pub enforce_session_cap : Config → ℕ → ℕ → Db → Db
unfolding is_live revoke_surplus
enforce_session_cap cfg user now db =
    let live =
      newest_first (filter_by (λ (s : Session). s.user == user && is_live now s) db.sessions) in
    revoke_surplus now (drop cfg.max_sessions live) db

unfoldable pub issue_pair :
    Config → String → String → String → ℕ → Client → ℕ → Db → Result TokenError (Issued × Db)
unfolding new_session enforce_session_cap
issue_pair cfg public_id family raw_jti user client now db = do
  let session = new_session cfg public_id family raw_jti user client now db.next_id
  db' ← create session db
  ok (record { session = session; jti = raw_jti; at = now }, enforce_session_cap cfg user now db')
