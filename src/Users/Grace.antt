-- ===== src/Users/Grace.antt =====
-- Two tabs that refresh with one token (_grace_reissue of backend/users/tokens.py).
use django_base_x.Prelude.{
  ℕ, ◌+◌, ◌≤◌, ◌<◌, ◌≡◌, refl, sym, ap, ◌∙◌, subst, subst₂, String, Bool, true, false, none, some,
  List, [], ◌∷◌, ◌++◌, arith, inl, inr, str_eq, ◌==◌, eq_iff, Bool-cases, Option-cases, any_where,
  update_where, first_where,
}
use django_base_x.Prelude.Result.{ok, Result-cases}
use django_base_x.Users.Session.{
  Session, User, Db, Config, Client, Issued, is_live, is_unrevoked, session_with_user,
  verifying_keys,
}
use django_base_x.Users.Revoke.{forget}
use django_base_x.Users.Rotate.{
  create, as_rotated, successor_of, rotate_row, successor_raw, live_successor, grace_reissue,
  is_idle, predates, exchange,
}
use django_base_x.Users.Families.{create-ok, session_with_user-first}

-- What a lookup by jti returns after an update that keeps every jti, and after an append.
first_where-update_where :
    (p q : Session → Bool) (g : Session → Session)
    → ((s : Session) → p (g s) ≡ p s)
    → (rows : List Session) (s : Session) → first_where p rows ≡ some s
    → q s ≡ true
    → first_where p (update_where q g rows) ≡ some (g s)
unfolding first_where update_where
first_where-update_where p q g keeps [] s e t = absurd (cc)
first_where-update_where p q g keeps (x ∷ rows) s e t = elim (Bool-cases (p x)) [
  | inl here ↦
      let same : s ≡ x = ground (arith, e, here) in
      let changed : q x ≡ true = subst (λ y. q y ≡ true) same t in
      ground (arith, changed, keeps x, here, same)
  | inr on ↦
      let next = first_where-update_where p q g keeps rows s (ground (arith, e, on)) t in
      elim (Bool-cases (q x)) [
        | inl a ↦ ground (arith, next, keeps x, on, a)
        | inr b ↦ ground (arith, next, on, b)
      ]
]

first_where-append :
    (p : Session → Bool) (rows : List Session) (s last : Session)
    → first_where p rows ≡ some s
    → first_where p (rows ++ (last ∷ [])) ≡ some s
unfolding first_where
first_where-append p [] s last e = absurd (cc)
first_where-append p (x ∷ rows) s last e = elim (Bool-cases (p x)) [
  | inl here ↦ ground (arith, e, here)
  | inr on ↦ ground (arith, on, first_where-append p rows s last (ground (arith, e, on)))
]

-- A lookup that no earlier row answers finds the row that was appended.
first_where-last :
    (p q : Session → Bool) (g : Session → Session)
    → ((s : Session) → p (g s) ≡ p s)
    → (rows : List Session) (last : Session) → any_where p rows ≡ false
    → p last ≡ true
    → q last ≡ false
    → first_where p (update_where q g (rows ++ (last ∷ []))) ≡ some last
unfolding first_where any_where update_where
first_where-last p q g keeps [] last none_before here kept = ground (arith, here, kept)
first_where-last p q g keeps (x ∷ rows) last none_before here kept =
    let next = first_where-last p q g keeps rows last (ground (arith, none_before)) here kept in
    elim (Bool-cases (q x)) [
      | inl a ↦ ground (arith, next, keeps x, none_before, a)
      | inr b ↦ ground (arith, next, none_before, b)
    ]

create-fresh :
    (row : Session) (db db' : Db)
    → create row db ≡ ok db'
    → any_where (λ s. str_eq s.jti row.jti) db.sessions ≡ false
unfolding create
create-fresh row db db' e = ground (arith, e)

session_with_user-user :
    (jti : String) (db : Db) (s : Session) (u : User)
    → session_with_user jti db ≡ some (s, u)
    → first_where (λ v. v.id == s.user) db.users ≡ some u
unfolding session_with_user
session_with_user-user jti db s u e =
    elim (Option-cases (first_where (λ x. str_eq x.jti jti) db.sessions)) [
      | inl missing ↦ absurd (ground (arith, e, missing))
      | inr (x, found) ↦ elim (Option-cases (first_where (λ v. v.id == x.user) db.users)) [
        | inl missing ↦ absurd (ground (arith, e, found, missing))
        | inr (v, user) ↦
            let same : x ≡ s = ground (arith, e, found, user) in
            let who : v ≡ u = ground (arith, e, found, user) in
            subst (λ y. first_where (λ w. w.id == y.user) db.users ≡ some u) same
              (user ∙ ap (λ y. some y) who)
      ]
    ]

module _ (cfg : Config) (public_id raw_jti : String) (client : Client) (now : ℕ) (db : Db)
    (session : Session) (user : User) where
  abbrev pub new_raw : String
  new_raw = cfg.successor cfg.signing_key raw_jti

  abbrev pub next_session : Session
  next_session = successor_of cfg public_id new_raw session client now db.next_id

  abbrev pub rotated_db : Db
  rotated_db = record db {
    sessions =
        update_where (λ (s : Session). s.id == session.id) (as_rotated now next_session.jti)
          (db.sessions ++ (next_session ∷ []));
    next_id = db.next_id + 1;
    cache = forget (session ∷ []) db.cache;
  }

  -- What a refresh that succeeds on a live session has done.
  exchange-rotated :
      (i : Issued) (db' : Db)
      → session_with_user (cfg.hash raw_jti) db ≡ some (session, user)
      → session.revoked_at ≡ none
      → exchange cfg public_id raw_jti client now db ≡ (ok i, db')
      → (user.is_active ≡ true)
        × (any_where (λ s. str_eq s.jti next_session.jti) db.sessions ≡ false)
        × (i ≡ record { session = next_session; jti = new_raw; at = now })
        × (db' ≡ rotated_db)
  unfolding exchange rotate_row
  exchange-rotated i db' found live e = elim (Bool-cases (is_idle cfg session now)) [
    | inl idle ↦ absurd (ground (arith, e, found, live, idle))
    | inr fresh ↦ elim (Bool-cases user.is_active) [
      | inr inactive ↦ absurd (ground (arith, e, found, live, fresh, inactive))
      | inl active ↦ elim (Bool-cases (predates session user)) [
        | inl old ↦ absurd (ground (arith, e, found, live, fresh, active, old))
        | inr new ↦ elim (Result-cases (create next_session db)) [
          | inr (x, bad) ↦ absurd (ground (arith, e, found, live, fresh, active, new, bad))
          | inl (made, created) ↦
              let grown = create-ok next_session db made created in
              (
                active,
                create-fresh next_session db made created,
                ground (arith, e, found, live, fresh, active, new, created),
                ground (arith, e, found, live, fresh, active, new, created, grown),
              )
        ]
      ]
    ]
  ]

  keeps_jti :
      (jti other : String) (s : Session)
      → str_eq (as_rotated now other s).jti jti ≡ str_eq s.jti jti
  unfolding as_rotated
  keeps_jti jti other s = refl

  old_again :
      session_with_user (cfg.hash raw_jti) db ≡ some (session, user)
      → session_with_user (cfg.hash raw_jti) rotated_db
        ≡ some (as_rotated now next_session.jti session, user)
  unfolding session_with_user as_rotated
  old_again found =
      let first =
        first_where-append _ db.sessions session next_session
          (session_with_user-first (cfg.hash raw_jti) db session user found) in
      let row =
        first_where-update_where (λ s. str_eq s.jti (cfg.hash raw_jti)) (λ s. s.id == session.id)
          (as_rotated now next_session.jti) (λ s. refl) (db.sessions ++ (next_session ∷ [])) session
          first (ground arith) in
      let who = session_with_user-user (cfg.hash raw_jti) db session user found in
      ground (arith, row, who)

  successor_found :
      session_with_user (cfg.hash raw_jti) db ≡ some (session, user)
      → any_where (λ s. str_eq s.jti next_session.jti) db.sessions ≡ false
      → session.id < db.next_id
      → session_with_user next_session.jti rotated_db ≡ some (next_session, user)
  unfolding session_with_user as_rotated successor_of
  successor_found found unused below =
      let row =
        first_where-last (λ s. str_eq s.jti next_session.jti) (λ s. s.id == session.id)
          (as_rotated now next_session.jti) (λ s. refl) db.sessions next_session unused
          ((eq_iff next_session.jti next_session.jti).1 refl) (ground arith) in
      let who = session_with_user-user (cfg.hash raw_jti) db session user found in
      ground (arith, row, who)

  reissued :
      (later : ℕ)
      → user.is_active ≡ true
      → any_where (λ s. str_eq s.jti next_session.jti) db.sessions ≡ false
      → session_with_user (cfg.hash raw_jti) db ≡ some (session, user)
      → session.id < db.next_id
      → later ≤ now + cfg.rotation_grace
      → later < session.expires_at
      → grace_reissue cfg (as_rotated now next_session.jti session) raw_jti now later rotated_db
        ≡ some (record { session = next_session; jti = new_raw; at = later })
  unfolding grace_reissue successor_raw live_successor as_rotated first_where verifying_keys is_live
      is_unrevoked successor_of
  reissued later active unused found below window early =
      let row = successor_found found unused below in
      let derived = (eq_iff next_session.jti next_session.jti).1 refl in
      ground (arith, row, derived)

  handed_out :
      (public_id' : String) (client' : Client) (later : ℕ)
      → session_with_user (cfg.hash raw_jti) db ≡ some (session, user)
      → grace_reissue cfg (as_rotated now next_session.jti session) raw_jti now later rotated_db
        ≡ some (record { session = next_session; jti = new_raw; at = later })
      → exchange cfg public_id' raw_jti client' later rotated_db
        ≡ (ok (record { session = next_session; jti = new_raw; at = later }), rotated_db)
  unfolding exchange as_rotated
  handed_out public_id' client' later found again = ground (arith, old_again found, again)

  -- A live session is refreshed. Within the grace window of that rotation, and before the family's
  -- expiry, presenting the old token again succeeds: it gives out the successor session and its
  -- token as before, and writes nothing.
  pub exchange_twice :
      (i : Issued) (db' : Db) (public_id' : String) (client' : Client) (later : ℕ)
      → session_with_user (cfg.hash raw_jti) db ≡ some (session, user)
      → session.revoked_at ≡ none
      → session.id < db.next_id
      → exchange cfg public_id raw_jti client now db ≡ (ok i, db')
      → later ≤ now + cfg.rotation_grace
      → later < session.expires_at
      → exchange cfg public_id' raw_jti client' later db' ≡ (ok (record i { at = later }), db')
  exchange_twice i db' public_id' client' later found live below e window early =
      let (active, unused, issued, made) = exchange-rotated i db' found live e in
      subst₂
        (λ (x : Issued) (d : Db).
          exchange cfg public_id' raw_jti client' later d ≡ (ok (record x { at = later }), d))
        (sym issued) (sym made)
        (handed_out public_id' client' later found
          (reissued later active unused found below window early))
