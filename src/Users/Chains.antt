-- ===== src/Users/Chains.antt =====
-- Runs of logins, refreshes and revocations (backend/users/tokens.py).
use django_base_x.Prelude.{
  ℕ, ◌+◌, ◌≡◌, sym, subst, String, false, not, List, [], ◌∷◌, ◌++◌, arith, inl, inr, str_eq, eq_iff,
  Bool-cases, Option-cases, any_where, count_where, count_where-append, any_where-count_where,
  count_where-impl, is_empty,
}
use django_base_x.Prelude.Result.{ok, Result-cases, >>=-eq-ok}
use django_base_x.Users.Session.{
  Reason, Session, User, Db, Config, Client, Issued, session_with_user,
}
use django_base_x.Users.Keys.{Jwt, decode}
use django_base_x.Users.Revoke.{revoke_rows, revoke_family}
use django_base_x.Users.Rotate.{create, grace_reissue, is_idle, predates, exchange, rotate}
use django_base_x.Users.Issue.{new_session, enforce_session_cap, revoke_surplus, issue_pair}
use django_base_x.Users.Families.{
  OneOpen, is_open_in, revoke_rows-OneOpen, rotate_row-OneOpen, first_where-any, open_itself,
  create-ok, session_with_user-first,
}

module _ (cfg : Config) (public_id : String) (client : Client) (now : ℕ) (db : Db)
    (h : OneOpen db) where
  exchange-OneOpen : (raw_jti : String) → OneOpen (exchange cfg public_id raw_jti client now db).1
  unfolding exchange revoke_family
  exchange-OneOpen raw_jti = elim (Option-cases (session_with_user (cfg.hash raw_jti) db)) [
    | inl missing ↦ rw (exchange, missing) h
    | inr ((session, user), found) ↦ elim (Option-cases session.revoked_at) [
      | inr (at, revoked) ↦ elim (Option-cases (grace_reissue cfg session raw_jti at now db)) [
        | inr (issued, again) ↦ rw (exchange, found, revoked, again) h
        | inl theft ↦
            rw (exchange, found, revoked, theft)
              (revoke_rows-OneOpen _ Reason.reuse_detected now db h)
      ]
      | inl live ↦ elim (Bool-cases (is_idle cfg session now)) [
        | inl idle ↦
            rw (exchange, found, live, idle)
              (revoke_rows-OneOpen (session ∷ []) Reason.expired now db h)
        | inr fresh ↦ elim (Bool-cases (not user.is_active)) [
          | inl inactive ↦ rw (exchange, found, live, fresh, inactive) h
          | inr active ↦ elim (Bool-cases (predates session user)) [
            | inl old ↦ rw (exchange, found, live, fresh, active, old) h
            | inr new ↦
                rw (exchange, found, live, fresh, active, new)
                  (rotate_row-OneOpen cfg public_id client now db h session raw_jti live (
                    first_where-any _ _ db.sessions session
                      (session_with_user-first (cfg.hash raw_jti) db session user found)
                      (open_itself session live)))
          ]
        ]
      ]
    ]
  ]

  rotate-OneOpen :
      (lib : Jwt) (token : String) → OneOpen (rotate lib cfg token public_id client now db).1
  unfolding rotate
  rotate-OneOpen lib token = elim (Result-cases (decode lib cfg token "refresh")) [
    | inr (e, bad) ↦ rw (rotate, bad) h
    | inl (c, decoded) ↦ elim (Option-cases c.jti) [
      | inl missing ↦ rw (rotate, decoded, missing) h
      | inr (raw_jti, given) ↦ elim (Bool-cases (is_empty raw_jti)) [
        | inl empty ↦ rw (rotate, decoded, given, empty) h
        | inr named ↦ rw (rotate, decoded, given, named) (exchange-OneOpen raw_jti)
      ]
    ]
  ]

  revoke_surplus-OneOpen : (surplus : List Session) → OneOpen (revoke_surplus now surplus db)
  unfolding revoke_surplus
  revoke_surplus-OneOpen [] = h
  revoke_surplus-OneOpen (s ∷ surplus) = revoke_rows-OneOpen (s ∷ surplus) Reason.expired now db h

-- A new family: no session of it yet; `issue_pair` draws a random UUID.
abbrev pub NewFamily : String → Db → Type 0
NewFamily family db = any_where (λ (s : Session). str_eq s.family_id family) db.sessions ≡ false

created-OneOpen :
    (row : Session) (db : Db)
    → NewFamily row.family_id db
    → OneOpen db
    → OneOpen (record db { sessions = db.sessions ++ (row ∷ []); next_id = db.next_id + 1 })
unfolding count_where
created-OneOpen row db new h = record {
  at_most_one = λ family.
      let total = count_where-append (is_open_in family) db.sessions (row ∷ []) in
      elim (Bool-cases (str_eq row.family_id family)) [
        | inr f ↦ ground (arith, total, h.at_most_one family, f)
        | inl t ↦
            let here : row.family_id ≡ family = (eq_iff row.family_id family).0 t in
            let nobody =
              any_where-count_where (λ (s : Session). str_eq s.family_id family) db.sessions
                (subst (λ f. NewFamily f db) here new) in
            let fewer =
              count_where-impl (is_open_in family) (λ (s : Session). str_eq s.family_id family)
                (λ s o. ground (arith, o)) db.sessions in
            ground (arith, total, nobody, fewer)
      ];
}

issue_pair-OneOpen :
    (cfg : Config) (public_id family raw_jti : String) (user : ℕ) (client : Client) (now : ℕ)
    (db db' : Db) (i : Issued)
    → NewFamily family db
    → OneOpen db
    → issue_pair cfg public_id family raw_jti user client now db ≡ ok (i, db')
    → OneOpen db'
unfolding issue_pair new_session enforce_session_cap
issue_pair-OneOpen cfg public_id family raw_jti user client now db db' i new h e =
    let row = new_session cfg public_id family raw_jti user client now db.next_id in
    let (made, created, done) = >>=-eq-ok (create row db) _ e in
    let grown : OneOpen made =
      subst OneOpen (sym (create-ok row db made created)) (created-OneOpen row db new h) in
    let same : enforce_session_cap cfg user now made ≡ db' = ground (arith, done) in
    subst OneOpen same (revoke_surplus-OneOpen cfg public_id client now made grown _)

-- What the code does to the sessions: a login, a refresh, a revocation, a question of liveness. Each
-- runs under a lock on its row or as one statement, so any order of them is a sequence of steps.
pub data Step (cfg : Config) (lib : Jwt) (s t : Db) : Type 0 where
  logged_in :
      (public_id family raw_jti : String) (user : ℕ) (client : Client) (now : ℕ) (i : Issued)
      → NewFamily family s
      → issue_pair cfg public_id family raw_jti user client now s ≡ ok (i, t)
      → Step cfg lib s t
  refreshed :
      (token public_id : String) (client : Client) (now : ℕ)
      → t ≡ (rotate lib cfg token public_id client now s).1
      → Step cfg lib s t
  revoked :
      (sessions : List Session) (reason : Reason) (now : ℕ)
      → t ≡ (revoke_rows sessions reason now s).1
      → Step cfg lib s t

pub data Reach (cfg : Config) (lib : Jwt) : Db → Type 0 where
  start :
      (users : List User)
      → Reach cfg lib (record { sessions = []; next_id = 1; users = users; cache = [] })
  next : {s t : Db} → Reach cfg lib s → Step cfg lib s t → Reach cfg lib t

-- Whatever logins, refreshes (those refused for reuse or expiry too) and revocations are made, in
-- any order: no family ever has two sessions that are not revoked. A login draws a new family.
pub Reach-OneOpen : (cfg : Config) (lib : Jwt) (db : Db) → Reach cfg lib db → OneOpen db
unfolding count_where
Reach-OneOpen cfg lib db (start users) = record { at_most_one = λ f. omega arith }
Reach-OneOpen cfg lib db
      (next {s = s} r (logged_in public_id family raw_jti user client now i new e)) =
    issue_pair-OneOpen cfg public_id family raw_jti user client now s db i new
      (Reach-OneOpen cfg lib s r) e
Reach-OneOpen cfg lib db (next {s = s} r (refreshed token public_id client now e)) =
    rw e (rotate-OneOpen cfg public_id client now s (Reach-OneOpen cfg lib s r) lib token)
Reach-OneOpen cfg lib db (next {s = s} r (revoked sessions reason now e)) =
    rw e (revoke_rows-OneOpen sessions reason now s (Reach-OneOpen cfg lib s r))
