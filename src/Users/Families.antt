-- ===== src/Users/Families.antt =====
-- The open sessions of a family of refresh tokens (backend/users/tokens.py).
use django_base_x.Prelude.{
  ℕ, ◌+◌, ◌≤◌, ◌<◌, ◌≡◌, refl, ap, ◌∙◌, subst, String, Bool, true, false, ◌&&◌, none, some, List,
  [], ◌∷◌, ◌++◌, arith, inl, inr, str_eq, ◌==◌, eq_iff, Bool-cases, Option-cases, any_where,
  count_where, update_where, first_where, count_where-update_where_le, count_where-append,
}
use django_base_x.Prelude.Result.{ok, Result-cases}
use django_base_x.Users.Session.{
  Reason, Session, User, Db, Config, Client, is_unrevoked, session_with_user,
}
use django_base_x.Users.Revoke.{as_revoked, is_revocable, revoke_rows}
use django_base_x.Users.Rotate.{create, as_rotated, successor_of, rotate_row}

-- The sessions of a family that are not revoked.
abbrev pub is_open_in : String → Session → Bool
is_open_in family s = str_eq s.family_id family && is_unrevoked s

abbrev pub open_in : String → Db → ℕ
open_in family db = count_where (is_open_in family) db.sessions

pub record OneOpen (db : Db) : Type 0 where
  pub at_most_one : (family : String) → open_in family db ≤ 1

as_revoked_closed :
    (now : ℕ) (reason : Reason) (family : String) (s : Session)
    → is_open_in family (as_revoked now reason s) ≡ false
unfolding as_revoked is_unrevoked
as_revoked_closed now reason family s = ground arith

as_rotated_closed :
    (now : ℕ) (jti family : String) (s : Session) → is_open_in family (as_rotated now jti s) ≡ false
unfolding as_rotated is_unrevoked
as_rotated_closed now jti family s = ground arith

pub revoke_rows-OneOpen :
    (sessions : List Session) (reason : Reason) (now : ℕ) (db : Db)
    → OneOpen db
    → OneOpen (revoke_rows sessions reason now db).1
unfolding revoke_rows
revoke_rows-OneOpen sessions reason now db h = record {
  at_most_one = λ f. omega (
    arith,
    h.at_most_one f,
    count_where-update_where_le (is_open_in f) (is_revocable sessions) (as_revoked now reason)
        (λ s. as_revoked_closed now reason f s) db.sessions,
  );
}

-- An update that takes a counted row out of the count lowers it.
pub count_where-update_where_lt :
    (q p : Session → Bool) (g : Session → Session)
    → ((s : Session) → q (g s) ≡ false)
    → (rows : List Session) → any_where (λ s. p s && q s) rows ≡ true
    → count_where q (update_where p g rows) < count_where q rows
unfolding any_where count_where update_where
count_where-update_where_lt q p g gone [] h = absurd (cc)
count_where-update_where_lt q p g gone (x ∷ rows) h = ground (
  arith,
  gone x,
  count_where-update_where_lt q p g gone rows,
  count_where-update_where_le q p g gone rows,
)

pub first_where-any :
    (p r : Session → Bool) (rows : List Session) (s : Session)
    → first_where p rows ≡ some s
    → r s ≡ true
    → any_where r rows ≡ true
unfolding first_where any_where
first_where-any p r [] s e h = absurd (cc)
first_where-any p r (x ∷ rows) s e h = elim (Bool-cases (p x)) [
  | inl t ↦
      let same : s ≡ x = ground (arith, e, t) in ground (arith, subst (λ y. r y ≡ true) same h)
  | inr f ↦ ground (arith, first_where-any p r rows s (ground (arith, e, f)) h)
]

any_where-append :
    (r : Session → Bool) (xs ys : List Session)
    → any_where r xs ≡ true
    → any_where r (xs ++ ys) ≡ true
unfolding any_where
any_where-append r [] ys h = absurd (cc)
any_where-append r (x ∷ xs) ys h = ground (arith, any_where-append r xs ys)

pub session_with_user-first :
    (jti : String) (db : Db) (s : Session) (u : User)
    → session_with_user jti db ≡ some (s, u)
    → first_where (λ x. str_eq x.jti jti) db.sessions ≡ some s
unfolding session_with_user
session_with_user-first jti db s u e =
    elim (Option-cases (first_where (λ x. str_eq x.jti jti) db.sessions)) [
      | inl missing ↦ absurd (ground (arith, e, missing))
      | inr (x, found) ↦ elim (Option-cases (first_where (λ v. v.id == x.user) db.users)) [
        | inl missing ↦ absurd (ground (arith, e, found, missing))
        | inr (v, user) ↦
            let same : x ≡ s = ground (arith, e, found, user) in found ∙ ap (λ y. some y) same
      ]
    ]

pub open_itself :
    (s : Session) → s.revoked_at ≡ none → ((s.id == s.id) && is_open_in s.family_id s) ≡ true
unfolding is_unrevoked
open_itself s h = ground (arith, eq_iff s.family_id s.family_id)

pub create-ok :
    (row : Session) (db db' : Db)
    → create row db ≡ ok db'
    → db' ≡ record db { sessions = db.sessions ++ (row ∷ []); next_id = db.next_id + 1 }
unfolding create
create-ok row db db' e = ground (arith, e)

module _ (cfg : Config) (public_id : String) (client : Client) (now : ℕ) (db : Db)
    (h : OneOpen db) where
  module _ (session : Session) (raw_jti : String) (live : session.revoked_at ≡ none)
      (found : any_where (λ s. (s.id == session.id) && is_open_in session.family_id s) db.sessions
        ≡ true) where
    swapped :
        (successor : Session)
        → successor.family_id ≡ session.family_id
        → (family : String)
        → count_where (is_open_in family) (
            update_where
              (λ s. s.id == session.id)
              (as_rotated now successor.jti)
              (db.sessions ++ (successor ∷ [])))
          ≤ 1
    unfolding count_where
    swapped successor same family =
        let rows = db.sessions ++ (successor ∷ []) in
        let p = λ (s : Session). s.id == session.id in
        let g = as_rotated now successor.jti in
        let most = h.at_most_one family in
        let total = count_where-append (is_open_in family) db.sessions (successor ∷ []) in
        elim (Bool-cases (str_eq session.family_id family)) [
          | inl t ↦
              let here : session.family_id ≡ family = (eq_iff session.family_id family).0 t in
              let fewer =
                count_where-update_where_lt (is_open_in family) p g
                  (λ s. as_rotated_closed now successor.jti family s) rows
                  (any_where-append (λ s. p s && is_open_in family s) db.sessions (successor ∷ [])
                    (subst (λ f. any_where (λ s. p s && is_open_in f s) db.sessions ≡ true) here
                      found)) in
              ground (arith, fewer, total, most)
          | inr f ↦
              let fewer =
                count_where-update_where_le (is_open_in family) p g
                  (λ s. as_rotated_closed now successor.jti family s) rows in
              let elsewhere : str_eq successor.family_id family ≡ false = rw same f in
              ground (arith, fewer, total, most, elsewhere)
        ]

    pub rotate_row-OneOpen : OneOpen (rotate_row cfg public_id session raw_jti client now db).1
    unfolding rotate_row
    rotate_row-OneOpen =
        let new_raw = cfg.successor cfg.signing_key raw_jti in
        let successor = successor_of cfg public_id new_raw session client now db.next_id in
        elim (Result-cases (create successor db)) [
          | inr (e, bad) ↦ rw (rotate_row, bad) h
          | inl (db', made) ↦
              rw (rotate_row, made, create-ok successor db db' made)
                (record { at_most_one = swapped successor (unfold successor_of in refl) })
        ]
