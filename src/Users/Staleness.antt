-- ===== src/Users/Staleness.antt =====
-- Liveness after a revocation: _revoke_rows and session_is_live of backend/users/tokens.py, with the
-- readers that had read the row before the commit and put their answers into the cache after it.
use django_base_x.Prelude.{
  ℕ, ◌≤◌, ltb, ◌≡◌, refl, sym, ◌∙◌, subst, String, true, false, ◌&&◌, ◌++◌, none, some, List, [],
  ◌∷◌, arith, inl, inr, str_eq, ◌==◌, Bool-cases, Option-cases, any_where, update_where,
  first_where, filter_by, All, All-impl, All-append, All-update_where_on, first_where-some, eq_iff,
}
use django_base_x.Users.Session.{Reason, Session, User, Live, Db, Config, is_unrevoked}
use django_base_x.Users.Revoke.{
  as_revoked, forget, is_revocable, revoke_rows, is_cached, session_is_live,
}

-- The cached answers for the session lapse by the limit.
abbrev pub Lapses : String → ℕ → Live → Type 0
Lapses sid limit e = str_eq e.sid sid ≡ true → e.until ≤ limit

-- The rows of the session are revoked.
abbrev pub IsClosed : String → Session → Type 0
IsClosed sid r = str_eq r.public_id sid ≡ true → is_unrevoked r ≡ false

forget-Lapses :
    (sessions : List Session) (cache : List Live) (sid : String) (limit : ℕ)
    → any_where (λ (s : Session). str_eq s.public_id sid) sessions ≡ true
    → All (Lapses sid limit) (forget sessions cache)
unfolding forget filter_by
forget-Lapses sessions [] sid limit mine = tt
forget-Lapses sessions (e ∷ cache) sid limit mine =
    let rest = forget-Lapses sessions cache sid limit mine in
    elim (Bool-cases (any_where (λ (s : Session). str_eq s.public_id e.sid) sessions)) [
      | inl gone ↦ rw gone rest
      | inr kept ↦ rw kept (
        λ t.
            let same : e.sid ≡ sid = (eq_iff e.sid sid).0 t in
            let gone : any_where (λ (s : Session). str_eq s.public_id e.sid) sessions ≡ true =
              subst (λ x. any_where (λ (s : Session). str_eq s.public_id x) sessions ≡ true)
                (sym same) mine in
            absurd (ground (arith, gone, kept)),
        rest,
      )
    ]

revoked_closed :
    (sessions : List Session) (reason : Reason) (now : ℕ) (sid : String) (rows : List Session)
    → All
        (λ r.
          str_eq r.public_id sid ≡ true → any_where (λ (s : Session). s.id == r.id) sessions ≡ true)
        rows
    → All
        (λ r. str_eq r.public_id sid ≡ true → is_unrevoked r ≡ false)
        (update_where (is_revocable sessions) (as_revoked now reason) rows)
unfolding is_revocable as_revoked is_unrevoked
revoked_closed sessions reason now sid rows all =
    let Q = λ (r : Session). str_eq r.public_id sid ≡ true → is_unrevoked r ≡ false in
    All-update_where_on Q (is_revocable sessions) (as_revoked now reason) rows (
      All-impl
        (λ r.
          str_eq r.public_id sid ≡ true → any_where (λ (s : Session). s.id == r.id) sessions ≡ true)
        (λ r.
          (is_revocable sessions r ≡ true → Q (as_revoked now reason r))
          × (is_revocable sessions r ≡ false → Q r))
        (λ r mine. (λ t _. refl, λ f this. ground (arith, f, mine this))) rows all)

module _ (sid : String) (limit : ℕ) where
  IsStale : Db → Type 0
  IsStale db = All (IsClosed sid) db.sessions × All (Lapses sid limit) db.cache

  nothing_cached :
      (later : ℕ)
      → limit ≤ later
      → (cache : List Live) → All (Lapses sid limit) cache
      → first_where (is_cached sid later) cache ≡ none
  unfolding first_where is_cached
  nothing_cached later le [] all = refl
  nothing_cached later le (e ∷ cache) all = elim (Bool-cases (str_eq e.sid sid)) [
    | inl t ↦ ground (arith, t, all.0 t, nothing_cached later le cache all.1)
    | inr t ↦ ground (arith, t, nothing_cached later le cache all.1)
  ]

  -- The part of session_is_live that asks the database.
  found-closed :
      (user : User) (rows : List Session) (row : Session)
      → All (IsClosed sid) rows
      → first_where (λ s. str_eq s.public_id sid && s.user == user.id) rows ≡ some row
      → row.revoked_at ≡ none
      → ⊥
  unfolding is_unrevoked
  found-closed user rows row closed found still =
      let (revoked, this) =
        first_where-some (IsClosed sid)
          (λ (s : Session). str_eq s.public_id sid && s.user == user.id) rows row closed found in
      ground (arith, revoked, this, still)

  session_is_live-late :
      (cfg : Config) (user : User) (later : ℕ) (db : Db)
      → limit ≤ later
      → IsStale db
      → (session_is_live cfg sid user later db).0 ≡ false
  unfolding session_is_live IsStale
  session_is_live-late cfg user later db le (closed, lapsing) =
      let gone = nothing_cached later le db.cache lapsing in
      elim (Option-cases
        (first_where (λ (s : Session). str_eq s.public_id sid && s.user == user.id) db.sessions)) [
          | inl missing ↦ rw (session_is_live, gone, missing) refl
          | inr (row, found) ↦ elim (Option-cases row.revoked_at) [
            | inl still ↦ absurd (found-closed user db.sessions row closed found still)
            | inr (at, past) ↦ rw (session_is_live, gone, found, past) refl
          ]
        ]

  answered-IsStale :
      (cfg : Config) (other : String) (user : User) (now : ℕ) (db : Db) (row : Session)
      → IsStale db
      → first_where (λ s. str_eq s.public_id other && s.user == user.id) db.sessions ≡ some row
      → row.revoked_at ≡ none
      → (answer : Live) → answer.sid ≡ other
      → IsStale (record db { cache = answer ∷ db.cache })
  unfolding IsStale is_unrevoked
  answered-IsStale cfg other user now db row (closed, lapsing) found still answer named =
      let (revoked, this) =
        first_where-some (IsClosed sid)
          (λ (s : Session). str_eq s.public_id other && s.user == user.id) db.sessions row closed
          found in
      (
        closed,
        (
          λ t.
              let same : other ≡ sid = sym named ∙ (eq_iff answer.sid sid).0 t in
              let known : str_eq row.public_id other ≡ true = ground (arith, this) in
              let mine : str_eq row.public_id sid ≡ true =
                subst (λ x. str_eq row.public_id x ≡ true) same known in
              absurd (ground (arith, revoked mine, still)),
          lapsing,
        ),
      )

  session_is_live-IsStale :
      (cfg : Config) (other : String) (user : User) (now : ℕ) (db : Db)
      → IsStale db
      → IsStale (session_is_live cfg other user now db).1
  unfolding session_is_live
  session_is_live-IsStale cfg other user now db stale =
      elim (Option-cases (first_where (is_cached other now) db.cache)) [
        | inr (state, c) ↦ rw (session_is_live, c) stale
        | inl c ↦
            elim (Option-cases (
              first_where (λ (s : Session). str_eq s.public_id other && s.user == user.id)
                db.sessions)) [
                  | inl missing ↦ rw (session_is_live, c, missing) stale
                  | inr (row, found) ↦ elim (Option-cases row.revoked_at) [
                    | inr (at, past) ↦ rw (session_is_live, c, found, past) stale
                    | inl still ↦ elim (Bool-cases (ltb 0 cfg.liveness_cache_ttl)) [
                      | inr off ↦ rw (session_is_live, c, found, still, off) stale
                      | inl on ↦
                          rw (session_is_live, c, found, still, on)
                            (answered-IsStale cfg other user now db row stale found still _ refl)
                    ]
                  ]
                ]
      ]

-- Requests, each of which asks for a session, by its user, at an instant.
unfoldable pub reads : Config → List (String × User × ℕ) → Db → Db
reads cfg [] db = db
reads cfg ((sid, user, now) ∷ requests) db =
    reads cfg requests (session_is_live cfg sid user now db).1

reads-IsStale :
    (sid : String) (limit : ℕ) (cfg : Config) (requests : List (String × User × ℕ)) (db : Db)
    → IsStale sid limit db
    → IsStale sid limit (reads cfg requests db)
unfolding reads
reads-IsStale sid limit cfg [] db stale = stale
reads-IsStale sid limit cfg ((other, user, now) ∷ requests) db stale =
    reads-IsStale sid limit cfg requests (session_is_live cfg other user now db).1
      (session_is_live-IsStale sid limit cfg other user now db stale)

-- The answers that readers of the old rows put into the cache after its delete.
unfoldable pub put_back : List Live → Db → Db
put_back raced db = record db { cache = raced ++ db.cache }

-- A revocation takes effect for good by the time at which the answers that racing readers put back
-- lapse, and at once where there are none: when every row with the sid is among the revoked ones,
-- whatever the cache held before, and whatever requests ask in between, for this session or for
-- another, from then on the session is not live for anyone. No request renews a cached answer.
pub revoke_rows-not_live :
    (cfg : Config) (sessions : List Session) (reason : Reason) (now limit later : ℕ) (db : Db)
    (sid : String) (user : User) (raced : List Live) (requests : List (String × User × ℕ))
    → any_where (λ (s : Session). str_eq s.public_id sid) sessions ≡ true
    → All
        (λ r.
          str_eq r.public_id sid ≡ true → any_where (λ (s : Session). s.id == r.id) sessions ≡ true)
        db.sessions
    → All (Lapses sid limit) raced
    → limit ≤ later
    → (session_is_live cfg sid user later
        (reads cfg requests (put_back raced (revoke_rows sessions reason now db).1))).0
      ≡ false
unfolding revoke_rows put_back IsStale
revoke_rows-not_live cfg sessions reason now limit later db sid user raced requests mine all lapsing
      le =
    session_is_live-late sid limit cfg user later
      (reads cfg requests (put_back raced (revoke_rows sessions reason now db).1)) le
      (reads-IsStale sid limit cfg requests (put_back raced (revoke_rows sessions reason now db).1)
        (
          revoked_closed sessions reason now sid db.sessions all,
          All-append (Lapses sid limit) raced (forget sessions db.cache) lapsing
              (forget-Lapses sessions db.cache sid limit mine),
        ))
