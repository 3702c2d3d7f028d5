-- ===== src/Outbox/Preserve/Park.antt =====
-- The recovery sweep (backend/core/outbox/recovery.py), as a transaction of the system.
use django_base_x.Prelude.{
  ℕ, ◌+◌, ◌<◌, ◌≡◌, refl, subst, ◌∙◌, ◌⊎◌, All-always, ap, String, Bool, true, false, ◌&&◌, List,
  Option, none, some, arith, inl, inr, ◌==◌, str_eq, Option-cases, All, All-impl, All-zip,
  All-update_where, first_where, first_where-some, first_where_unique_of,
}
use django_base_x.Prelude.Result.{ok, ok-injective, Result-cases, ◌>>=◌, >>=-eq-ok}
use django_base_x.Findings.{FindingKind, FindingTable}
use django_base_x.Findings.Unique.{IsUnique, raise_or_touch-IsUnique}
use django_base_x.Outbox.Message.{
  Message, Db, Topic, Status, Semantics, at_least_once, at_most_once, is_leased, is_waiting,
  is_stale, row_delay, unknown_kind, failed_kind, object_type,
}
use django_base_x.Outbox.Settle.{open_finding}
use django_base_x.Outbox.Recovery.{
  park, lease_evidence, park_with_finding, save_parked, reconcile_delay, reconcile_unknown,
  reconcile_as, reconcile, recover_one,
}
use django_base_x.Outbox.Invariant.{RowOk, is_sent, park-RowOk, row_delay_left}
use django_base_x.Outbox.Moves.{Good, edge, Moves-refl, Moves-update_where_on}
use django_base_x.Outbox.Sound.{System, Sound, Keeps, updated, unlease-Sound}

Semantics-cases : (x : Semantics) → (x ≡ at_least_once) ⊎ (x ≡ at_most_once)
Semantics-cases at_least_once = inl refl
Semantics-cases at_most_once = inr refl

park-Keeps : (status : Status) (next : ℕ) → Keeps (park status next)
unfolding park
park-Keeps status next = record { id = λ m. refl; key = λ m. refl }

park_status : (status : Status) (next : ℕ) (m : Message) → (park status next m).status ≡ status
unfolding park
park_status status next m = refl

module _ (s : System) (h : Sound s) (row : Message)
    (only : All (λ m. (m.id == row.id) ≡ true → m ≡ row) s.db.rows)
    (was_leased : row.status ≡ Status.leased) where
  abbrev at_row : Message → Bool
  at_row m = m.id == row.id

  parked-Good :
      (status : Status) (next : ℕ) (fs : FindingTable)
      → is_leased status ≡ false
      → is_sent status ≡ false
      → (is_waiting status ≡ true → row.attempts < row.max_attempts)
      → IsUnique fs
      → edge Status.leased status ≡ true
      → Good s (updated s at_row (park status next) fs).db
  parked-Good status next fs a b left u along = record {
    moves = Moves-update_where_on at_row (park status next) s.db.rows (
        All-impl (λ m. at_row m ≡ true → m ≡ row)
          (λ m.
            at_row m ≡ true
            → (m.id ≡ (park status next m).id) × (edge m.status (park status next m).status ≡ true))
          (λ m same t. (
            unfold park in refl,
            rw (park_status status next m, ap (λ (x : Message). x.status) (same t), was_leased)
                along,
          ))
          s.db.rows only);
    sound =
        unlease-Sound s at_row (park status next) fs (park-Keeps status next)
          (λ m _. rw (park_status status next m) a) h u
          (All-impl
            (λ m.
              RowOk m × (at_row m ≡ true → is_waiting status ≡ true → m.attempts < m.max_attempts))
            RowOk (λ m both. both.0) _
            (All-update_where
              (λ m.
                RowOk m
                × (at_row m ≡ true → is_waiting status ≡ true → m.attempts < m.max_attempts))
              at_row (park status next)
              (λ m both t.
                (park-RowOk status next both.0 a b (both.1 t), λ t' w. unfold park in both.1 t w))
              s.db.rows
              (All-zip RowOk
                (λ m. at_row m ≡ true → is_waiting status ≡ true → m.attempts < m.max_attempts)
                s.db.rows h.rows_ok
                (All-impl (λ m. at_row m ≡ true → m ≡ row)
                  (λ m. at_row m ≡ true → is_waiting status ≡ true → m.attempts < m.max_attempts)
                  (λ m same t w. rw (same t) (left w)) s.db.rows only))));
  }

  park_with_finding-Good :
      (kinds : List FindingKind) (kind : String) (status : Status) (now : ℕ) (db' : Db)
      → is_leased status ≡ false
      → is_sent status ≡ false
      → is_waiting status ≡ false
      → edge Status.leased status ≡ true
      → park_with_finding kinds kind row status now s.db ≡ ok db'
      → Good s db'
  unfolding park_with_finding open_finding save_parked
  park_with_finding-Good kinds kind status now db' a b c along e =
      let (fs, opened, made) =
        >>=-eq-ok (open_finding kinds kind row.id (lease_evidence row) now s.db.findings) _ e in
      subst (Good s) (ok-injective made) (
        parked-Good status row.next_attempt_at fs a b (λ w. absurd (cc))
          (raise_or_touch-IsUnique kinds kind object_type row.id "" _ now s.db.findings fs
            h.one_open opened)
          along)

  reconcile_delay-Good :
      (kinds : List FindingKind) (now : ℕ) (delay : Option ℕ) (db' : Db)
      → ((d : ℕ) → delay ≡ some d → row.attempts < row.max_attempts)
      → reconcile_delay kinds now row s.db delay ≡ ok db'
      → Good s db'
  unfolding reconcile_delay
  reconcile_delay-Good kinds now none db' left e =
      park_with_finding-Good kinds failed_kind Status.failed now db' refl refl refl refl e
  reconcile_delay-Good kinds now (some d) db' left e = subst (Good s) (ok-injective e) (
      unfold save_parked in
      parked-Good Status.retry (now + d) s.db.findings refl refl (λ w. left d refl) h.one_open refl)

  reconcile_unknown-Good :
      (kinds : List FindingKind) (now : ℕ) (db' : Db)
      → reconcile_unknown kinds now row s.db ≡ ok db'
      → Good s db'
  unfolding reconcile_unknown
  reconcile_unknown-Good kinds now db' e =
      park_with_finding-Good kinds unknown_kind Status.unknown now db' refl refl refl refl e

  least_once-Good :
      (rand : ℕ → ℕ) (kinds : List FindingKind) (spec : Topic) (now : ℕ) (db' : Db)
      → (row_delay rand spec row.attempts row.max_attempts none >>= λ delay.
          reconcile_delay kinds now row s.db delay)
        ≡ ok db'
      → Good s db'
  least_once-Good rand kinds spec now db' e =
      let (delay, found, rest) =
        >>=-eq-ok (row_delay rand spec row.attempts row.max_attempts none) _ e in
      reconcile_delay-Good kinds now delay db'
        (λ d waits.
          row_delay_left rand spec row.attempts row.max_attempts none d
            (found ∙ ap (λ x. ok x) waits))
        rest

  reconcile_as-Good :
      (rand : ℕ → ℕ) (kinds : List FindingKind) (now : ℕ) (spec : Option Topic) (db' : Db)
      → reconcile_as rand kinds now row s.db spec ≡ ok db'
      → Good s db'
  unfolding reconcile_as
  reconcile_as-Good rand kinds now none db' e = reconcile_unknown-Good kinds now db' e
  reconcile_as-Good rand kinds now (some spec) db' e = elim (Semantics-cases spec.semantics) [
    | inl least ↦ least_once-Good rand kinds spec now db' (ground (arith, e, least))
    | inr most ↦ reconcile_unknown-Good kinds now db' (ground (arith, e, most))
  ]

stale_leased :
    (now pk : ℕ) (m : Message) → (is_stale now m && m.id == pk) ≡ true → m.status ≡ Status.leased
unfolding is_stale
stale_leased now pk m h = ground arith

-- One row of the sweep keeps the system sound.
pub recover_one-Good :
    (rand : ℕ → ℕ) (kinds : List FindingKind) (topics : List Topic) (now pk : ℕ) (s : System)
    (b : Bool) (db' : Db)
    → Sound s
    → recover_one rand kinds topics now pk s.db ≡ ok (b, db')
    → Good s db'
unfolding recover_one reconcile
recover_one-Good rand kinds topics now pk s b db' h e =
    elim (Option-cases (first_where (λ m. is_stale now m && m.id == pk) s.db.rows)) [
      | inl fresh ↦
          let same : s.db ≡ db' = ground (arith, e, fresh) in
          subst (Good s) same (record { sound = h; moves = Moves-refl s.db.rows })
      | inr (row, f) ↦
          let (own, stale) =
            first_where-some (λ m. Unit {0}) (λ m. is_stale now m && m.id == pk) s.db.rows row
              (All-always (λ m. Unit {0}) (λ m. tt) s.db.rows) f in
          let here : row.id ≡ pk = ground (arith, stale) in
          let only : All (λ m. (m.id == row.id) ≡ true → m ≡ row) s.db.rows =
            first_where_unique_of (λ m. is_stale now m && m.id == pk) (λ m. m.id == row.id)
              (λ m t. ground (arith, t, here)) s.db.rows row (h.ids row.id) f in
          elim (Result-cases (
            reconcile_as rand kinds now row s.db
              (first_where (λ t. str_eq t.topic row.topic) topics))) [
                | inr (x, bad) ↦ absurd (ground (arith, e, f, bad))
                | inl (d, done) ↦
                    let same : d ≡ db' = ground (arith, e, f, done) in
                    subst (Good s) same (
                      reconcile_as-Good s h row only (stale_leased now pk row stale) rand kinds now
                        _ d done)
              ]
    ]
