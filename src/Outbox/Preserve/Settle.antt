-- ===== src/Outbox/Preserve/Settle.antt =====
-- settle and _late of backend/core/outbox/service.py, as transactions of the system.
use django_base_x.Prelude.{
  ℕ, ◌≡◌, refl, subst, ap, sym, String, true, false, List, Option, none, some, arith, inl, inr,
  Bool-cases, All, All-impl, All-zip, All-update_where, any_where, update_where,
}
use django_base_x.Prelude.Result.{ok, ok-injective, Result-cases, >>=-eq-ok}
use django_base_x.Findings.{FindingKind, FindingTable, clear}
use django_base_x.Findings.Unique.{IsUnique, raise_or_touch-IsUnique}
use django_base_x.Findings.Closing.{clear-IsUnique}
use django_base_x.Outbox.Outcome.{Outcome, OutcomeStatus, odd}
use django_base_x.Outbox.Message.{
  Message, Db, Topic, Status, topic_of, is_leased, row_delay, unknown_kind, failed_kind,
  object_type,
}
use django_base_x.Outbox.Claim.{Claim}
use django_base_x.Outbox.Settle.{
  Plan, plan, retry_plan, with_sent, is_held, is_parked_under, open_finding, open_for, Settled,
  late_sent, late, settle,
}
use django_base_x.Outbox.Invariant.{RowOk, Fits, plan-RowOk, with_sent-RowOk}
use django_base_x.Outbox.Moves.{Good, edge, Moves-refl, Moves-update_where}
use django_base_x.Outbox.Sound.{System, Sound, Keeps, updated, unlease-Sound, Fits-of_unleased}

-- What every plan writes: the planned status, which is never `leased`, and not the row's identity.
pub record Writes (p : Plan) : Type 0 where
  pub keeps : Keeps p.write
  pub status : (m : Message) → (p.write m).status ≡ p.status
  pub unleased : is_leased p.status ≡ false
  pub along : edge Status.leased p.status ≡ true

retry_plan-Writes :
    (scrub : String → String) (o : Outcome) (now : ℕ) (delay : Option ℕ)
    → Writes (retry_plan scrub o now delay)
unfolding retry_plan
retry_plan-Writes scrub o now none = record {
  keeps = record { id = λ m. refl; key = λ m. refl };
  status = λ m. refl;
  unleased = refl;
  along = refl;
}
retry_plan-Writes scrub o now (some d) = record {
  keeps = record { id = λ m. refl; key = λ m. refl };
  status = λ m. refl;
  unleased = refl;
  along = refl;
}

module _ (scrub : String → String) (rand : ℕ → ℕ) (spec : Topic) (c : Claim) (o : Outcome)
    (now : ℕ) where
  pub plan-Writes :
      (s : OutcomeStatus) (p : Plan) → plan scrub rand spec c o now s ≡ ok p → Writes p
  unfolding plan
  plan-Writes OutcomeStatus.retry p e =
      let (delay, found, made) =
        >>=-eq-ok (row_delay rand spec c.attempt c.max_attempts o.after) _ e in
      subst Writes (ok-injective made) (retry_plan-Writes scrub o now delay)
  plan-Writes (odd s) p e = absurd (cc)
  plan-Writes OutcomeStatus.sent p e = subst Writes (ok-injective e) (record {
    keeps = record { id = λ m. refl; key = λ m. refl };
    status = λ m. refl;
    unleased = refl;
    along = refl;
  })
  plan-Writes OutcomeStatus.skipped p e = subst Writes (ok-injective e) (record {
    keeps = record { id = λ m. refl; key = λ m. refl };
    status = λ m. refl;
    unleased = refl;
    along = refl;
  })
  plan-Writes OutcomeStatus.failed p e = subst Writes (ok-injective e) (record {
    keeps = record { id = λ m. refl; key = λ m. refl };
    status = λ m. refl;
    unleased = refl;
    along = refl;
  })
  plan-Writes OutcomeStatus.unknown p e = subst Writes (ok-injective e) (record {
    keeps = record { id = λ m. refl; key = λ m. refl };
    status = λ m. refl;
    unleased = refl;
    along = refl;
  })

open_for-IsUnique :
    (scrub : String → String) (kinds : List FindingKind) (c : Claim) (o : Outcome) (now : ℕ)
    (status : Status) (t s : FindingTable)
    → IsUnique t
    → open_for scrub kinds c o now status t ≡ ok s
    → IsUnique s
unfolding open_for open_finding
open_for-IsUnique scrub kinds c o now Status.failed t s u e =
    raise_or_touch-IsUnique kinds failed_kind object_type c.id "" _ now t s u e
open_for-IsUnique scrub kinds c o now Status.unknown t s u e =
    raise_or_touch-IsUnique kinds unknown_kind object_type c.id "" _ now t s u e
open_for-IsUnique scrub kinds c o now _ t s u e = subst IsUnique (ok-injective e) u

held_edge :
    (c : Claim) (m : Message) (st : Status)
    → is_held c m ≡ true
    → edge Status.leased st ≡ true
    → edge m.status st ≡ true
unfolding is_held
held_edge c m st h e = ground arith

parked_edge :
    (c : Claim) (m : Message) → is_parked_under c m ≡ true → edge m.status Status.sent ≡ true
unfolding is_parked_under
parked_edge c m h = ground arith

module _ (c : Claim) (s : System) (h : Sound s) (fit : All (Fits c) s.db.rows) where
  held_rows :
      (p : Plan)
      → Writes p
      → ((m : Message) → RowOk m → Fits c m → is_held c m ≡ true → RowOk (p.write m))
      → All RowOk (update_where (is_held c) p.write s.db.rows)
  held_rows p w keep =
      All-impl (λ m. RowOk m × Fits c m) RowOk (λ m both. both.0) _
        (All-update_where (λ m. RowOk m × Fits c m) (is_held c) p.write
          (λ m both t.
            (keep m both.0 both.1 t, Fits-of_unleased c (p.write m) (rw (w.status m) w.unleased)))
          s.db.rows (All-zip RowOk (Fits c) s.db.rows h.rows_ok fit))

  held-Good :
      (p : Plan) (fs : FindingTable)
      → Writes p
      → ((m : Message) → RowOk m → Fits c m → is_held c m ≡ true → RowOk (p.write m))
      → IsUnique fs
      → Good s (updated s (is_held c) p.write fs).db
  held-Good p fs w keep u = record {
    sound =
        unlease-Sound s (is_held c) p.write fs w.keeps (λ m _. rw (w.status m) w.unleased) h u
          (held_rows p w keep);
    moves =
        Moves-update_where (is_held c) p.write
          (λ m t. (sym (w.keeps.id m), rw (w.status m) (held_edge c m p.status t w.along)))
          s.db.rows;
  }

  sent-Good :
      (o : Outcome) (now : ℕ) (fs : FindingTable)
      → IsUnique fs
      → Good s (updated s (is_parked_under c) (with_sent o now) fs).db
  unfolding with_sent
  sent-Good o now fs u = record {
    moves =
        Moves-update_where (is_parked_under c) (with_sent o now) (λ m t. (refl, parked_edge c m t))
          s.db.rows;
    sound =
        unlease-Sound s (is_parked_under c) (with_sent o now) fs
          (record { id = λ m. refl; key = λ m. refl }) (λ m _. refl) h u
          (All-update_where RowOk (is_parked_under c) (with_sent o now)
            (λ m r _. with_sent-RowOk o now r) s.db.rows h.rows_ok);
  }

  late_sent-Good :
      (kinds : List FindingKind) (o : Outcome) (now : ℕ) (r : Settled) (db' : Db)
      → late_sent kinds c o now s.db ≡ ok (r, db')
      → Good s db'
  unfolding late_sent
  late_sent-Good kinds o now r db' e = elim (Bool-cases (any_where (is_parked_under c) s.db.rows)) [
    | inr no_row ↦
        let same : s.db ≡ db' = ground (arith, e, no_row) in
        subst (Good s) same (record { sound = h; moves = Moves-refl s.db.rows })
    | inl parked ↦
        elim (Result-cases (clear kinds unknown_kind object_type c.id now s.db.findings)) [
          | inr (x, bad) ↦ absurd (ground (arith, e, parked, bad))
          | inl ((n, t), first) ↦
              elim (Result-cases (clear kinds failed_kind object_type c.id now t)) [
                | inr (x, bad) ↦ absurd (ground (arith, e, parked, first, bad))
                | inl ((k, u), second) ↦
                    let after = updated s (is_parked_under c) (with_sent o now) u in
                    let same : after.db ≡ db' = ground (arith, e, parked, first, second) in
                    let unique : IsUnique u =
                      clear-IsUnique kinds failed_kind object_type c.id now t u k
                        (clear-IsUnique kinds unknown_kind object_type c.id now s.db.findings t n
                          h.one_open first)
                        second in
                    subst (Good s) same (sent-Good o now u unique)
              ]
        ]
  ]

  late-Good :
      (kinds : List FindingKind) (o : Outcome) (now : ℕ) (st : OutcomeStatus) (r : Settled)
      (db' : Db)
      → late kinds c o now st s.db ≡ ok (r, db')
      → Good s db'
  unfolding late
  late-Good kinds o now OutcomeStatus.sent r db' e = late_sent-Good kinds o now r db' e
  late-Good kinds o now _ r db' e =
      subst (Good s) (ap (λ (x : Settled × Db). x.1) (ok-injective e))
        (record { sound = h; moves = Moves-refl s.db.rows })

-- A settle by a drainer whose claim is outstanding keeps the system sound, and moves rows along the diagram.
pub settle-Good :
    (scrub : String → String) (rand : ℕ → ℕ) (kinds : List FindingKind) (topics : List Topic)
    (c : Claim) (o : Outcome) (now : ℕ) (s : System) (r : Settled) (db' : Db)
    → Sound s
    → All (Fits c) s.db.rows
    → settle scrub rand kinds topics c o now s.db ≡ ok (r, db')
    → Good s db'
unfolding settle late
settle-Good scrub rand kinds topics c o now s r db' h fit e =
    let (spec, reg, rest) = >>=-eq-ok (topic_of topics c.topic) _ e in
    let (p, planned, done) = >>=-eq-ok (plan scrub rand spec c o now o.status) _ rest in
    elim (Bool-cases (any_where (is_held c) s.db.rows)) [
      | inl held ↦ elim (Result-cases (open_for scrub kinds c o now p.status s.db.findings)) [
        | inr (x, bad) ↦ absurd (ground (arith, done, held, bad))
        | inl (fs, opened) ↦
            let same : (updated s (is_held c) p.write fs).db ≡ db' =
              ground (arith, done, held, opened) in
            subst (Good s) same (
              held-Good c s h fit p fs (plan-Writes scrub rand spec c o now o.status p planned)
                (λ m ok_row fits held_row.
                  plan-RowOk scrub rand spec c o now o.status p m planned ok_row fits held_row)
                (open_for-IsUnique scrub kinds c o now p.status s.db.findings fs h.one_open opened))
      ]
      | inr lost ↦ late-Good c s h fit kinds o now o.status r db' (ground (arith, done, lost))
    ]
