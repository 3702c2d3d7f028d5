-- ===== src/Outbox/Semantics/Settling.antt =====
-- settle of backend/core/outbox/service.py: the compare-and-set, and the findings of a result.
use django_base_x.Prelude.{
  ℕ, ◌≡◌, ◌≢◌, refl, sym, ◌∙◌, String, true, false, List, arith, any_where, count_where,
  update_where, eq_iff,
}
use django_base_x.Prelude.Result.{ok}
use django_base_x.Findings.{FindingKind, FindingTable, kind_of, is_open_of}
use django_base_x.Findings.Unique.{IsUnique, raise_or_touch-one_open}
use django_base_x.Findings.Closing.{clear-none_open, clear-IsUnique}
use django_base_x.Outbox.Outcome.{Outcome, OutcomeStatus}
use django_base_x.Outbox.Message.{
  Db, Topic, Status, topic_of, unknown_kind, failed_kind, object_type,
}
use django_base_x.Outbox.Claim.{Claim}
use django_base_x.Outbox.Settle.{
  Plan, plan, is_held, is_parked_under, open_finding, open_for, ended, lease_lost, with_sent,
  late_sent, late, settle,
}

-- How many findings of a kind are open about a message.
abbrev pub open_about : String → ℕ → FindingTable → ℕ
open_about kind id t = count_where (is_open_of kind object_type id) t.rows

-- What a human sees after a result: the dead letter, the unknown outcome, or nothing new.
abbrev pub Reported : Status → ℕ → FindingTable → FindingTable → Type 0
Reported Status.failed id old new = open_about failed_kind id new ≡ 1
Reported Status.unknown id old new = open_about unknown_kind id new ≡ 1
Reported _ id old new = new ≡ old

-- Both kinds that the outbox raises are registered.
pub record KindsOk (kinds : List FindingKind) : Type 0 where
  pub failed : FindingKind
  pub failed_known : kind_of kinds failed_kind ≡ ok failed
  pub unknown : FindingKind
  pub unknown_known : kind_of kinds unknown_kind ≡ ok unknown

kinds_differ : unknown_kind ≢ failed_kind
kinds_differ = ground (arith, eq_iff unknown_kind failed_kind)

late_other :
    (kinds : List FindingKind) (c : Claim) (o : Outcome) (now : ℕ) (st : OutcomeStatus) (db : Db)
    → st ≢ OutcomeStatus.sent
    → late kinds c o now st db ≡ ok (lease_lost, db)
unfolding late
late_other kinds c o now OutcomeStatus.sent db h = absurd (h refl)
late_other kinds c o now _ db h = refl

module _ (scrub : String → String) (kinds : List FindingKind) (known : KindsOk kinds) (c : Claim)
    (o : Outcome) (now : ℕ) where
  open_for-Reported :
      (status : Status) (t : FindingTable)
      → IsUnique t
      → (s : FindingTable) × (open_for scrub kinds c o now status t ≡ ok s)
        × Reported status c.id t s
  unfolding open_for open_finding
  open_for-Reported Status.failed t u =
      let (s, made, u', one) =
        raise_or_touch-one_open kinds (λ x. x) known.failed failed_kind object_type c.id "" _ now t
          (λ x v. v) u known.failed_known in
      (s, made, one)
  open_for-Reported Status.unknown t u =
      let (s, made, u', one) =
        raise_or_touch-one_open kinds (λ x. x) known.unknown unknown_kind object_type c.id "" _ now
          t (λ x v. v) u known.unknown_known in
      (s, made, one)
  open_for-Reported _ t u = (t, refl, refl)

  module _ (rand : ℕ → ℕ) (topics : List Topic) (spec : Topic) (p : Plan) (db : Db)
      (reg : topic_of topics c.topic ≡ ok spec)
      (planned : plan scrub rand spec c o now o.status ≡ ok p) where
    -- While the claim holds its row, settling writes the planned result to exactly the rows it
    -- holds, answers that status, and leaves exactly one open finding about a dead letter or an
    -- unknown outcome, in the same transaction; other results leave the findings alone.
    pub settle_held :
        IsUnique db.findings
        → any_where (is_held c) db.rows ≡ true
        → (db' : Db) × (settle scrub rand kinds topics c o now db ≡ ok (ended p.status, db'))
          × (db'.rows ≡ update_where (is_held c) p.write db.rows)
          × Reported p.status c.id db.findings db'.findings
    unfolding settle
    settle_held u held =
        let (fs, opened, seen) = open_for-Reported p.status db.findings u in
        (
          record db { rows = update_where (is_held c) p.write db.rows; findings = fs },
          ground (arith, reg, planned, held, opened),
          refl,
          seen,
        )

    -- Once the lease is lost, any result but SENT is dropped: nothing is written.
    settle_lost :
        any_where (is_held c) db.rows ≡ false
        → o.status ≢ OutcomeStatus.sent
        → settle scrub rand kinds topics c o now db ≡ ok (lease_lost, db)
    unfolding settle
    settle_lost lost other =
        ground (arith, reg, planned, lost, late_other kinds c o now o.status db other)

    -- A SENT that arrives after recovery parked the row under its token is accepted: the rows parked
    -- under the claim become sent, and no unknown or failed finding about the message stays open.
    pub settle_late_sent :
        IsUnique db.findings
        → any_where (is_held c) db.rows ≡ false
        → any_where (is_parked_under c) db.rows ≡ true
        → o.status ≡ OutcomeStatus.sent
        → (db' : Db) × (settle scrub rand kinds topics c o now db ≡ ok (ended Status.sent, db'))
          × (db'.rows ≡ update_where (is_parked_under c) (with_sent o now) db.rows)
          × (open_about unknown_kind c.id db'.findings ≡ 0)
          × (open_about failed_kind c.id db'.findings ≡ 0)
    unfolding settle late late_sent
    settle_late_sent u lost parked is_sent =
        let (n, t, first, a, b, other) =
          clear-none_open kinds known.unknown unknown_kind object_type c.id now db.findings
            failed_kind object_type c.id u known.unknown_known
            (λ same. kinds_differ (sym same.0)) in
        let u' = clear-IsUnique kinds unknown_kind object_type c.id now db.findings t n u first in
        let (k, v, second, d, e, kept) =
          clear-none_open kinds known.failed failed_kind object_type c.id now t unknown_kind
            object_type c.id u' known.failed_known (λ same. kinds_differ same.0) in
        (
          record db {
            rows = update_where (is_parked_under c) (with_sent o now) db.rows;
            findings = v;
          },
          ground (arith, reg, planned, lost, parked, is_sent, first, second),
          refl,
          kept ∙ b,
          e,
        )
