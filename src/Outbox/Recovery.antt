-- ===== src/Outbox/Recovery.antt =====
-- LeaseRecovery.reconcile of backend/core/outbox/recovery.py, run on a row as Reconciler._one of
-- backend/core/jobs/reconciler.py runs it: re-read under the lock, in a transaction of its own.
use django_base_x.Prelude.{
  ℕ, ◌+◌, String, Bool, true, false, ◌&&◌, Option, none, some, List, [], ◌∷◌, ◌==◌, str_eq,
  first_where, update_where,
}
use django_base_x.Prelude.Int.{pos}
use django_base_x.Prelude.Result.{Result, ok, ◌>>=◌}
use django_base_x.Errors.{Exc}
use django_base_x.Values.{text, int, null, plain, instant, Detail, Report}
use django_base_x.Findings.{FindingKind}
use django_base_x.Outbox.Message.{
  Message, Db, Topic, Status, at_least_once, at_most_once, is_stale, row_delay, unknown_kind,
  failed_kind,
}
use django_base_x.Outbox.Settle.{open_finding}

abbrev pub lease_expired : String
lease_expired = "lease_expired"

unfoldable pub instant_or_null : Option ℕ → Detail
instant_or_null none = plain null
instant_or_null (some t) = instant t

unfoldable pub lease_evidence : Message → Report
lease_evidence row =
    ("attempt", plain (int (pos row.attempts)))
    ∷ ("locked_by", plain (text row.locked_by))
    ∷ ("leased_until", instant_or_null row.leased_until)
    ∷ []

-- row.save(update_fields=[...]): these five columns of the row with the same pk
unfoldable pub park : Status → ℕ → Message → Message
park status next m = record m {
  status = status;
  next_attempt_at = next;
  leased_until = none;
  last_error_code = lease_expired;
  last_error_message = "";
}

unfoldable pub save_parked : Message → Status → ℕ → Db → Db
save_parked row status next db = record db {
  rows = update_where (λ m. m.id == row.id) (park status next) db.rows;
}

-- The row with a finding of `kind` opened about it.
unfoldable pub park_with_finding :
    List FindingKind → String → Message → Status → ℕ → Db → Result Exc Db
unfolding save_parked
park_with_finding kinds kind row status now db = do
  opened ← open_finding kinds kind row.id (lease_evidence row) now db.findings
  ok (save_parked row status row.next_attempt_at (record db { findings = opened }))

-- at_least_once: `retry` after the backoff, `failed` when the attempts are spent
unfoldable pub reconcile_delay : List FindingKind → ℕ → Message → Db → Option ℕ → Result Exc Db
unfolding park_with_finding save_parked
reconcile_delay kinds now row db none = park_with_finding kinds failed_kind row Status.failed now db
reconcile_delay kinds now row db (some delay) = ok (save_parked row Status.retry (now + delay) db)

-- anything else: `unknown`, for a human
unfoldable pub reconcile_unknown : List FindingKind → ℕ → Message → Db → Result Exc Db
unfolding park_with_finding
reconcile_unknown kinds now row db = park_with_finding kinds unknown_kind row Status.unknown now db

-- `spec` is the row's topic, if it is registered.
unfoldable pub reconcile_as :
    (ℕ → ℕ) → List FindingKind → ℕ → Message → Db → Option Topic → Result Exc Db
unfolding reconcile_delay reconcile_unknown
reconcile_as rand kinds now row db none = reconcile_unknown kinds now row db
reconcile_as rand kinds now row db (some spec) = elim spec.semantics [
  | at_least_once ↦ (do
    delay ← row_delay rand spec row.attempts row.max_attempts none
    reconcile_delay kinds now row db delay)
  | at_most_once ↦ reconcile_unknown kinds now row db
]

unfoldable pub reconcile :
    (ℕ → ℕ) → List FindingKind → List Topic → ℕ → Message → Db → Result Exc Db
unfolding reconcile_as
reconcile rand kinds topics now row db =
    reconcile_as rand kinds now row db (first_where (λ s. str_eq s.topic row.topic) topics)

-- One row of the sweep: skipped when it is no longer stale. `true` when it was fixed.
unfoldable pub recover_one :
    (ℕ → ℕ) → List FindingKind → List Topic → ℕ → ℕ → Db → Result Exc (Bool × Db)
unfolding reconcile
recover_one rand kinds topics now pk db =
    elim (first_where (λ m. is_stale now m && m.id == pk) db.rows) [
      | none ↦ ok (false, db)
      | some row ↦ (do fixed ← reconcile rand kinds topics now row db; ok (true, fixed))
    ]
