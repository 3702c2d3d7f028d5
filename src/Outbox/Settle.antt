-- ===== src/Outbox/Settle.antt =====
-- settle() and _late() of backend/core/outbox/service.py: the result is written by compare-and-set
-- on (id, locked_by, status = leased), with its finding, in one transaction. `rand` and `scrub` are
-- those of Jobs.Retry and Outbox.Message, `kinds` the registered finding kinds.
use django_base_x.Prelude.{
  ℕ, ◌+◌, String, Bool, ◌&&◌, Option, none, some, List, [], ◌∷◌, ◌==◌, str_eq, slice_to,
  if◌then◌else◌, any_where, update_where,
}
use django_base_x.Prelude.Int.{pos}
use django_base_x.Prelude.Result.{Result, ok, err, ◌>>=◌}
use django_base_x.Errors.{Exc, value_error}
use django_base_x.Values.{text, int, plain, nested, Report}
use django_base_x.Findings.{FindingKind, FindingTable, raise_or_touch, clear}
use django_base_x.Outbox.Outcome.{Outcome, OutcomeStatus, odd}
use django_base_x.Outbox.Message.{
  Message, Db, Topic, Status, topic_of, is_leased, is_parked, row_delay, unknown_kind, failed_kind,
  object_type, scrubbed, scrubbed_evidence,
}
use django_base_x.Outbox.Claim.{Claim}

-- What settle decides to write: the row's next status, and the update.
pub record Plan : Type 0 where
  pub status : Status
  pub write : Message → Message

-- The error columns of every outcome but SENT.
unfoldable pub with_error : (String → String) → Outcome → Status → Message → Message
with_error scrub outcome status m = record m {
  status = status;
  leased_until = none;
  last_error_code = slice_to 100 outcome.code;
  last_error_message = scrubbed scrub outcome.message;
}

-- status=SENT, with `sent_at`, `result_ref` and no error
unfoldable pub with_sent : Outcome → ℕ → Message → Message
with_sent outcome now m = record m {
  status = Status.sent;
  leased_until = none;
  sent_at = some now;
  result_ref = slice_to 255 outcome.ref;
  last_error_code = "";
  last_error_message = "";
}

-- RETRY: another attempt after the delay, or the dead letter when none remains.
unfoldable pub retry_plan : (String → String) → Outcome → ℕ → Option ℕ → Plan
unfolding with_error
retry_plan scrub outcome now none = record {
  status = Status.failed;
  write = with_error scrub outcome Status.failed;
}
retry_plan scrub outcome now (some delay) = record {
  status = Status.retry;
  write = λ m. record (with_error scrub outcome Status.retry m) { next_attempt_at = now + delay };
}

unfoldable pub plan :
    (String → String) → (ℕ → ℕ) → Topic → Claim → Outcome → ℕ → OutcomeStatus → Result Exc Plan
unfolding with_error with_sent retry_plan
plan scrub rand spec claimed outcome now OutcomeStatus.sent =
    ok (record { status = Status.sent; write = with_sent outcome now })
plan scrub rand spec claimed outcome now OutcomeStatus.skipped =
    ok (record { status = Status.skipped; write = with_error scrub outcome Status.skipped })
plan scrub rand spec claimed outcome now OutcomeStatus.retry = do
  delay ← row_delay rand spec claimed.attempt claimed.max_attempts outcome.after
  ok (retry_plan scrub outcome now delay)
plan scrub rand spec claimed outcome now OutcomeStatus.failed =
    ok (record { status = Status.failed; write = with_error scrub outcome Status.failed })
plan scrub rand spec claimed outcome now OutcomeStatus.unknown =
    ok (record { status = Status.unknown; write = with_error scrub outcome Status.unknown })
plan scrub rand spec claimed outcome now (odd s) = err value_error

-- filter(pk=claimed.id, locked_by=claimed.token, status="leased")
unfoldable pub is_held : Claim → Message → Bool
is_held c m = m.id == c.id && (str_eq m.locked_by c.token && is_leased m.status)

-- filter(pk=claimed.id, locked_by=claimed.token, status__in=(UNKNOWN, RETRY, FAILED))
unfoldable pub is_parked_under : Claim → Message → Bool
is_parked_under c m = m.id == c.id && (str_eq m.locked_by c.token && is_parked m.status)

-- what settle returns
pub data Settled : Type 0 where
  ended : Status → Settled
  lease_lost : Settled

-- _open(kind, id, details)
unfoldable pub open_finding :
    List FindingKind → String → ℕ → Report → ℕ → FindingTable → Result Exc FindingTable
open_finding kinds kind id details now t =
    raise_or_touch kinds (λ s. s) kind object_type id "" (some details) now t

-- The finding that goes with the written status.
unfoldable pub open_for :
    (String → String)
    → List FindingKind
    → Claim
    → Outcome
    → ℕ
    → Status
    → FindingTable
    → Result Exc FindingTable
open_for scrub kinds claimed outcome now Status.failed t =
    open_finding kinds failed_kind claimed.id
      (("code", plain (text (slice_to 100 outcome.code)))
        ∷ ("attempts", plain (int (pos claimed.attempt)))
        ∷ [])
      now t
open_for scrub kinds claimed outcome now Status.unknown t =
    open_finding kinds unknown_kind claimed.id
      (("code", plain (text (slice_to 100 outcome.code)))
        ∷ ("attempt", plain (int (pos claimed.attempt)))
        ∷ ("evidence", nested (scrubbed_evidence scrub outcome.evidence))
        ∷ [])
      now t
open_for scrub kinds claimed outcome now _ t = ok t

-- The lease was lost: only a SENT is accepted, for a row parked under our token.
unfoldable pub late_sent : List FindingKind → Claim → Outcome → ℕ → Db → Result Exc (Settled × Db)
late_sent kinds claimed outcome now db =
    if any_where (is_parked_under claimed) db.rows
    then (do
      (n, open_failed) ← clear kinds unknown_kind object_type claimed.id now db.findings
      (k, cleared) ← clear kinds failed_kind object_type claimed.id now open_failed
      ok (
        ended Status.sent,
        record db {
          rows = update_where (is_parked_under claimed) (with_sent outcome now) db.rows;
          findings = cleared;
        },
      ))
    else ok (lease_lost, db)

unfoldable pub late :
    List FindingKind → Claim → Outcome → ℕ → OutcomeStatus → Db → Result Exc (Settled × Db)
unfolding late_sent
late kinds claimed outcome now OutcomeStatus.sent db = late_sent kinds claimed outcome now db
late kinds claimed outcome now _ db = ok (lease_lost, db)

unfoldable pub settle :
    (String → String)
    → (ℕ → ℕ)
    → List FindingKind
    → List Topic
    → Claim
    → Outcome
    → ℕ
    → Db
    → Result Exc (Settled × Db)
settle scrub rand kinds topics claimed outcome now db = do
  spec ← topic_of topics claimed.topic
  planned ← plan scrub rand spec claimed outcome now outcome.status
  if any_where (is_held claimed) db.rows
      then (do
        opened ← open_for scrub kinds claimed outcome now planned.status db.findings
        ok (
          ended planned.status,
          record db {
            rows = update_where (is_held claimed) planned.write db.rows;
            findings = opened;
          },
        ))
      else late kinds claimed outcome now outcome.status db
