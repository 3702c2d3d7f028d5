-- ===== src/Outbox/Resolve.antt =====
-- resolve_unknown() of backend/core/outbox/service.py: the two decisions left to a human.
use django_base_x.Prelude.{
  ℕ, ◌+◌, String, Bool, true, false, ◌&&◌, Option, none, some, List, [], ◌∷◌, ◌==◌, if◌then◌else◌,
  any_where, update_where, filter_by,
}
use django_base_x.Prelude.Result.{Result, ok, err, ◌>>=◌}
use django_base_x.Errors.{Exc, value_error}
use django_base_x.Findings.{FindingKind, Finding, FindingTable, is_open_of, resolve}
use django_base_x.Outbox.Message.{Message, Db, Status, is_unknown, unknown_kind, object_type}

-- `other` is any text that is neither of the two.
pub data Action : Type 0 where
  mark_sent resend : Action
  other : String → Action

-- filter(pk=message_id, status=UNKNOWN)
unfoldable pub is_unknown_row : ℕ → Message → Bool
is_unknown_row id m = m.id == id && is_unknown m.status

unfoldable pub as_sent : ℕ → Message → Message
as_sent now m = record m { status = Status.sent; sent_at = some now; leased_until = none }

-- one more attempt than were made
unfoldable pub as_resend : ℕ → Message → Message
as_resend now m = record m {
  status = Status.retry;
  next_attempt_at = now;
  leased_until = none;
  max_attempts = m.attempts + 1;
}

-- for finding in ...: findings.resolve(finding, resolution, note, actor)
unfoldable pub resolve_all :
    List FindingKind
    → List Finding
    → String
    → String
    → Option ℕ
    → ℕ
    → FindingTable
    → Result Exc FindingTable
resolve_all kinds [] resolution note actor now t = ok t
resolve_all kinds (f ∷ fs) resolution note actor now t = do
  (done, t') ← resolve kinds f resolution note actor now t
  resolve_all kinds fs resolution note actor now t'

unfoldable pub decide :
    List FindingKind
    → ℕ
    → String
    → (Message → Message)
    → Option ℕ
    → String
    → ℕ
    → Db
    → Result Exc (Bool × Db)
decide kinds id resolution write actor note now db =
    if any_where (is_unknown_row id) db.rows
    then (do
      resolved ←
          resolve_all kinds (filter_by (is_open_of unknown_kind object_type id) db.findings.rows)
            resolution note actor now db.findings
      ok (
        true,
        record db { rows = update_where (is_unknown_row id) write db.rows; findings = resolved },
      ))
    else ok (false, db)

unfoldable pub resolve_unknown :
    List FindingKind → ℕ → Action → Option ℕ → String → ℕ → Db → Result Exc (Bool × Db)
unfolding decide
resolve_unknown kinds id mark_sent actor note now db =
    decide kinds id "marked_sent" (as_sent now) actor note now db
resolve_unknown kinds id resend actor note now db =
    decide kinds id "resent" (as_resend now) actor note now db
resolve_unknown kinds id (other a) actor note now db = err value_error
