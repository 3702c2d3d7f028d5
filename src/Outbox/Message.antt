-- ===== src/Outbox/Message.antt =====
-- The outbox row and table (OutboxMessage and OutboxQuerySet of backend/core/models.py), the
-- registered topics (OutboxTopic of backend/core/registry.py) and the helpers of
-- backend/core/outbox/service.py that several operations share.
--
-- Instants and durations are whole microseconds. The table keeps its sequence `next_id`; the
-- findings queue stands beside it because both are written in one transaction.
use django_base_x.Prelude.{
  ℕ, max, String, Bool, true, false, ◌&&◌, Option, none, some, List, [], ◌∷◌, leb, ltb, str_eq,
  or_else, slice_to, first_where,
}
use django_base_x.Prelude.Int.{ℤ}
use django_base_x.Prelude.Result.{Result, ok, err, ◌>>=◌}
use django_base_x.Errors.{Exc, key_error}
use django_base_x.Values.{Details, text}
use django_base_x.Findings.{FindingTable}
use django_base_x.Jobs.Retry.{RetryPolicy, Raised, new_policy, next_delay, outbox_default_retry}
use django_base_x.Outbox.Outcome.{Outcome, Delivery}

pub data Status : Type 0 where
  pending leased retry sent skipped failed unknown : Status

pub record Message : Type 0 where
  pub id : ℕ
  pub topic : String
  pub dedupe_key : String
  pub payload : Details
  pub status : Status
  pub attempts : ℕ
  pub max_attempts : ℕ
  pub next_attempt_at : ℕ
  pub leased_until : Option ℕ
  pub locked_by : String
  pub last_error_code : String
  pub last_error_message : String
  pub result_ref : String
  pub sent_at : Option ℕ

pub record Db : Type 0 where
  pub rows : List Message
  pub next_id : ℕ
  pub findings : FindingTable

-- status__in=("pending", "retry")
abbrev pub is_waiting : Status → Bool
is_waiting pending = true
is_waiting retry = true
is_waiting _ = false

abbrev pub is_leased : Status → Bool
is_leased leased = true
is_leased _ = false

-- status__in=(UNKNOWN, RETRY, FAILED)
abbrev pub is_parked : Status → Bool
is_parked unknown = true
is_parked retry = true
is_parked failed = true
is_parked _ = false

abbrev pub is_unknown : Status → Bool
is_unknown unknown = true
is_unknown _ = false

-- OutboxQuerySet.due
unfoldable pub is_due : ℕ → Message → Bool
is_due now m = is_waiting m.status && leb m.next_attempt_at now

-- OutboxQuerySet.stale_leases; a NULL is never less than `now`
unfoldable pub is_stale : ℕ → Message → Bool
is_stale now m = is_leased m.status && elim m.leased_until [ none ↦ false | some t ↦ ltb t now ]

pub data Semantics : Type 0 where
  at_least_once at_most_once : Semantics

-- What a handler's call comes to: an Outcome, another object (by its class), the exception
-- ProviderNotConfigured, or any other exception.
pub data Answer : Type 0 where
  outcome : Outcome → Answer
  other_object : String → Answer
  not_configured : Answer
  raised : String → String → Bool → Raised → Answer

-- core.registry.OutboxTopic, as far as it is read here; `handler` is the resolved function.
pub record Topic : Type 0 where
  pub topic : String
  pub handler : Delivery → Answer
  pub semantics : Semantics
  pub policy : Option RetryPolicy
  pub lease_seconds : ℕ
  pub batch_size : ℕ

-- topics.get(name): KeyError when it is not registered
unfoldable pub topic_of : List Topic → String → Result Exc Topic
topic_of topics name = elim (first_where (λ s. str_eq s.topic name) topics) [
  | some spec ↦ ok spec
  | none ↦ err key_error
]

unfoldable pub policy_of : Topic → RetryPolicy
policy_of spec = or_else spec.policy outbox_default_retry

-- service.next_delay: the topic's backoff under the row's own cap on attempts
unfoldable pub row_delay : (ℕ → ℕ) → Topic → ℕ → ℕ → Option ℤ → Result Exc (Option ℕ)
row_delay rand spec attempt max_attempts retry_after = do
  let base = policy_of spec
  policy ← new_policy (max 1 max_attempts) base.base base.factor base.cap
  next_delay policy (max 1 attempt) retry_after rand

abbrev pub unknown_kind : String
unknown_kind = "outbox.unknown"

abbrev pub failed_kind : String
failed_kind = "outbox.failed"

abbrev pub object_type : String
object_type = "core.outboxmessage"

-- `scrub` stands for default_rules().scrub_text
unfoldable pub scrubbed : (String → String) → String → String
scrubbed scrub s = slice_to 1000 (scrub s)

unfoldable pub scrubbed_evidence : (String → String) → Details → Details
unfolding scrubbed
scrubbed_evidence scrub [] = []
scrubbed_evidence scrub ((key, text s) ∷ rest) =
    (key, text (scrubbed scrub s)) ∷ scrubbed_evidence scrub rest
scrubbed_evidence scrub ((key, value) ∷ rest) = (key, value) ∷ scrubbed_evidence scrub rest
