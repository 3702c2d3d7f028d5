-- ===== src/Witnesses/OutboxData.antt =====
-- A setup of three topics, and the rows and claims that the outbox's examples run on.
use django_base_x.Prelude.{true, false, none, some, List, [], ◌∷◌}
use django_base_x.Findings.{FindingKind, FindingTable}
use django_base_x.Jobs.Retry.{Raised}
use django_base_x.Outbox.Outcome.{Delivery, sent_with}
use django_base_x.Outbox.Message.{
  Message, Db, Topic, Status, at_least_once, at_most_once, outcome, raised, unknown_kind,
  failed_kind,
}
use django_base_x.Outbox.Enqueue.{Connection}
use django_base_x.Outbox.Claim.{Claim}
use django_base_x.Outbox.Drain.{Setup, World}
use django_base_x.Outbox.Sound.{System}
use django_base_x.Outbox.Steps.{empty_system}

abbrev pub failed_spec : FindingKind
failed_spec = record {
  kind = failed_kind;
  label = "Failed";
  severity = "warning";
  resolutions = "resent" ∷ [];
}

abbrev pub unknown_spec : FindingKind
unknown_spec = record {
  kind = unknown_kind;
  label = "Unknown";
  severity = "critical";
  resolutions = "resent" ∷ "marked_sent" ∷ [];
}

abbrev pub example_kinds : List FindingKind
example_kinds = failed_spec ∷ unknown_spec ∷ []

abbrev pub lost_connection : Raised
lost_connection = record { transient = none; status_code = none; connection_trouble = true }

abbrev pub mail : Topic
mail = record {
  topic = "mail";
  handler = λ (d : Delivery). outcome (sent_with "ref");
  semantics = at_least_once;
  policy = none;
  lease_seconds = 60;
  batch_size = 10;
}

abbrev pub webhook : Topic
webhook = record {
  topic = "webhook";
  handler = λ (d : Delivery). raised "ConnectionError" "reset" false lost_connection;
  semantics = at_least_once;
  policy = none;
  lease_seconds = 60;
  batch_size = 5;
}

abbrev pub payment : Topic
payment = record webhook { topic = "payment"; semantics = at_most_once }

abbrev pub example_topics : List Topic
example_topics = mail ∷ webhook ∷ payment ∷ []

abbrev pub example_setup : Setup
example_setup = record {
  scrub = λ s. s;
  rand = λ n. n;
  kinds = example_kinds;
  topics = example_topics;
}

abbrev pub no_findings : FindingTable
no_findings = record { rows = []; next_id = 1 }

abbrev pub waiting_row : Message
waiting_row = record {
  id = 1;
  topic = "mail";
  dedupe_key = "mail:7:1";
  payload = [];
  status = Status.pending;
  attempts = 0;
  max_attempts = 5;
  next_attempt_at = 100;
  leased_until = none;
  locked_by = "";
  last_error_code = "";
  last_error_message = "";
  result_ref = "";
  sent_at = none;
}

abbrev pub leased_row : Message
leased_row = record waiting_row {
  status = Status.leased;
  attempts = 1;
  leased_until = some 500;
  locked_by = "host:1:aa";
}

abbrev pub db_of : Message → Db
db_of m = record { rows = m ∷ []; next_id = 2; findings = no_findings }

abbrev pub holder : Claim
holder = record {
  id = 1;
  token = "host:1:aa";
  topic = "mail";
  dedupe_key = "mail:7:1";
  payload = [];
  attempt = 1;
  max_attempts = 5;
}

abbrev pub open_block : Connection
open_block = record { db = empty_system.db; in_atomic_block = true; on_commit = [] }

abbrev pub queued : System
queued = record { db = db_of waiting_row; claims = [] }

abbrev pub queued_block : Connection
queued_block = record { db = queued.db; in_atomic_block = true; on_commit = "mail" ∷ [] }

abbrev pub calm : World
calm = record {
  clock = λ n. n;
  now = λ n. 200;
  stop_requested = λ n. false;
  tokens = λ n k. "host:1:aa";
  others = λ n k d. d;
  meanwhile = λ n d. d;
}
