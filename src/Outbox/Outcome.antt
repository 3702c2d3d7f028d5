-- ===== src/Outbox/Outcome.antt =====
-- What a topic handler is handed and what it answers (backend/core/outbox/outcome.py).
use django_base_x.Prelude.{ℕ, String, Bool, Option, none, List, [], ◌∷◌, all_where, if◌then◌else◌}
use django_base_x.Prelude.Int.{ℤ}
use django_base_x.Prelude.Result.{Result, ok, err}
use django_base_x.Errors.{Exc, type_error}
use django_base_x.Values.{Value, Key, Details, str, other, is_evidence_value}

-- `odd` is any status text that is none of the five.
pub data OutcomeStatus : Type 0 where
  sent retry failed skipped unknown : OutcomeStatus
  odd : String → OutcomeStatus

pub record Delivery : Type 0 where
  pub id : ℕ
  pub topic : String
  pub dedupe_key : String
  pub payload : Details
  pub attempt : ℕ

-- `after` is a number of microseconds, which an upstream may send negative.
pub record Outcome : Type 0 where
  pub status : OutcomeStatus
  pub ref : String
  pub after : Option ℤ
  pub code : String
  pub message : String
  pub evidence : Details

-- isinstance(k, str) and isinstance(v, EVIDENCE_VALUES)
is_evidence_item : Key × Value → Bool
unfolding is_evidence_value
is_evidence_item (str k, v) = is_evidence_value v
is_evidence_item (other k, v) = Bool.false

text_keys : List (Key × Value) → Details
text_keys [] = []
text_keys ((str k, v) ∷ items) = (k, v) ∷ text_keys items
text_keys ((other k, v) ∷ items) = text_keys items

-- The constructor with the check of __post_init__ on its evidence.
unfoldable pub new_outcome :
    OutcomeStatus → String → Option ℤ → String → String → List (Key × Value) → Result Exc Outcome
unfolding is_evidence_item text_keys
new_outcome status ref after code message evidence =
    if all_where is_evidence_item evidence
    then ok (record {
      status = status;
      ref = ref;
      after = after;
      code = code;
      message = message;
      evidence = text_keys evidence;
    })
    else err type_error

-- The class methods, at evidence that passes the check.
abbrev pub sent_with : String → Outcome
sent_with ref = record {
  status = sent;
  ref = ref;
  after = none;
  code = "";
  message = "";
  evidence = [];
}

abbrev pub retry_with : Option ℤ → String → String → Outcome
retry_with after code message = record {
  status = retry;
  ref = "";
  after = after;
  code = code;
  message = message;
  evidence = [];
}

abbrev pub failed_with : String → String → Outcome
failed_with code message = record {
  status = failed;
  ref = "";
  after = none;
  code = code;
  message = message;
  evidence = [];
}

abbrev pub skipped_with : String → Outcome
skipped_with reason = record {
  status = skipped;
  ref = "";
  after = none;
  code = reason;
  message = "";
  evidence = [];
}

abbrev pub unknown_with : Details → String → String → Outcome
unknown_with evidence code message = record {
  status = unknown;
  ref = "";
  after = none;
  code = code;
  message = message;
  evidence = evidence;
}
