-- ===== src/Outbox/Deliver.antt =====
-- deliver() of backend/core/outbox/service.py: the handler's answer, made an Outcome. The handler
-- is code that the product registers, so its answer is a parameter of the topic.
use Prim.Native.String.{◌++◌ as append}
use django_base_x.Prelude.{List, String, Bool, ◌||◌, none, [], ◌∷◌, slice_to, if◌then◌else◌}
use django_base_x.Prelude.Result.{Result, ok, ◌>>=◌}
use django_base_x.Errors.{Exc}
use django_base_x.Values.{text}
use django_base_x.Jobs.Retry.{Raised, is_transient}
use django_base_x.Outbox.Outcome.{
  Outcome, Delivery, retry_with, failed_with, skipped_with, unknown_with,
}
use django_base_x.Outbox.Message.{
  Topic, Semantics, at_least_once, at_most_once, Answer, outcome, other_object, not_configured,
  raised, topic_of, scrubbed,
}
use django_base_x.Outbox.Claim.{Claim}

unfoldable pub delivery_of : Claim → Delivery
delivery_of c = record {
  id = c.id;
  topic = c.topic;
  dedupe_key = c.dedupe_key;
  payload = c.payload;
  attempt = c.attempt;
}

-- An escaped exception, by the topic's semantics. `soft_limit` is SoftTimeLimitExceeded.
unfoldable pub of_exception : Semantics → String → String → Bool → Raised → Outcome
of_exception at_least_once code message soft_limit exc =
    if soft_limit || is_transient exc
    then retry_with none code message
    else failed_with code message
of_exception at_most_once code message soft_limit exc =
    unknown_with (("exception", text code) ∷ []) code message

-- A return that is no Outcome.
unfoldable pub of_object : Semantics → String → Outcome
of_object at_least_once cls = retry_with none (slice_to 100 (append "handler_returned_" cls)) ""
of_object at_most_once cls =
    unknown_with (("returned", text cls) ∷ []) (slice_to 100 (append "handler_returned_" cls)) ""

unfoldable pub of_answer : (String → String) → Semantics → Answer → Outcome
unfolding of_exception of_object
of_answer scrub semantics (outcome o) = o
of_answer scrub semantics not_configured = skipped_with "not_configured"
of_answer scrub semantics (raised cls message soft_limit exc) =
    of_exception semantics (slice_to 100 cls) (scrubbed scrub message) soft_limit exc
of_answer scrub semantics (other_object cls) = of_object semantics cls

unfoldable pub deliver : (String → String) → List Topic → Claim → Result Exc Outcome
deliver scrub topics claimed = do
  spec ← topic_of topics claimed.topic
  ok (of_answer scrub spec.semantics (spec.handler (delivery_of claimed)))
