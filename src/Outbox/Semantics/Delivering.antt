-- ===== src/Outbox/Semantics/Delivering.antt =====
-- deliver of backend/core/outbox/service.py: what an answer becomes, by the semantics of the topic.
use django_base_x.Prelude.{◌≡◌, refl, ◌⊎◌, inl, inr, String, true, false, List, ◌||◌, Bool-cases}
use django_base_x.Prelude.Result.{ok}
use django_base_x.Jobs.Retry.{is_transient}
use django_base_x.Outbox.Outcome.{Outcome, OutcomeStatus}
use django_base_x.Outbox.Message.{
  Topic, Semantics, at_least_once, at_most_once, Answer, outcome, other_object, not_configured,
  raised, topic_of,
}
use django_base_x.Outbox.Claim.{Claim}
use django_base_x.Outbox.Deliver.{delivery_of, of_answer, deliver}

-- What the contract in deliver's comments promises of each answer: an Outcome is kept
-- as it is; a provider that is not configured is SKIPPED; after any other end of an at_most_once
-- call a human decides; an at_least_once one is tried again if it may pass, and else fails.
unfoldable pub Becomes : Semantics → Answer → Outcome → Type 0
Becomes semantics (outcome own) o = own ≡ o
Becomes semantics not_configured o = o.status ≡ OutcomeStatus.skipped
Becomes at_most_once (other_object cls) o = o.status ≡ OutcomeStatus.unknown
Becomes at_most_once (raised cls message soft exc) o = o.status ≡ OutcomeStatus.unknown
Becomes at_least_once (other_object cls) o = o.status ≡ OutcomeStatus.retry
Becomes at_least_once (raised cls message soft exc) o =
    ((o.status ≡ OutcomeStatus.retry) × ((soft || is_transient exc) ≡ true))
    ⊎ ((o.status ≡ OutcomeStatus.failed) × ((soft || is_transient exc) ≡ false))

of_answer-Becomes :
    (scrub : String → String) (semantics : Semantics) (a : Answer)
    → Becomes semantics a (of_answer scrub semantics a)
unfolding of_answer Becomes
of_answer-Becomes scrub semantics (outcome o) = refl
of_answer-Becomes scrub at_least_once not_configured = refl
of_answer-Becomes scrub at_most_once not_configured = refl
of_answer-Becomes scrub at_least_once (other_object cls) = refl
of_answer-Becomes scrub at_most_once (other_object cls) = refl
of_answer-Becomes scrub at_most_once (raised cls m soft exc) = refl
of_answer-Becomes scrub at_least_once (raised cls m soft exc) =
    elim (Bool-cases (soft || is_transient exc)) [
      | inl t ↦ inl (rw t refl, t)
      | inr f ↦ inr (rw f refl, f)
    ]

-- For a registered topic `deliver` returns. An Outcome of the handler is kept as it is, and
-- ProviderNotConfigured becomes SKIPPED. Any other exception and any other return become UNKNOWN
-- under at_most_once; under at_least_once a return that is no Outcome becomes RETRY, and an
-- exception becomes RETRY when it is transient or the soft time limit and FAILED otherwise.
pub deliver_semantics :
    (scrub : String → String) (topics : List Topic) (c : Claim) (spec : Topic)
    → topic_of topics c.topic ≡ ok spec
    → (o : Outcome) × (deliver scrub topics c ≡ ok o)
      × Becomes spec.semantics (spec.handler (delivery_of c)) o
unfolding deliver
deliver_semantics scrub topics c spec reg = (
  of_answer scrub spec.semantics (spec.handler (delivery_of c)),
  rw reg refl,
  of_answer-Becomes scrub spec.semantics (spec.handler (delivery_of c)),
)
