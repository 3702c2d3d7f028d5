-- ===== src/Outbox/Drain.antt =====
-- drain() of backend/core/outbox/service.py: claim, send, settle, one message at a time.
-- The world is a set of readings, one for each round: the monotonic clock, the wall clock, the stop
-- request, the lease tokens of the round, and what other transactions commit during the claim
-- (`others`) and during the send (`meanwhile`). Each round commits, so an exception comes back
-- beside the database that it left.
use django_base_x.Prelude.{
  ℕ, zero, suc, ◌+◌, String, Bool, true, false, ◌&&◌, not, Option, none, some, List, [], ◌∷◌, ltb,
  str_eq, map, first_where,
}
use django_base_x.Prelude.Result.{Result, ok, err, ◌>>=◌}
use django_base_x.Errors.{Exc}
use django_base_x.Jobs.Retry.{seconds}
use django_base_x.Findings.{FindingKind}
use django_base_x.Outbox.Message.{Db, Topic}
use django_base_x.Outbox.Claim.{Claim, claim}
use django_base_x.Outbox.Deliver.{deliver}
use django_base_x.Outbox.Settle.{settle}

abbrev pub drain_budget : ℕ
drain_budget = seconds 120

pub record World : Type 0 where
  pub clock : ℕ → ℕ
  pub now : ℕ → ℕ
  pub stop_requested : ℕ → Bool
  pub tokens : ℕ → ℕ → String
  pub others : ℕ → ℕ → Db → Db
  pub meanwhile : ℕ → Db → Db

-- What the code around the outbox supplies.
pub record Setup : Type 0 where
  pub scrub : String → String
  pub rand : ℕ → ℕ
  pub kinds : List FindingKind
  pub topics : List Topic

-- deliver, then settle: the outcome's code says whether the worker asked us to stop
unfoldable pub send : Setup → World → ℕ → Claim → Db → Result Exc (Bool × Db)
send s w round claimed db = do
  outcome ← deliver s.scrub s.topics claimed
  (settled, db') ←
      settle s.scrub s.rand s.kinds s.topics claimed outcome (w.now round) (w.meanwhile round db)
  ok (str_eq outcome.code "SoftTimeLimitExceeded", db')

-- `left` is limit - done.
unfoldable pub drain_loop : Setup → World → List String → ℕ → ℕ → ℕ → Db → Result Exc ℕ × Db
drain_loop s w names deadline zero done db = (ok done, db)
drain_loop s w names deadline (suc left) done db =
    elim (ltb (w.clock done) deadline && not (w.stop_requested done)) [
      | false ↦ (ok done, db)
      | true ↦ elim (claim s.topics names (w.now done) (w.tokens done) (w.others done) db) [
        | err e ↦ (err e, db)
        | ok (none, db') ↦ (ok done, db')
        | ok (some claimed, db') ↦ elim (send s w done claimed db') [
          | err e ↦ (err e, w.meanwhile done db')
          | ok (true, settled) ↦ (ok (suc done), settled)
          | ok (false, settled) ↦ drain_loop s w names deadline left (suc done) settled
        ]
      ]
    ]

abbrev pub batch_limit : List Topic → ℕ
batch_limit [] = 0
batch_limit (t ∷ ts) = t.batch_size + batch_limit ts

-- Without a topic every registered one is drained, else that one.
unfoldable pub selected_topics : List Topic → Option String → List Topic
selected_topics topics none = topics
selected_topics topics (some name) = elim (first_where (λ t. str_eq t.topic name) topics) [
  | none ↦ []
  | some t ↦ t ∷ []
]

unfoldable pub drain : Setup → World → ℕ → Option String → Db → Result Exc ℕ × Db
drain s w start topic db =
    let selected = selected_topics s.topics topic in
    drain_loop s w (map (λ (t : Topic). t.topic) selected) (start + drain_budget)
      (batch_limit selected) 0 db
