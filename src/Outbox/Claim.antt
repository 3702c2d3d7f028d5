-- ===== src/Outbox/Claim.antt =====
-- claim() of backend/core/outbox/service.py: lease one due message by compare-and-set.
-- `tokens` gives the lease token drawn in each round, and `others` what other transactions commit
-- in that round between the read of the candidate and the stamp (nothing, where the engine has
-- the row lock). Rounds count down from CLAIM_RACE_RETRIES.
use django_base_x.Prelude.{
  ℕ, zero, suc, ◌+◌, String, Bool, ◌&&◌, ◌||◌, not, Option, none, some, List, [], ◌∷◌, ◌++◌, ltb,
  ◌==◌, str_eq, if◌then◌else◌, any_where, first_where, filter_by, least_by, update_where,
}
use django_base_x.Prelude.Result.{Result, ok, err, ◌>>=◌}
use django_base_x.Errors.{Exc, does_not_exist}
use django_base_x.Values.{Details}
use django_base_x.Jobs.Retry.{seconds}
use django_base_x.Outbox.Message.{Message, Db, Topic, Status, topic_of, is_waiting, is_due}

pub record Claim : Type 0 where
  pub id : ℕ
  pub token : String
  pub topic : String
  pub dedupe_key : String
  pub payload : Details
  pub attempt : ℕ
  pub max_attempts : ℕ

abbrev pub claim_race_retries : ℕ
claim_race_retries = 10

-- order_by("next_attempt_at", "id")
unfoldable pub precedes : Message → Message → Bool
precedes a b =
    ltb a.next_attempt_at b.next_attempt_at
    || (a.next_attempt_at == b.next_attempt_at && ltb a.id b.id)

unfoldable pub is_candidate : List String → ℕ → List ℕ → Message → Bool
is_candidate names now exclude m =
    is_due now m
    && (any_where (λ n. str_eq m.topic n) names && not (any_where (λ i. m.id == i) exclude))

-- The rows here are those that no other transaction has locked: SKIP LOCKED hides the rest.
unfoldable pub candidate : List String → ℕ → List ℕ → List Message → Option Message
candidate names now exclude rows =
    least_by precedes (filter_by (is_candidate names now exclude) rows)

-- filter(pk=row.pk, status__in=("pending", "retry"))
unfoldable pub is_stampable : ℕ → Message → Bool
is_stampable id m = m.id == id && is_waiting m.status

unfoldable pub stamp : ℕ → String → Message → Message
stamp until token m = record m {
  status = Status.leased;
  leased_until = some until;
  locked_by = token;
  attempts = m.attempts + 1;
}

-- The Claim of the row as it was read, with the attempts that the stamped row now has.
unfoldable pub claim_of : Message → String → Message → Claim
claim_of row token fresh = record {
  id = row.id;
  token = token;
  topic = row.topic;
  dedupe_key = row.dedupe_key;
  payload = row.payload;
  attempt = fresh.attempts;
  max_attempts = fresh.max_attempts;
}

-- The stamp and the read that follows it; `none` when the row is no longer waiting.
unfoldable pub stamp_row : Message → String → ℕ → Db → Result Exc (Option (Claim × Db))
stamp_row row token until db =
    let stamped = update_where (is_stampable row.id) (stamp until token) db.rows in
    if any_where (is_stampable row.id) db.rows
    then elim (first_where (λ m. m.id == row.id) stamped) [
      | some fresh ↦ ok (some (claim_of row token fresh, record db { rows = stamped }))
      | none ↦ err does_not_exist
    ]
    else ok none

unfoldable pub claim_loop :
    ℕ
    → List Topic
    → List String
    → ℕ
    → (ℕ → String)
    → (ℕ → Db → Db)
    → List ℕ
    → Db
    → Result Exc (Option Claim × Db)
claim_loop zero topics names now tokens others lost db = ok (none, db)
claim_loop (suc rounds) topics names now tokens others lost db =
    elim (candidate names now lost db.rows) [
      | none ↦ ok (none, db)
      | some row ↦ (do
        spec ← topic_of topics row.topic
        let until = now + seconds spec.lease_seconds
        stamped ← stamp_row row (tokens rounds) until (others rounds db)
        elim stamped [
          | some (claimed, db') ↦ ok (some claimed, db')
          | none ↦
              claim_loop rounds topics names now tokens others (lost ++ (row.id ∷ []))
                (others rounds db)
        ])
    ]

unfoldable pub claim :
    List Topic
    → List String
    → ℕ
    → (ℕ → String)
    → (ℕ → Db → Db)
    → Db
    → Result Exc (Option Claim × Db)
claim topics names now tokens others db =
    claim_loop claim_race_retries topics names now tokens others [] db
