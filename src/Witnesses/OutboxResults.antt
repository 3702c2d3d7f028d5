-- ===== src/Witnesses/OutboxResults.antt =====
-- Results of sends and sweeps, on one row.
use django_base_x.Prelude.{
  ℕ, ◌+◌, ◌≤◌, ◌<◌, ◌≡◌, ◌≢◌, refl, ◌⊎◌, inl, inr, false, true, none, some, String, Option, List,
  [], ◌∷◌, arith, count_where, update_where, ◌==◌, ◌||◌,
}
use django_base_x.Prelude.Result.{ok}
use django_base_x.Findings.{FindingTable}
use django_base_x.Findings.Unique.{IsUnique}
use django_base_x.Outbox.Outcome.{Outcome, OutcomeStatus, sent_with, retry_with}
use django_base_x.Outbox.Message.{
  Message, Db, Status, policy_of, topic_of, unknown_kind, failed_kind, is_stale, is_unknown,
  is_waiting,
}
use django_base_x.Outbox.Deliver.{deliver}
use django_base_x.Outbox.Settle.{
  plan, is_held, is_parked_under, ended, with_sent, with_error, settle,
}
use django_base_x.Outbox.Recovery.{park, save_parked, recover_one}
use django_base_x.Outbox.Semantics.Settling.{KindsOk, open_about, settle_late_sent}
use django_base_x.Outbox.Semantics.Retrying.{settle_retry}
use django_base_x.Outbox.Semantics.Sweeping.{recover_unknown, recover_at_least_once}
use django_base_x.Outbox.Semantics.Delivering.{Becomes, deliver_semantics}
use django_base_x.Outbox.Semantics.AtMostOnce.{IsCutOff, deliver-settle}
use django_base_x.Outbox.Claim.{Claim}
use django_base_x.Witnesses.OutboxData.{
  example_kinds, example_topics, failed_spec, unknown_spec, mail, payment, no_findings, leased_row,
  db_of, holder,
}

known_kinds : KindsOk example_kinds
unfolding django_base_x.Findings.kind_of django_base_x.Prelude.first_where
known_kinds = record {
  failed = failed_spec;
  failed_known = refl;
  unknown = unknown_spec;
  unknown_known = refl;
}

pub none_open : IsUnique no_findings
unfolding count_where
none_open = record { at_most_one = λ k o i. omega arith }

mail_known : topic_of example_topics "mail" ≡ ok mail
unfolding topic_of django_base_x.Prelude.first_where
mail_known = refl

holds : is_held holder leased_row ≡ true
unfolding is_held
holds = refl

abbrev parked_row : Message
parked_row = park Status.unknown 100 leased_row

settle_late_sent_example :
    (db' : Db) × (settle
        (λ s. s)
        (λ n. n)
        example_kinds
        example_topics
        holder
        (sent_with "r")
        900
        (db_of parked_row)
      ≡ ok (ended Status.sent, db'))
    × (db'.rows
        ≡ update_where (is_parked_under holder) (with_sent (sent_with "r") 900) (parked_row ∷ []))
    × (open_about unknown_kind 1 db'.findings ≡ 0)
    × (open_about failed_kind 1 db'.findings ≡ 0)
unfolding plan django_base_x.Prelude.any_where is_held park is_parked_under
settle_late_sent_example =
    settle_late_sent (λ s. s) example_kinds known_kinds holder (sent_with "r") 900 (λ n. n)
      example_topics mail (record { status = Status.sent; write = with_sent (sent_with "r") 900 })
      (db_of parked_row) mail_known refl none_open refl refl refl

settle_retry_example :
    ((5 ≤ 1)
      × ((db' : Db) × (settle
              (λ s. s)
              (λ n. n)
              example_kinds
              example_topics
              holder
              (retry_with none "429" "")
              300
              (db_of leased_row)
            ≡ ok (ended Status.failed, db'))
          × (db'.rows
              ≡ update_where
                  (is_held holder)
                  (with_error (λ s. s) (retry_with none "429" "") Status.failed)
                  (leased_row ∷ []))
          × (open_about failed_kind 1 db'.findings ≡ 1)))
    ⊎ ((1 < 5)
        × ((d : ℕ) × (d ≤ (policy_of mail).cap)
            × ((db' : Db) × (settle
                    (λ s. s)
                    (λ n. n)
                    example_kinds
                    example_topics
                    holder
                    (retry_with none "429" "")
                    300
                    (db_of leased_row)
                  ≡ ok (ended Status.retry, db'))
                × (db'.rows
                    ≡ update_where
                        (is_held holder)
                        (λ m.
                          record (with_error (λ s. s) (retry_with none "429" "") Status.retry m) {
                            next_attempt_at = 300 + d;
                          })
                        (leased_row ∷ []))
                × (db'.findings ≡ no_findings))))
unfolding policy_of django_base_x.Prelude.any_where is_held
settle_retry_example =
    settle_retry (λ s. s) (λ n. n) example_kinds known_kinds example_topics mail holder
      (retry_with none "429" "") 300 (db_of leased_row) (λ n. omega arith) mail_known (omega arith)
      (omega arith) (omega arith) refl none_open refl

abbrev stale_payment : Message
stale_payment = record leased_row { topic = "payment" }

recover_unknown_example :
    (db' : Db) × (recover_one (λ n. n) example_kinds example_topics 900 1 (db_of stale_payment)
      ≡ ok (true, db'))
    × (db'.rows ≡ update_where (λ m. m.id == 1) (park Status.unknown 100) (stale_payment ∷ []))
    × (open_about unknown_kind 1 db'.findings ≡ 1)
unfolding django_base_x.Prelude.first_where is_stale
recover_unknown_example =
    recover_unknown (λ n. n) example_kinds known_kinds example_topics 900 1 stale_payment
      (db_of stale_payment) none_open refl (inr (payment, refl, refl))

recover_at_least_once_example :
    ((5 ≤ 1)
      × ((db' : Db) × (recover_one (λ n. n) example_kinds example_topics 900 1 (db_of leased_row)
            ≡ ok (true, db'))
          × (db'.rows ≡ update_where (λ m. m.id == 1) (park Status.failed 100) (leased_row ∷ []))
          × (open_about failed_kind 1 db'.findings ≡ 1)))
    ⊎ ((1 < 5)
        × ((d : ℕ) × (d ≤ (policy_of mail).cap)
            × (recover_one (λ n. n) example_kinds example_topics 900 1 (db_of leased_row)
                ≡ ok (true, save_parked leased_row Status.retry (900 + d) (db_of leased_row)))))
unfolding policy_of django_base_x.Prelude.first_where is_stale
recover_at_least_once_example =
    recover_at_least_once (λ n. n) example_kinds known_kinds example_topics 900 1 leased_row
      (db_of leased_row) none_open refl mail refl refl (λ n. omega arith) (omega arith)
      (omega arith) (omega arith)

abbrev payer : Claim
payer = record holder { topic = "payment" }

payment_known : topic_of example_topics "payment" ≡ ok payment
unfolding topic_of django_base_x.Prelude.first_where
payment_known = refl

deliver_semantics_example :
    (o : Outcome) × (deliver (λ s. s) example_topics payer ≡ ok o)
    × (o.status ≡ OutcomeStatus.unknown)
unfolding Becomes
deliver_semantics_example = deliver_semantics (λ s. s) example_topics payer payment payment_known

deliver-settle_example :
    (o : Outcome) × (db' : Db) × (deliver (λ s. s) example_topics payer ≡ ok o)
    × (settle (λ s. s) (λ n. n) example_kinds example_topics payer o 300 (db_of stale_payment)
        ≡ ok (ended Status.unknown, db'))
    × (count_where (λ m. is_unknown m.status) db'.rows ≡ 1)
    × (count_where (λ m. is_waiting m.status) db'.rows ≡ 0)
    × (open_about unknown_kind 1 db'.findings ≡ 1)
unfolding count_where IsCutOff django_base_x.Prelude.any_where
deliver-settle_example =
    deliver-settle (λ s. s) (λ n. n) example_kinds known_kinds example_topics payer payment 300
      (db_of stale_payment) payment_known refl tt none_open refl
