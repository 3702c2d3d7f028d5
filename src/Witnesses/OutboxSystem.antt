-- ===== src/Witnesses/OutboxSystem.antt =====
-- Runs of the whole outbox.
use django_base_x.Prelude.{ℕ, ◌≡◌, refl, true, none, some, [], ◌∷◌, All, arith}
use mathlib.Core.List.{Memᴰ}
use django_base_x.Prelude.Result.{ok}
use django_base_x.Outbox.Enqueue.{Connection, enqueue}
use django_base_x.Outbox.Claim.{Claim, stamp_row, claim, stamp}
use django_base_x.Outbox.Message.{Db, Message, Status, policy_of}
use django_base_x.Outbox.Outcome.{sent_with}
use django_base_x.Outbox.Settle.{settle, ended, with_sent}
use django_base_x.Outbox.Steps.{Step, Reach, Reach-Sound, Step-Moves, Run, Run-final, empty_system}
use django_base_x.Outbox.Preserve.Enqueue.{TopicOk}
use django_base_x.Outbox.Exclusive.{Owns, claim-Owns}
use django_base_x.Outbox.Moves.{Moves}
use django_base_x.Outbox.Sound.{System, Sound}
use django_base_x.Witnesses.OutboxData.{
  example_kinds, example_setup, example_topics, queued, open_block, queued_block, waiting_row,
  leased_row, holder, db_of,
}

example_valid : All TopicOk example_setup.topics
unfolding policy_of
example_valid = (omega arith, (omega arith, (omega arith, tt)))

first_enqueue : enqueue example_topics "mail" "mail:7:1" [] 0 100 open_block ≡ ok queued_block
unfolding enqueue django_base_x.Outbox.Message.topic_of django_base_x.Prelude.first_where
    django_base_x.Prelude.all_where django_base_x.Outbox.Enqueue.insert_message
    django_base_x.Outbox.Enqueue.kick_after_commit django_base_x.Prelude.any_where
    django_base_x.Outbox.Enqueue.new_message django_base_x.Outbox.Enqueue.payload_of policy_of
first_enqueue = refl

owing : Step example_setup empty_system queued
owing = Step.enqueued "mail" "mail:7:1" [] 0 100 open_block queued_block first_enqueue refl refl

abbrev taken : System
taken = record { db = db_of (stamp 500 "host:1:aa" waiting_row); claims = holder ∷ [] }

first_stamp : stamp_row waiting_row "host:1:aa" 500 queued.db ≡ ok (some (holder, taken.db))
unfolding stamp_row django_base_x.Prelude.any_where django_base_x.Outbox.Claim.is_stampable
    django_base_x.Prelude.first_where django_base_x.Prelude.update_where stamp
    django_base_x.Outbox.Claim.claim_of
first_stamp = refl

taking : Step example_setup queued taken
taking =
    Step.stamped waiting_row "host:1:aa" 500 holder (db_of (stamp 500 "host:1:aa" waiting_row)) tt
      first_stamp refl

Reach-Sound_example : Sound taken
Reach-Sound_example =
    Reach-Sound example_setup taken example_valid (Reach.next (Reach.next Reach.start owing) taking)

Step-Moves_example : Moves queued.db.rows taken.db.rows
Step-Moves_example =
    Step-Moves example_setup queued taken example_valid (Reach.next Reach.start owing) taking

abbrev pub sent_row : Message
sent_row = record leased_row {
  status = Status.sent;
  leased_until = none;
  sent_at = some 300;
  result_ref = "ref";
}

abbrev delivered : System
delivered = record { db = db_of sent_row; claims = holder ∷ [] }

first_settle :
    settle (λ s. s) (λ n. n) example_kinds example_topics holder (sent_with "ref") 300 taken.db
    ≡ ok (ended Status.sent, delivered.db)
unfolding settle django_base_x.Outbox.Message.topic_of django_base_x.Prelude.first_where
    django_base_x.Outbox.Settle.plan django_base_x.Prelude.any_where
    django_base_x.Outbox.Settle.is_held stamp django_base_x.Outbox.Settle.open_for
    django_base_x.Prelude.update_where django_base_x.Prelude.slice_to
first_settle = refl

settling : Step example_setup taken delivered
settling =
    Step.settled holder (sent_with "ref") 300 (ended Status.sent) delivered.db (Memᴰ.head refl)
      first_settle refl

abbrev delivered_block : Connection
delivered_block = record { db = delivered.db; in_atomic_block = true; on_commit = "mail" ∷ [] }

another_enqueue :
    enqueue example_topics "mail" "mail:7:1" [] 0 900 delivered_block ≡ ok delivered_block
unfolding enqueue django_base_x.Outbox.Message.topic_of django_base_x.Prelude.first_where
    django_base_x.Prelude.all_where django_base_x.Outbox.Enqueue.insert_message
    django_base_x.Outbox.Enqueue.kick_after_commit django_base_x.Prelude.any_where
another_enqueue = refl

repeating : Step example_setup delivered delivered
repeating =
    Step.enqueued "mail" "mail:7:1" [] 0 900 delivered_block delivered_block another_enqueue refl
      refl

Run-final_example : Memᴰ sent_row delivered.db.rows
Run-final_example =
    Run-final example_setup delivered delivered sent_row example_valid
      (Reach.next (Reach.next (Reach.next Reach.start owing) taking) settling)
      (Run.then_step Run.stay repeating) refl (Memᴰ.head refl)

queued-Sound : Sound queued
queued-Sound = Reach-Sound example_setup queued example_valid (Reach.next Reach.start owing)

first_claim :
    claim example_topics ("mail" ∷ []) 200 (λ k. "host:1:aa") (λ k d. d) queued.db
    ≡ ok (some holder, db_of (stamp 60000200 "host:1:aa" waiting_row))
unfolding claim django_base_x.Outbox.Claim.claim_loop django_base_x.Outbox.Claim.candidate
    django_base_x.Prelude.least_by django_base_x.Prelude.filter_by
    django_base_x.Outbox.Claim.is_candidate django_base_x.Outbox.Message.is_due
    django_base_x.Prelude.any_where django_base_x.Outbox.Message.topic_of
    django_base_x.Prelude.first_where stamp_row django_base_x.Outbox.Claim.is_stampable
    django_base_x.Prelude.update_where stamp django_base_x.Outbox.Claim.claim_of
first_claim = refl

claim-Owns_example :
    Sound (record { db = db_of (stamp 60000200 "host:1:aa" waiting_row); claims = holder ∷ [] })
    × Owns holder [] (stamp 60000200 "host:1:aa" waiting_row ∷ [])
claim-Owns_example =
    claim-Owns example_topics ("mail" ∷ []) 200 (λ k. "host:1:aa") (λ k d. d) [] (λ n. tt)
      (λ n d h. h) queued.db (db_of (stamp 60000200 "host:1:aa" waiting_row)) holder queued-Sound
      first_claim
