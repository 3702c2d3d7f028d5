-- ===== src/Witnesses/OutboxOwing.antt =====
-- enqueue, twice.
use django_base_x.Prelude.{
  ℕ, false, ◌≤◌, ◌≡◌, ◌↔◌, refl, true, false, String, [], ◌∷◌, arith, count_where, str_eq, is_empty,
  chars, ltb, all_where,
}
use django_base_x.Prelude.Result.{ok}
use django_base_x.Outbox.Enqueue.{Connection, enqueue, is_payload_item}
use django_base_x.Outbox.Semantics.Owing.{owed, enqueue_twice, enqueue-ok_iff}
use django_base_x.Outbox.Message.{Topic, topic_of}
use django_base_x.Witnesses.OutboxData.{example_topics, open_block, queued_block}

first_time : enqueue example_topics "mail" "mail:7:1" [] 0 100 open_block ≡ ok queued_block
unfolding enqueue django_base_x.Outbox.Message.topic_of django_base_x.Prelude.first_where all_where
    django_base_x.Outbox.Enqueue.insert_message django_base_x.Outbox.Enqueue.kick_after_commit
    django_base_x.Prelude.any_where django_base_x.Outbox.Enqueue.new_message
    django_base_x.Outbox.Enqueue.payload_of django_base_x.Outbox.Message.policy_of
first_time = refl

second_time : enqueue example_topics "webhook" "mail:7:1" [] 5 900 queued_block ≡ ok queued_block
unfolding enqueue django_base_x.Outbox.Message.topic_of django_base_x.Prelude.first_where all_where
    django_base_x.Outbox.Enqueue.insert_message django_base_x.Prelude.any_where
second_time = refl

enqueue_twice_example : (owed "mail:7:1" queued_block.db ≡ 1) × (queued_block.db ≡ queued_block.db)
unfolding count_where
enqueue_twice_example =
    enqueue_twice example_topics "mail" "webhook" "mail:7:1" [] [] 0 5 100 900 open_block
      queued_block queued_block (omega arith) first_time second_time

enqueue-ok_iff_example :
    ((d : Connection) × (enqueue example_topics "mail" "mail:7:1" [] 0 100 open_block ≡ ok d)) ↔ (
      (true ≡ true)
      × ((spec : Topic) × (topic_of example_topics "mail" ≡ ok spec))
      × (is_empty "mail:7:1" ≡ false)
      × (chars "mail:7:1" ≤ 255)
      × (all_where is_payload_item [] ≡ true))
enqueue-ok_iff_example = enqueue-ok_iff example_topics "mail" "mail:7:1" [] 0 100 open_block
