-- ===== src/Outbox/Semantics/Owing.antt =====
-- enqueue of backend/core/outbox/service.py: when it is refused, and what a second one does.
use django_base_x.Prelude.{
  ℕ, ◌+◌, ◌≤◌, ◌≡◌, ap, sym, ◌∙◌, ◌↔◌, String, true, false, List, arith, ◌==◌, str_eq, eq_iff,
  is_empty, chars, inl, inr, Bool-cases, any_where, all_where, count_where, count_where-snoc,
  any_where-count_where, any_where-count_where_pos, if◌then◌else◌,
}
use django_base_x.Prelude.Result.{ok, Result-cases}
use django_base_x.Values.{Value, Key, Details}
use django_base_x.Outbox.Message.{Message, Db, Topic, topic_of}
use django_base_x.Outbox.Enqueue.{
  Connection, new_message, insert_message, kick_after_commit, enqueue, is_payload_item, payload_of,
}

-- How many messages of the table have a key.
abbrev pub owed : String → Db → ℕ
owed key db = count_where (λ m. str_eq m.dedupe_key key) db.rows

insert_message-one :
    (spec : Topic) (topic key : String) (payload : Details) (due : ℕ) (db : Db)
    → owed key db ≤ 1
    → owed key (insert_message spec topic key payload due db) ≡ 1
unfolding insert_message new_message
insert_message-one spec topic key payload due db h =
    let p = λ (m : Message). str_eq m.dedupe_key key in
    elim (Bool-cases (any_where p db.rows)) [
      | inl old ↦ rw old (omega (arith, h, any_where-count_where_pos p db.rows old))
      | inr new ↦ rw new (
          ground (
            arith,
            any_where-count_where p db.rows new,
            eq_iff key key,
            count_where-snoc p db.rows (new_message spec db.next_id topic key payload due),
          ))
    ]

insert_message_again :
    (spec other : Topic) (topic topic' key : String) (payload payload' : Details) (due due' : ℕ)
    (db : Db)
    → owed key db ≤ 1
    → let once = insert_message spec topic key payload due db in
      insert_message other topic' key payload' due' once ≡ once
insert_message_again spec other topic topic' key payload payload' due due' db h =
    let once = insert_message spec topic key payload due db in
    let p = λ (m : Message). str_eq m.dedupe_key key in
    let one = insert_message-one spec topic key payload due db h in
    elim (Bool-cases (any_where p once.rows)) [
      | inl old ↦ unfold insert_message in rw old
      | inr new ↦ absurd (omega (arith, one, any_where-count_where p once.rows new))
    ]

-- `enqueue` succeeds exactly inside a transaction, for a registered topic, under a dedupe key of 1
-- to 255 characters, with a payload of text keys and primitive values.
pub enqueue-ok_iff :
    (topics : List Topic) (topic key : String) (payload : List (Key × Value)) (delay now : ℕ)
    (c : Connection)
    → ((d : Connection) × (enqueue topics topic key payload delay now c ≡ ok d)) ↔ (
        (c.in_atomic_block ≡ true)
        × ((spec : Topic) × (topic_of topics topic ≡ ok spec))
        × (is_empty key ≡ false)
        × (chars key ≤ 255)
        × (all_where is_payload_item payload ≡ true))
unfolding enqueue
enqueue-ok_iff topics topic key payload delay now c = (
  λ made. elim (Result-cases (topic_of topics topic)) [
    | inr (x, bad) ↦ absurd (ground (arith, made.1, bad))
    | inl (spec, reg) ↦ (
      ground (arith, made.1, reg),
      (spec, reg),
      ground (arith, made.1, reg),
      ground (arith, made.1, reg),
      ground (arith, made.1, reg),
    )
  ],
  λ good.
      let (atomic, registered, named, short, plain_items) = good in
      (
        record c {
          db = insert_message registered.0 topic key (payload_of payload) (now + delay) c.db;
          on_commit = if delay == 0 then kick_after_commit topic c.on_commit else c.on_commit;
        },
        ground (arith, atomic, registered.1, named, short, plain_items),
      ),
)

-- After an `enqueue`, one message has its dedupe key; a later one of the same key, of whatever
-- topic, payload and time, changes nothing in the table.
pub enqueue_twice :
    (topics : List Topic) (topic topic' key : String) (payload payload' : List (Key × Value))
    (delay delay' now now' : ℕ) (c d e : Connection)
    → owed key c.db ≤ 1
    → enqueue topics topic key payload delay now c ≡ ok d
    → enqueue topics topic' key payload' delay' now' d ≡ ok e
    → (owed key d.db ≡ 1) × (e.db ≡ d.db)
unfolding enqueue
enqueue_twice topics topic topic' key payload payload' delay delay' now now' c d e h first second =
    elim (Result-cases (topic_of topics topic)) [
      | inr (x, bad) ↦ absurd (ground (arith, first, bad))
      | inl (spec, reg) ↦ elim (Result-cases (topic_of topics topic')) [
        | inr (x, bad) ↦ absurd (ground (arith, second, bad))
        | inl (spec', reg') ↦
            let ed : d.db ≡ insert_message spec topic key (payload_of payload) (now + delay) c.db =
              ground (arith, first, reg) in
            let ee : e.db
                ≡ insert_message spec' topic' key (payload_of payload') (now' + delay') d.db =
              ground (arith, second, reg') in
            (
              ap (owed key) ed
                  ∙ insert_message-one spec topic key (payload_of payload) (now + delay) c.db h,
              ee
                  ∙ ap
                      (λ (x : Db).
                        insert_message spec' topic' key (payload_of payload') (now' + delay') x)
                      ed
                  ∙ insert_message_again spec spec' topic topic' key (payload_of payload)
                      (payload_of payload') (now + delay) (now' + delay') c.db h
                  ∙ sym ed,
            )
      ]
    ]
