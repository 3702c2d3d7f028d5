-- ===== src/Outbox/Enqueue.antt =====
-- enqueue() of backend/core/outbox/service.py: the message is owed in the caller's transaction.
-- The table's ON CONFLICT DO NOTHING is the test on `dedupe_key`; `on_commit` lists the topics of
-- the drain kicks that run after the commit. `delay` is in microseconds.
use django_base_x.Prelude.{
  ℕ, ◌+◌, String, Bool, false, ◌||◌, not, none, List, [], ◌∷◌, ◌++◌, ltb, ◌==◌, str_eq, is_empty,
  chars, if◌then◌else◌, any_where, all_where,
}
use django_base_x.Prelude.Result.{Result, ok, err, ◌>>=◌}
use django_base_x.Errors.{Exc, value_error, type_error, runtime_error}
use django_base_x.Values.{Value, Key, str, other, Details, is_primitive}
use django_base_x.Outbox.Message.{Message, Db, Topic, Status, topic_of, policy_of}

-- One connection: its database, whether it is in an atomic block, and its run_on_commit kicks.
pub record Connection : Type 0 where
  pub db : Db
  pub in_atomic_block : Bool
  pub on_commit : List String

-- isinstance(key, str) and isinstance(value, PRIMITIVES)
unfoldable pub is_payload_item : Key × Value → Bool
unfolding is_primitive
is_payload_item (str k, v) = is_primitive v
is_payload_item (other k, v) = false

unfoldable pub payload_of : List (Key × Value) → Details
payload_of [] = []
payload_of ((str k, v) ∷ items) = (k, v) ∷ payload_of items
payload_of ((other k, v) ∷ items) = payload_of items

unfoldable pub new_message : Topic → ℕ → String → String → Details → ℕ → Message
new_message spec id topic dedupe_key payload due = record {
  id = id;
  topic = topic;
  dedupe_key = dedupe_key;
  payload = payload;
  status = Status.pending;
  attempts = 0;
  max_attempts = (policy_of spec).max_attempts;
  next_attempt_at = due;
  leased_until = none;
  locked_by = "";
  last_error_code = "";
  last_error_message = "";
  result_ref = "";
  sent_at = none;
}

-- bulk_create(..., ignore_conflicts=True)
unfoldable pub insert_message : Topic → String → String → Details → ℕ → Db → Db
insert_message spec topic dedupe_key payload due db =
    if any_where (λ m. str_eq m.dedupe_key dedupe_key) db.rows then db else record db {
      rows = db.rows ++ (new_message spec db.next_id topic dedupe_key payload due ∷ []);
      next_id = db.next_id + 1;
    }

unfoldable pub kick_after_commit : String → List String → List String
kick_after_commit topic kicks =
    if any_where (λ k. str_eq k topic) kicks then kicks else kicks ++ (topic ∷ [])

unfoldable pub enqueue :
    List Topic → String → String → List (Key × Value) → ℕ → ℕ → Connection → Result Exc Connection
enqueue topics topic dedupe_key payload delay now c =
    if not c.in_atomic_block then err runtime_error else do
      spec ← topic_of topics topic
      if is_empty dedupe_key || ltb 255 (chars dedupe_key)
          then err value_error
          else if not (all_where is_payload_item payload)
          then err type_error
          else ok (record c {
            db = insert_message spec topic dedupe_key (payload_of payload) (now + delay) c.db;
            on_commit = if delay == 0 then kick_after_commit topic c.on_commit else c.on_commit;
          })
