-- ===== src/Outbox/Preserve/Enqueue.antt =====
-- enqueue of backend/core/outbox/service.py, as a transaction of the system.
use django_base_x.Prelude.{
  ℕ, ◌+◌, ◌≤◌, ◌<◌, ◌≡◌, refl, subst, String, true, false, List, [], ◌∷◌, ◌++◌, arith, ◌==◌, str_eq,
  eq_iff, Bool-cases, first_where, All, All-impl, All-append, any_where, count_where,
  count_where-snoc, any_where-count_where, All-count_where_zero, first_where-some, Option-cases,
  inl, inr,
}
use django_base_x.Prelude.Result.{ok, Result-cases}
use django_base_x.Values.{Value, Key, Details}
use django_base_x.Outbox.Message.{Message, Topic, topic_of, policy_of}
use django_base_x.Outbox.Enqueue.{Connection, new_message, insert_message, enqueue, payload_of}
use django_base_x.Outbox.Claim.{Claim}
use django_base_x.Outbox.Invariant.{RowOk, Fits}
use django_base_x.Outbox.Moves.{Good, Moves-refl, Moves-append}
use django_base_x.Outbox.Sound.{System, Sound, Fits-of_unleased}

-- RetryPolicy.__post_init__ refuses a policy of no attempt.
abbrev pub TopicOk : Topic → Type 0
TopicOk t = 1 ≤ (policy_of t).max_attempts

pub topic_of-TopicOk :
    (topics : List Topic) (name : String) (spec : Topic)
    → All TopicOk topics
    → topic_of topics name ≡ ok spec
    → TopicOk spec
unfolding topic_of
topic_of-TopicOk topics name spec h e =
    elim (Option-cases (first_where (λ t. str_eq t.topic name) topics)) [
      | inl n ↦ absurd (ground (arith, e, n))
      | inr (found, f) ↦
          let same : found ≡ spec = ground (arith, e, f) in
          subst TopicOk same
            (first_where-some TopicOk (λ t. str_eq t.topic name) topics found h f).0
    ]

-- A key that no row has, and one that a row has, differ.
no_row_below : (k : ℕ) (n : ℕ) (m : Message) → m.id < n → (n == k) ≡ true → (m.id == k) ≡ false
no_row_below k n m h e = ground arith

module _ (spec : Topic) (topic key : String) (payload : Details) (due : ℕ) where
  new_message-RowOk : (id : ℕ) → TopicOk spec → RowOk (new_message spec id topic key payload due)
  unfolding new_message
  new_message-RowOk id h = ground arith

  module _ (s : System) (h : Sound s)
      (new : any_where (λ m. str_eq m.dedupe_key key) s.db.rows ≡ false) where
    rows_with : List Message
    rows_with = s.db.rows ++ (new_message spec s.db.next_id topic key payload due ∷ [])

    ids_with : (k : ℕ) → count_where (λ m. m.id == k) rows_with ≤ 1
    unfolding rows_with new_message
    ids_with k =
        let p = λ (m : Message). m.id == k in
        let more =
          count_where-snoc p s.db.rows (new_message spec s.db.next_id topic key payload due) in
        elim (Bool-cases (s.db.next_id == k)) [
          | inl same ↦
              let no_old : count_where p s.db.rows ≡ 0 = All-count_where_zero p s.db.rows (
                All-impl (λ m. m.id < s.db.next_id) (λ m. p m ≡ false)
                  (λ m lt. no_row_below k s.db.next_id m lt same) s.db.rows h.below) in
              ground (arith, more, no_old, same)
          | inr other ↦ ground (arith, more, other, h.ids k)
        ]

    keys_with : (k : String) → count_where (λ m. str_eq m.dedupe_key k) rows_with ≤ 1
    unfolding rows_with new_message
    keys_with k =
        let p = λ (m : Message). str_eq m.dedupe_key k in
        let more =
          count_where-snoc p s.db.rows (new_message spec s.db.next_id topic key payload due) in
        elim (Bool-cases (str_eq key k)) [
          | inl same ↦
              let e : key ≡ k = (eq_iff key k).0 same in
              let no_old : count_where p s.db.rows ≡ 0 =
                rw (← e) (any_where-count_where (λ m. str_eq m.dedupe_key key) s.db.rows new) in
              ground (arith, more, no_old, same)
          | inr other ↦ ground (arith, more, other, h.keys k)
        ]

    Fits-with : (c : Claim) → All (Fits c) s.db.rows → All (Fits c) rows_with
    unfolding rows_with
    Fits-with c old =
        let m = new_message spec s.db.next_id topic key payload due in
        All-append (Fits c) s.db.rows (m ∷ []) old
          (unfold new_message in Fits-of_unleased c m refl, tt)

    below_with : All (λ m. m.id < s.db.next_id + 1) rows_with
    unfolding rows_with new_message
    below_with =
        All-append (λ m. m.id < s.db.next_id + 1) s.db.rows _
          (All-impl (λ m. m.id < s.db.next_id) (λ m. m.id < s.db.next_id + 1) (λ m lt. omega arith)
            s.db.rows h.below)
          (omega arith, tt)

  insert_message-Good :
      (s : System)
      → TopicOk spec
      → Sound s
      → Good s (insert_message spec topic key payload due s.db)
  unfolding insert_message rows_with
  insert_message-Good s ok_spec h =
      elim (Bool-cases (any_where (λ m. str_eq m.dedupe_key key) s.db.rows)) [
        | inl old ↦ rw old (record { sound = h; moves = Moves-refl s.db.rows })
        | inr new ↦ rw new (record {
          moves = Moves-append s.db.rows _;
          sound = record {
            rows_ok =
                All-append RowOk s.db.rows _ h.rows_ok (new_message-RowOk s.db.next_id ok_spec, tt);
            fits =
                All-impl (λ c. All (Fits c) s.db.rows) (λ c. All (Fits c) (rows_with s h new))
                  (Fits-with s h new) s.claims h.fits;
            below = below_with s h new;
            ids = ids_with s h new;
            keys = keys_with s h new;
            one_open = h.one_open;
          };
        })
      ]

-- A successful enqueue keeps the system sound and every row.
pub enqueue-Good :
    (topics : List Topic) (topic key : String) (payload : List (Key × Value)) (delay now : ℕ)
    (c d : Connection) (claims : List Claim)
    → All TopicOk topics
    → Sound (record { db = c.db; claims = claims })
    → enqueue topics topic key payload delay now c ≡ ok d
    → Good (record { db = c.db; claims = claims }) d.db
unfolding enqueue
enqueue-Good topics topic key payload delay now c d claims valid h e =
    elim (Result-cases (topic_of topics topic)) [
      | inr (x, bad) ↦ absurd (ground (arith, e, bad))
      | inl (spec, reg) ↦
          let same : insert_message spec topic key (payload_of payload) (now + delay) c.db ≡ d.db =
            ground (arith, e, reg) in
          subst (Good (record { db = c.db; claims = claims })) same (
            insert_message-Good spec topic key (payload_of payload) (now + delay)
              (record { db = c.db; claims = claims }) (topic_of-TopicOk topics topic spec valid reg)
              h)
    ]
