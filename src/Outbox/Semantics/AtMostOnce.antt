-- ===== src/Outbox/Semantics/AtMostOnce.antt =====
-- deliver followed by settle, of backend/core/outbox/service.py, for an at_most_once topic.
use django_base_x.Prelude.{
  ℕ, ◌+◌, String, Bool, true, false, ◌&&◌, List, [], ◌∷◌, ◌≡◌, refl, sym, subst, arith, any_where,
  count_where, update_where, str_eq, ◌==◌, count_where-update_where,
}
use django_base_x.Prelude.Result.{ok}
use django_base_x.Findings.{FindingKind}
use django_base_x.Findings.Unique.{IsUnique}
use django_base_x.Outbox.Outcome.{Outcome, OutcomeStatus}
use django_base_x.Outbox.Message.{
  Message, Db, Topic, Status, at_most_once, Answer, outcome, other_object, not_configured, raised,
  topic_of, is_leased, is_waiting, is_unknown, unknown_kind,
}
use django_base_x.Outbox.Claim.{Claim}
use django_base_x.Outbox.Deliver.{delivery_of, deliver}
use django_base_x.Outbox.Settle.{plan, is_held, with_error, settle, ended}
use django_base_x.Outbox.Semantics.Delivering.{Becomes, deliver_semantics}
use django_base_x.Outbox.Semantics.Settling.{KindsOk, open_about, settle_held}

module _ {A : Type 0} where
  count_where-update_where_into :
      (q p : A → Bool) (f : A → A)
      → ((x : A) → p x ≡ true → (q x ≡ false) × (q (f x) ≡ true))
      → (xs : List A) → count_where q (update_where p f xs) ≡ count_where q xs + count_where p xs
  unfolding count_where update_where
  count_where-update_where_into q p f into [] = refl
  count_where-update_where_into q p f into (x ∷ xs) =
      ground (arith, into x, count_where-update_where_into q p f into xs)

-- The call did not end with an Outcome: it raised, or returned something else.
unfoldable pub IsCutOff : Answer → Type 0
IsCutOff (outcome own) = ⊥
IsCutOff not_configured = ⊥
IsCutOff (raised cls message soft exc) = Unit
IsCutOff (other_object cls) = Unit

Becomes-unknown :
    (a : Answer) (o : Outcome)
    → IsCutOff a
    → Becomes at_most_once a o
    → o.status ≡ OutcomeStatus.unknown
unfolding Becomes IsCutOff
Becomes-unknown (outcome own) o cut b = elim cut [ ]
Becomes-unknown not_configured o cut b = elim cut [ ]
Becomes-unknown (raised cls message soft exc) o cut b = b
Becomes-unknown (other_object cls) o cut b = b

plan-unknown :
    (scrub : String → String) (rand : ℕ → ℕ) (spec : Topic) (c : Claim) (o : Outcome) (now : ℕ)
    → o.status ≡ OutcomeStatus.unknown
    → plan scrub rand spec c o now o.status
      ≡ ok (record { status = Status.unknown; write = with_error scrub o Status.unknown })
unfolding plan
plan-unknown scrub rand spec c o now e =
    subst
      (λ s.
        plan scrub rand spec c o now s
        ≡ ok (record { status = Status.unknown; write = with_error scrub o Status.unknown }))
      (sym e) refl

leased_apart : (s : Status) → is_leased s ≡ true → (is_unknown s ≡ false) × (is_waiting s ≡ false)
leased_apart Status.leased e = (refl, refl)
leased_apart _ e = absurd (cc)

-- The row is leased under the claim's token.
abbrev pub is_leased_under : Claim → Message → Bool
is_leased_under c m = m.id == c.id && (str_eq m.locked_by c.token && is_leased m.status)

is_held-apart :
    (c : Claim) (m : Message)
    → is_held c m ≡ true
    → (is_unknown m.status ≡ false) × (is_waiting m.status ≡ false)
unfolding is_held
is_held-apart c m e = leased_apart m.status (ground (arith, e))

module _ (scrub : String → String) (rand : ℕ → ℕ) (kinds : List FindingKind) (known : KindsOk kinds)
    (topics : List Topic) (c : Claim) (spec : Topic) where
  -- When the handler of an at_most_once topic raises, or returns no Outcome, settling what
  -- `deliver` makes of it under a live lease ends in `unknown`: just the rows leased under the
  -- claim's token become `unknown`, no row becomes eligible for another attempt, and exactly one
  -- unknown finding about the message is open.
  pub deliver-settle :
      (now : ℕ) (db : Db)
      → topic_of topics c.topic ≡ ok spec
      → spec.semantics ≡ at_most_once
      → IsCutOff (spec.handler (delivery_of c))
      → IsUnique db.findings
      → any_where (is_leased_under c) db.rows ≡ true
      → (o : Outcome) × (db' : Db) × (deliver scrub topics c ≡ ok o)
        × (settle scrub rand kinds topics c o now db ≡ ok (ended Status.unknown, db'))
        × (count_where (λ m. is_unknown m.status) db'.rows
            ≡ count_where (λ m. is_unknown m.status) db.rows
              + count_where (is_leased_under c) db.rows)
        × (count_where (λ m. is_waiting m.status) db'.rows
            ≡ count_where (λ m. is_waiting m.status) db.rows)
        × (open_about unknown_kind c.id db'.findings ≡ 1)
  unfolding is_held with_error
  deliver-settle now db reg once cut unique held =
      let (o, delivered, becomes) = deliver_semantics scrub topics c spec reg in
      let is_unknown_ =
        Becomes-unknown (spec.handler (delivery_of c)) o cut
          (subst (λ s. Becomes s (spec.handler (delivery_of c)) o) once becomes) in
      let written = with_error scrub o Status.unknown in
      let (db', settled, rows, seen) =
        settle_held scrub kinds known c o now rand topics spec
          (record { status = Status.unknown; write = written }) db reg
          (plan-unknown scrub rand spec c o now is_unknown_) unique held in
      (
        o,
        db',
        delivered,
        settled,
        rw rows (
            count_where-update_where_into (λ m. is_unknown m.status) (is_held c) written
              (λ m e. ((is_held-apart c m e).0, refl)) db.rows),
        rw rows (
            count_where-update_where (λ m. is_waiting m.status) (is_held c) written
              (λ m e. sym (is_held-apart c m e).1) db.rows),
        seen,
      )
