-- ===== src/Outbox/Invariant.antt =====
-- A single outbox row between two transactions, under each update that the code makes.
use django_base_x.Prelude.{
  ℕ, ◌≤◌, ◌<◌, ◌≡◌, refl, ap, ◌∙◌, subst, String, Bool, true, false, Option, none, some, arith,
  is_some,
}
use django_base_x.Prelude.Int.{ℤ}
use django_base_x.Prelude.Result.{ok, >>=-eq-ok, ok-injective}
use django_base_x.Jobs.Retry.{new_policy, next_delay}
use django_base_x.Outbox.Outcome.{Outcome, OutcomeStatus, odd}
use django_base_x.Outbox.Message.{Message, Topic, Status, is_waiting, is_leased, row_delay}
use django_base_x.Outbox.Claim.{Claim, stamp}
use django_base_x.Outbox.Settle.{Plan, plan, with_sent, retry_plan, is_held}
use django_base_x.Outbox.Recovery.{park}
use django_base_x.Outbox.Resolve.{as_sent, as_resend}

abbrev pub is_sent : Status → Bool
is_sent Status.sent = true
is_sent _ = false

-- Attempts never pass the row's cap, and one is left while the row waits; a row has a lease exactly
-- while it is leased; a sent row says when.
pub record RowOk (m : Message) : Type 0 where
  pub capped : m.attempts ≤ m.max_attempts
  pub left : is_waiting m.status ≡ true → m.attempts < m.max_attempts
  pub lease : is_some m.leased_until ≡ is_leased m.status
  pub stamped : is_sent m.status ≡ true → is_some m.sent_at ≡ true

-- The claim of a drainer agrees with the row while the row is leased under its token.
abbrev pub Fits : Claim → Message → Type 0
Fits c m = is_held c m ≡ true → (m.attempts ≡ c.attempt) × (m.max_attempts ≡ c.max_attempts)

pub row_delay_left :
    (rand : ℕ → ℕ) (spec : Topic) (attempt max_attempts : ℕ) (after : Option ℤ) (d : ℕ)
    → row_delay rand spec attempt max_attempts after ≡ ok (some d)
    → attempt < max_attempts
unfolding row_delay new_policy next_delay
row_delay_left rand spec attempt max_attempts after d h = ground arith

pub stamp-RowOk :
    (until : ℕ) (token : String) {m : Message}
    → RowOk m
    → is_waiting m.status ≡ true
    → RowOk (stamp until token m)
unfolding stamp
stamp-RowOk until token {m} r w = ground arith

pub park-RowOk :
    (status : Status) (next : ℕ) {m : Message}
    → RowOk m
    → is_leased status ≡ false
    → is_sent status ≡ false
    → (is_waiting status ≡ true → m.attempts < m.max_attempts)
    → RowOk (park status next m)
unfolding park
park-RowOk status next {m} r a b c = ground arith

pub as_sent-RowOk : (now : ℕ) {m : Message} → RowOk m → RowOk (as_sent now m)
unfolding as_sent
as_sent-RowOk now r = ground arith

pub as_resend-RowOk : (now : ℕ) {m : Message} → RowOk m → RowOk (as_resend now m)
unfolding as_resend
as_resend-RowOk now r = ground arith

pub with_sent-RowOk : (o : Outcome) (now : ℕ) {m : Message} → RowOk m → RowOk (with_sent o now m)
unfolding with_sent
with_sent-RowOk o now r = ground arith

module _ (scrub : String → String) (rand : ℕ → ℕ) (spec : Topic) (c : Claim) (o : Outcome)
    (now : ℕ) where
  retry_plan-RowOk :
      (delay : Option ℕ) (m : Message)
      → RowOk m
      → ((d : ℕ) → delay ≡ some d → c.attempt < c.max_attempts)
      → (m.attempts ≡ c.attempt) × (m.max_attempts ≡ c.max_attempts)
      → RowOk ((retry_plan scrub o now delay).write m)
  unfolding retry_plan
  retry_plan-RowOk none m r left fit = ground arith
  retry_plan-RowOk (some d) m r left fit = ground (arith, left d refl)

  pub plan-RowOk :
      (s : OutcomeStatus) (p : Plan) (m : Message)
      → plan scrub rand spec c o now s ≡ ok p
      → RowOk m
      → Fits c m
      → is_held c m ≡ true
      → RowOk (p.write m)
  unfolding plan
  plan-RowOk OutcomeStatus.sent p m e r f h =
      subst (λ q. RowOk (q.write m)) (ok-injective e) (with_sent-RowOk o now r)
  plan-RowOk OutcomeStatus.skipped p m e r f h =
      subst (λ q. RowOk (q.write m)) (ok-injective e) (ground arith)
  plan-RowOk OutcomeStatus.retry p m e r f h =
      let (delay, found, made) =
        >>=-eq-ok (row_delay rand spec c.attempt c.max_attempts o.after) _ e in
      subst (λ q. RowOk (q.write m)) (ok-injective made)
        (retry_plan-RowOk delay m r
          (λ d waits.
            row_delay_left rand spec c.attempt c.max_attempts o.after d
              (found ∙ ap (λ x. ok x) waits))
          (f h))
  plan-RowOk OutcomeStatus.failed p m e r f h =
      subst (λ q. RowOk (q.write m)) (ok-injective e) (ground arith)
  plan-RowOk OutcomeStatus.unknown p m e r f h =
      subst (λ q. RowOk (q.write m)) (ok-injective e) (ground arith)
  plan-RowOk (odd s) p m e r f h = absurd (cc)
