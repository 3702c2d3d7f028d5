-- ===== src/Outbox/Semantics/Draining.antt =====
-- drain of backend/core/outbox/service.py: the length of a run.
use django_base_x.Prelude.{
  ℕ, zero, suc, ◌+◌, ◌≤◌, ◌≡◌, inl, inr, String, true, false, ◌&&◌, not, List, Option, some, none,
  arith, Bool-cases, ltb,
}
use django_base_x.Prelude.Result.{ok, Result-cases}
use django_base_x.Outbox.Message.{Db}
use django_base_x.Outbox.Claim.{claim}
use django_base_x.Outbox.Drain.{World, Setup, send, drain_loop, batch_limit, selected_topics, drain}

drain_loop_bounded :
    (s : Setup) (w : World) (names : List String) (deadline left done n : ℕ) (db db' : Db)
    → drain_loop s w names deadline left done db ≡ (ok n, db')
    → (done ≤ n) × (n ≤ done + left)
unfolding drain_loop
drain_loop_bounded s w names deadline zero done n db db' e =
    let same : done ≡ n = ground (arith, e) in (omega (arith, same), omega (arith, same))
drain_loop_bounded s w names deadline (suc left) done n db db' e =
    elim (Bool-cases (ltb (w.clock done) deadline && not (w.stop_requested done))) [
      | inr stop ↦
          let same : done ≡ n = ground (arith, e, stop) in
          (omega (arith, same), omega (arith, same))
      | inl go ↦
          elim (Result-cases
            (claim s.topics names (w.now done) (w.tokens done) (w.others done) db)) [
              | inr (x, bad) ↦ absurd (ground (arith, e, go, bad))
              | inl ((none, d), idle) ↦
                  let same : done ≡ n = ground (arith, e, go, idle) in
                  (omega (arith, same), omega (arith, same))
              | inl ((some c, d), claimed) ↦ elim (Result-cases (send s w done c d)) [
                | inr (x, bad) ↦ absurd (ground (arith, e, go, claimed, bad))
                | inl ((true, d'), sent) ↦
                    let same : suc done ≡ n = ground (arith, e, go, claimed, sent) in
                    (omega (arith, same), omega (arith, same))
                | inl ((false, d'), sent) ↦
                    let (low, high) =
                      drain_loop_bounded s w names deadline left (suc done) n d' db'
                        (ground (arith, e, go, claimed, sent)) in
                    (omega (arith, low), omega (arith, high))
              ]
            ]
    ]

-- A drain run that returns has settled at most as many messages as the batch sizes of the topics
-- that it serves add up to: every registered one, or the one it is called for.
drain_bounded :
    (s : Setup) (w : World) (start : ℕ) (topic : Option String) (db db' : Db) (n : ℕ)
    → drain s w start topic db ≡ (ok n, db')
    → n ≤ batch_limit (selected_topics s.topics topic)
unfolding drain
drain_bounded s w start topic db db' n e =
    let (low, high) = drain_loop_bounded s w _ _ _ 0 n db db' e in omega (arith, high)
