-- ===== src/Jobs/Reconciler/Reports.antt =====
-- The report of a pass of Reconciler.run (backend/core/jobs/reconciler.py).
use django_base_x.Prelude.{
  ℕ, zero, suc, ◌+◌, ◌≤◌, String, Bool, true, false, not, ◌&&◌, Option, none, List, [], ◌∷◌, ◌≡◌,
  refl, sym, ◌∙◌, if◌then◌else◌, Bool-cases, Option-cases, inl, inr, arith, any_where, take, ltb,
  length, ◌==◌,
}
use django_base_x.Values.{Details}
use django_base_x.Jobs.Reconciler.{
  Outcome, fixed, unchanged, skip, drift, raises, is_done, is_raised, at_lookup, at_reconcile,
  at_finding, at_cursor, Job, Report, Environment, Walk, Ended, done, stopped, interrupted, raised,
  record_drift, settle, handle, one, bank, walk_ids, after_cursor, is_early, conclude, run,
  empty_report,
}

-- The rows whose result the report counts.
abbrev pub settled : Report → ℕ
settled report = report.fixed + report.unchanged + report.drift + report.skipped

-- Neither the time limit nor an exception ended the walk.
unfoldable pub is_whole : Ended → Bool
is_whole done = true
is_whole stopped = true
is_whole interrupted = false
is_whole raised = false

is_done-is_whole : (ended : Ended) → is_done ended ≡ true → is_whole ended ≡ true
unfolding is_whole
is_done-is_whole done d = refl
is_done-is_whole stopped d = absurd (cc)
is_done-is_whole interrupted d = absurd (cc)
is_done-is_whole raised d = absurd (cc)

is_whole-left :
    (ended : Ended) → is_early ended ≡ false → is_raised ended ≡ false → is_whole ended ≡ true
unfolding is_whole is_early
is_whole-left done early r = refl
is_whole-left stopped early r = refl
is_whole-left interrupted early r = absurd (cc)
is_whole-left raised early r = absurd (cc)

length-take : (n : ℕ) (pks : List ℕ) → length (take n pks) ≤ n
length-take zero pks = omega arith
length-take (suc n) [] = omega arith
length-take (suc n) (pk ∷ pks) = omega (arith, length-take n pks)

module _ {S : Type 0} where
  -- The report of at most `limit` rows: each row seen has its result counted, but for the one that
  -- the time limit or an exception fell on.
  unfoldable pub IsTallied : ℕ → Walk S → Type 0
  IsTallied limit walk =
      (settled walk.report ≤ walk.report.seen)
      × (walk.report.seen ≤ settled walk.report + 1)
      × (is_whole walk.ended ≡ true → walk.report.seen ≡ settled walk.report)
      × (walk.report.seen ≤ limit)

module _ {S : Type 0} (job : Job S) (world : Environment) where
  record_drift-IsTallied :
      (kind : String) (details : Details) (pk : ℕ) (store : S) (report : Report) (cursor : Option ℕ)
      → report.seen ≡ settled report + 1
      → IsTallied report.seen (record_drift job world kind details pk store report cursor)
  unfolding record_drift IsTallied is_whole
  record_drift-IsTallied kind details pk store report cursor h =
      elim (Bool-cases (world.interrupts at_finding pk)) [
        | inl t ↦ rw t (omega (arith, h), omega (arith, h), λ w. absurd (cc), omega arith)
        | inr t ↦ elim (Option-cases (job.raise_or_touch kind pk details store)) [
          | inl n ↦ rw (t, n) (omega (arith, h), omega (arith, h), λ w. absurd (cc), omega arith)
          | inr (after, n) ↦
              rw (t, n) (omega (arith, h), omega (arith, h), λ w. omega (arith, h), omega arith)
        ]
      ]

  settle-IsTallied :
      (pk : ℕ) (store : S) (outcome : Outcome) (written : S) (report : Report) (cursor : Option ℕ)
      → report.seen ≡ settled report + 1
      → IsTallied report.seen (settle job world pk store outcome written report cursor)
  unfolding settle IsTallied is_whole
  settle-IsTallied pk store fixed written report cursor h =
      (omega (arith, h), omega (arith, h), λ w. omega (arith, h), omega arith)
  settle-IsTallied pk store unchanged written report cursor h =
      (omega (arith, h), omega (arith, h), λ w. omega (arith, h), omega arith)
  settle-IsTallied pk store skip written report cursor h =
      (omega (arith, h), omega (arith, h), λ w. omega (arith, h), omega arith)
  settle-IsTallied pk store (drift kind details) written report cursor h =
      record_drift-IsTallied kind details pk store report cursor h
  settle-IsTallied pk store raises written report cursor h =
      (omega (arith, h), omega (arith, h), λ w. absurd (cc), omega arith)

  handle-IsTallied :
      (pk : ℕ) (store : S) (report : Report) (cursor : Option ℕ)
      → report.seen ≡ settled report
      → IsTallied (report.seen + 1) (handle job world pk store report cursor)
  unfolding handle IsTallied is_whole
  handle-IsTallied pk store report cursor h = elim (Bool-cases (world.interrupts at_reconcile pk)) [
    | inl t ↦ rw t (omega (arith, h), omega (arith, h), λ w. absurd (cc), omega arith)
    | inr t ↦ rw t (
        settle-IsTallied pk store (job.reconcile pk store).0 (job.reconcile pk store).1 _ cursor
          (omega (arith, h)))
  ]

  one-IsTallied :
      (pk : ℕ) (store : S) (report : Report) (cursor : Option ℕ)
      → report.seen ≡ settled report
      → IsTallied (report.seen + 1) (one job world pk store report cursor)
  unfolding one IsTallied
  one-IsTallied pk store report cursor h = elim (Bool-cases (world.interrupts at_lookup pk)) [
    | inl t ↦ rw t (omega (arith, h), omega (arith, h), λ w. h, omega arith)
    | inr t ↦
        elim (Bool-cases
          (any_where (λ row. row == pk) (job.queryset store) && not (world.held pk))) [
            | inl u ↦ rw (t, u) (handle-IsTallied pk store report cursor h)
            | inr u ↦ rw (t, u) (omega (arith, h), omega (arith, h), λ w. h, omega arith)
          ]
  ]

  bank-IsTallied :
      (limit pk : ℕ) (walk : Walk S)
      → is_done walk.ended ≡ true
      → IsTallied limit walk
      → IsTallied limit (bank job world pk walk) × ((bank job world pk walk).report ≡ walk.report)
  unfolding bank IsTallied is_whole
  bank-IsTallied limit pk walk d h = elim (Bool-cases job.resumable) [
    | inr r ↦ rw r (h, refl)
    | inl r ↦ elim (Bool-cases (world.interrupts at_cursor pk)) [
      | inl t ↦ rw (r, t) ((h.0, h.1, λ w. absurd (cc), h.3), refl)
      | inr t ↦ rw (r, t) (h, refl)
    ]
  ]

  walk_ids-IsTallied :
      (pks : List ℕ) (store : S) (report : Report) (cursor : Option ℕ)
      → report.seen ≡ settled report
      → IsTallied (report.seen + length pks) (walk_ids job world pks store report cursor)
  unfolding walk_ids IsTallied is_whole
  walk_ids-IsTallied [] store report cursor h =
      (omega (arith, h), omega (arith, h), λ w. h, omega arith)
  walk_ids-IsTallied (pk ∷ pks) store report cursor h =
      let step : Walk S = one job world pk store report cursor in
      let banked : Walk S = bank job world pk step in
      let stepped = one-IsTallied pk store report cursor h in
      elim (Bool-cases (world.stops pk)) [
        | inl s ↦ rw s (omega (arith, h), omega (arith, h), λ w. h, omega arith)
        | inr s ↦ elim (Bool-cases (is_done step.ended)) [
          | inr d ↦ rw (s, d) (stepped.0, stepped.1, stepped.2, omega (arith, stepped.3))
          | inl d ↦
              let (kept, same) = bank-IsTallied (report.seen + 1) pk step d stepped in
              elim (Bool-cases (is_done banked.ended)) [
                | inr b ↦ rw (s, d, b) (kept.0, kept.1, kept.2, omega (arith, kept.3))
                | inl b ↦
                    let even : banked.report.seen ≡ settled banked.report =
                      kept.2 (is_done-is_whole banked.ended b) in
                    let later =
                      walk_ids-IsTallied pks banked.store banked.report banked.cursor even in
                    rw (s, d, b) (later.0, later.1, later.2, omega (arith, later.3, kept.3))
              ]
        ]
      ]

  conclude-report :
      (ids : List ℕ) (start : Option ℕ) (capped : Bool) (walk : Walk S)
      → (settled (conclude job world ids start capped walk).report ≡ settled walk.report)
        × ((conclude job world ids start capped walk).report.seen ≡ walk.report.seen)
        × ((conclude job world ids start capped walk).report.stopped_early ≡ is_early walk.ended)
  unfolding conclude
  conclude-report ids start capped walk = (ground arith, ground arith, ground arith)

  -- A pass sees at most batch_size rows. Its counts of fixed, unchanged, drifted and skipped rows
  -- add up to the rows seen, but for one at most; and to all of them in a pass that ends without an
  -- exception and was not stopped early.
  pub run-tallied :
      (cursor : Option ℕ) (store : S)
      → let pass = run job world cursor store in
        (pass.report.seen ≤ job.batch_size)
        × (settled pass.report ≤ pass.report.seen)
        × (pass.report.seen ≤ settled pass.report + 1)
        × (pass.report.stopped_early ≡ false
            → pass.ended ≡ done
            → pass.report.seen ≡ settled pass.report)
  unfolding run IsTallied is_whole is_early
  run-tallied cursor store =
      let start = if job.resumable then cursor else none in
      let ids = after_cursor start (job.queryset store) in
      let capped = ltb job.batch_size (length ids) in
      let walk : Walk S = walk_ids job world (take job.batch_size ids) store empty_report cursor in
      let tally = walk_ids-IsTallied (take job.batch_size ids) store empty_report cursor refl in
      let few = length-take job.batch_size ids in
      elim (Bool-cases (is_raised walk.ended)) [
        | inl r ↦ rw r (
          omega (arith, tally.3, few),
          tally.0,
          tally.1,
          λ early whole. absurd (ground (arith, r, whole)),
        )
        | inr r ↦
            let (same, seen, early) = conclude-report (take job.batch_size ids) start capped walk in
            rw r (
              omega (arith, tally.3, few, seen),
              omega (arith, tally.0, same, seen),
              omega (arith, tally.1, same, seen),
              λ calm whole.
                  omega
                    (arith, same, seen, tally.2 (is_whole-left walk.ended (sym early ∙ calm) r)),
            )
      ]
