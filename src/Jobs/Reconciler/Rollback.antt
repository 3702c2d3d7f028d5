-- ===== src/Jobs/Reconciler/Rollback.antt =====
-- The store through a pass of Reconciler.run (backend/core/jobs/reconciler.py).
use django_base_x.Prelude.{
  ℕ, String, Bool, true, false, not, ◌&&◌, Option, none, some, List, [], ◌∷◌, ◌≡◌, refl, sym, subst,
  if◌then◌else◌, Bool-cases, Option-cases, inl, inr, arith, any_where, take, ltb, length, ◌==◌,
}
use django_base_x.Values.{Details}
use django_base_x.Jobs.Reconciler.{
  Outcome, fixed, unchanged, skip, drift, raises, is_done, is_raised, at_lookup, at_reconcile,
  at_finding, Job, Report, Environment, Walk, clear_kinds, record_drift, settle, handle, one, bank,
  walk_ids, after_cursor, conclude, run, empty_report,
}

-- The outcomes after which the row's transaction commits.
unfoldable pub commits : Outcome → Bool
commits fixed = true
commits unchanged = true
commits skip = true
commits (drift kind details) = false
commits raises = false

module _ {S : Type 0} (job : Job S) (world : Environment) (P : S → Type 0)
    (reconciles : (pk : ℕ) (store : S)
      → P store
      → commits (job.reconcile pk store).0 ≡ true
      → P (job.reconcile pk store).1)
    (clears : (kind : String) (pk : ℕ) (store : S) → P store → P (job.clear kind pk store))
    (records : (kind : String) (pk : ℕ) (details : Details) (store after : S)
      → P store
      → job.raise_or_touch kind pk details store ≡ some after
      → P after) where
  clear_kinds-keeps :
      (kinds : List String) (pk : ℕ) (store : S)
      → P store
      → P (clear_kinds job world kinds pk store)
  unfolding clear_kinds
  clear_kinds-keeps [] pk store h = h
  clear_kinds-keeps (kind ∷ kinds) pk store h =
      clear_kinds-keeps kinds pk (job.clear kind pk store) (clears kind pk store h)

  record_drift-keeps :
      (kind : String) (details : Details) (pk : ℕ) (store : S) (report : Report) (cursor : Option ℕ)
      → P store
      → P (record_drift job world kind details pk store report cursor).store
  unfolding record_drift
  record_drift-keeps kind details pk store report cursor h =
      elim (Bool-cases (world.interrupts at_finding pk)) [
        | inl t ↦ rw t h
        | inr t ↦ elim (Option-cases (job.raise_or_touch kind pk details store)) [
          | inl n ↦ rw (t, n) h
          | inr (after, n) ↦ rw (t, n) (records kind pk details store after h n)
        ]
      ]

  settle-keeps :
      (pk : ℕ) (store : S) (outcome : Outcome) (written : S) (report : Report) (cursor : Option ℕ)
      → P store
      → (commits outcome ≡ true → P written)
      → P (settle job world pk store outcome written report cursor).store
  unfolding settle commits
  settle-keeps pk store fixed written report cursor h k =
      clear_kinds-keeps job.kinds pk written (k refl)
  settle-keeps pk store unchanged written report cursor h k =
      clear_kinds-keeps job.kinds pk written (k refl)
  settle-keeps pk store skip written report cursor h k = k refl
  settle-keeps pk store (drift kind details) written report cursor h k =
      record_drift-keeps kind details pk store report cursor h
  settle-keeps pk store raises written report cursor h k = h

  handle-keeps :
      (pk : ℕ) (store : S) (report : Report) (cursor : Option ℕ)
      → P store
      → P (handle job world pk store report cursor).store
  unfolding handle
  handle-keeps pk store report cursor h = elim (Bool-cases (world.interrupts at_reconcile pk)) [
    | inl t ↦ rw t h
    | inr t ↦ rw t (
        settle-keeps pk store (job.reconcile pk store).0 (job.reconcile pk store).1 _ cursor h
          (reconciles pk store h))
  ]

  one-keeps :
      (pk : ℕ) (store : S) (report : Report) (cursor : Option ℕ)
      → P store
      → P (one job world pk store report cursor).store
  unfolding one
  one-keeps pk store report cursor h = elim (Bool-cases (world.interrupts at_lookup pk)) [
    | inl t ↦ rw t h
    | inr t ↦
        elim (Bool-cases
          (any_where (λ row. row == pk) (job.queryset store) && not (world.held pk))) [
            | inl u ↦ rw (t, u) (handle-keeps pk store report cursor h)
            | inr u ↦ rw (t, u) h
          ]
  ]

  bank-store : (pk : ℕ) (walk : Walk S) → (bank job world pk walk).store ≡ walk.store
  unfolding bank
  bank-store pk walk = ground arith

  walk_ids-keeps :
      (pks : List ℕ) (store : S) (report : Report) (cursor : Option ℕ)
      → P store
      → P (walk_ids job world pks store report cursor).store
  unfolding walk_ids
  walk_ids-keeps [] store report cursor h = h
  walk_ids-keeps (pk ∷ pks) store report cursor h =
      let step : Walk S = one job world pk store report cursor in
      let banked : Walk S = bank job world pk step in
      let stepped = one-keeps pk store report cursor h in
      let kept = subst P (sym (bank-store pk step)) stepped in
      elim (Bool-cases (world.stops pk)) [
        | inl s ↦ rw s h
        | inr s ↦ elim (Bool-cases (is_done step.ended)) [
          | inr d ↦ rw (s, d) stepped
          | inl d ↦ elim (Bool-cases (is_done banked.ended)) [
            | inr b ↦ rw (s, d, b) kept
            | inl b ↦
                rw (s, d, b) (walk_ids-keeps pks banked.store banked.report banked.cursor kept)
          ]
        ]
      ]

  conclude-store :
      (ids : List ℕ) (start : Option ℕ) (capped : Bool) (walk : Walk S)
      → (conclude job world ids start capped walk).store ≡ walk.store
  unfolding conclude
  conclude-store ids start capped walk = ground arith

  -- Whatever every committed call of reconcile keeps, and clear and raise_or_touch keep, a pass
  -- keeps: what a call that ends in drift or raises has written is undone, and so is that of a call
  -- that the time limit interrupts, wherever it or a stop request falls.
  pub run-keeps : (cursor : Option ℕ) (store : S) → P store → P (run job world cursor store).store
  unfolding run
  run-keeps cursor store h =
      let start = if job.resumable then cursor else none in
      let ids = after_cursor start (job.queryset store) in
      let walk : Walk S = walk_ids job world (take job.batch_size ids) store empty_report cursor in
      let kept = walk_ids-keeps (take job.batch_size ids) store empty_report cursor h in
      elim (Bool-cases (is_raised walk.ended)) [
        | inl r ↦ rw r kept
        | inr r ↦ rw r (
            subst P
              (sym (
                conclude-store (take job.batch_size ids) start (ltb job.batch_size (length ids))
                  walk))
              kept)
      ]
