-- ===== src/Jobs/Reconciler.antt =====
-- Reconciler of backend/core/jobs/reconciler.py. The rows and the findings are a store `S`; a
-- subclass's queryset and reconcile, and the functions on findings, are a record. `held` are the
-- rows that another worker has locked, `stops` is what ctx.stop_requested answers before a row, and
-- `interrupts` is where the soft time limit is raised while a row is handled.
pub mod Reports
pub mod Rollback
use django_base_x.Prelude.{
  ℕ, suc, ◌+◌, String, Bool, true, false, not, ◌||◌, ◌&&◌, Option, none, some, List, [], ◌∷◌, ltb,
  ◌==◌, any_where, filter_by, count_where, length, take, if◌then◌else◌,
}
use django_base_x.Values.{Details}

-- What reconcile returns, or that it raises.
pub data Outcome : Type 0 where
  fixed unchanged skip : Outcome
  drift : String → Details → Outcome
  raises : Outcome

-- Before the row is counted, in its transaction, before its finding, and before the cursor is saved.
pub data Moment : Type 0 where
  at_lookup at_reconcile at_finding at_cursor : Moment

-- A subclass, whose kinds are registered, so that findings.clear raises nothing.
pub record Job (S : Type 0) : Type 0 where
  pub batch_size : ℕ
  pub resumable : Bool
  pub kinds : List String
  pub queryset : S → List ℕ
  pub reconcile : ℕ → S → Outcome × S
  pub raise_or_touch : String → ℕ → Details → S → Option S
  pub clear : String → ℕ → S → S

pub record Report : Type 0 where
  pub seen : ℕ
  pub fixed : ℕ
  pub unchanged : ℕ
  pub drift : ℕ
  pub skipped : ℕ
  pub capped : Bool
  pub remaining : ℕ
  pub stopped_early : Bool

pub data Ended : Type 0 where
  done stopped interrupted raised : Ended

-- The store, the counts and how the walk ended.
pub record Walk (S : Type 0) : Type 0 where
  pub store : S
  pub report : Report
  pub cursor : Option ℕ
  pub ended : Ended

pub record Environment : Type 0 where
  pub held : ℕ → Bool
  pub stops : ℕ → Bool
  pub interrupts : Moment → ℕ → Bool

abbrev pub empty_report : Report
empty_report = record {
  seen = 0;
  fixed = 0;
  unchanged = 0;
  drift = 0;
  skipped = 0;
  capped = false;
  remaining = 0;
  stopped_early = false;
}

abbrev pub is_raised : Ended → Bool
is_raised ended = elim ended [ raised ↦ true | _ ↦ false ]

abbrev pub is_done : Ended → Bool
is_done ended = elim ended [ done ↦ true | _ ↦ false ]

unfoldable pub is_early : Ended → Bool
is_early ended = elim ended [ stopped ↦ true | interrupted ↦ true | _ ↦ false ]

unfoldable pub last_of : List ℕ → Option ℕ
last_of [] = none
last_of (pk ∷ []) = some pk
last_of (pk ∷ next ∷ pks) = last_of (next ∷ pks)

unfoldable pub after_cursor : Option ℕ → List ℕ → List ℕ
after_cursor none pks = pks
after_cursor (some after) pks = filter_by (λ pk. ltb after pk) pks

module _ {S : Type 0} (job : Job S) (world : Environment) where
  unfoldable pub clear_kinds : List String → ℕ → S → S
  clear_kinds [] pk store = store
  clear_kinds (kind ∷ kinds) pk store = clear_kinds kinds pk (job.clear kind pk store)

  abbrev pub walk_to : S → Report → Option ℕ → Ended → Walk S
  walk_to store report cursor ended = record {
    store = store;
    report = report;
    cursor = cursor;
    ended = ended;
  }

  unfoldable pub record_drift : String → Details → ℕ → S → Report → Option ℕ → Walk S
  record_drift kind details pk store report cursor =
      let counted : Report = record report { drift = report.drift + 1 } in
      if world.interrupts at_finding pk
      then walk_to store counted cursor interrupted
      else elim (job.raise_or_touch kind pk details store) [
        | none ↦ walk_to store counted cursor raised
        | some after ↦ walk_to after counted cursor done
      ]

  -- What _one does with the result; `store` is the one before reconcile, to which a rollback goes.
  unfoldable pub settle : ℕ → S → Outcome → S → Report → Option ℕ → Walk S
  settle pk store fixed written report cursor =
      walk_to (clear_kinds job.kinds pk written) (record report { fixed = report.fixed + 1 }) cursor
        done
  settle pk store unchanged written report cursor =
      walk_to (clear_kinds job.kinds pk written)
        (record report { unchanged = report.unchanged + 1 }) cursor done
  settle pk store skip written report cursor =
      walk_to written (record report { skipped = report.skipped + 1 }) cursor done
  settle pk store (drift kind details) written report cursor =
      record_drift kind details pk store report cursor
  settle pk store raises written report cursor = walk_to store report cursor raised

  unfoldable pub handle : ℕ → S → Report → Option ℕ → Walk S
  handle pk store report cursor =
      let counted : Report = record report { seen = report.seen + 1 } in
      let result = job.reconcile pk store in
      if world.interrupts at_reconcile pk
      then walk_to store counted cursor interrupted
      else settle pk store result.0 result.1 counted cursor

  -- _one
  unfoldable pub one : ℕ → S → Report → Option ℕ → Walk S
  one pk store report cursor =
      if world.interrupts at_lookup pk
      then walk_to store report cursor interrupted
      else if any_where (λ row. row == pk) (job.queryset store) && not (world.held pk)
      then handle pk store report cursor
      else walk_to store report cursor done

  -- The cursor after a row that was handled to its end.
  unfoldable pub bank : ℕ → Walk S → Walk S
  bank pk walk =
      if not job.resumable
      then walk
      else if world.interrupts at_cursor pk
      then walk_to walk.store walk.report walk.cursor interrupted
      else walk_to walk.store walk.report (some pk) walk.ended

  -- The loop over the ids.
  unfoldable pub walk_ids : List ℕ → S → Report → Option ℕ → Walk S
  walk_ids [] store report cursor = walk_to store report cursor done
  walk_ids (pk ∷ pks) store report cursor =
      let step = one pk store report cursor in
      let banked = bank pk step in
      let rest = walk_ids pks banked.store banked.report banked.cursor in
      if world.stops pk
      then walk_to store report cursor stopped
      else if not (is_done step.ended)
      then step
      else if is_done banked.ended
      then rest
      else banked

  -- The last part of run. With no id and a cap, ids[-1] raises.
  unfoldable pub conclude : List ℕ → Option ℕ → Bool → Walk S → Walk S
  conclude ids start capped walk =
      let early = is_early walk.ended in
      let report : Report = record walk.report { capped = capped; stopped_early = early } in
      if capped && not early
      then elim (last_of ids) [
        | none ↦ walk_to walk.store report walk.cursor raised
        | some pk ↦
            walk_to walk.store
              (record report {
                remaining =
                    count_where (λ row. ltb pk row) (after_cursor start (job.queryset walk.store));
              })
              walk.cursor done
      ]
      else if job.resumable && not capped && not early
      then walk_to walk.store report none done
      else walk_to walk.store report walk.cursor done

  -- run, from the saved cursor; what raises leaves the rows that were committed
  unfoldable pub run : Option ℕ → S → Walk S
  run cursor store =
      let start = if job.resumable then cursor else none in
      let ids = after_cursor start (job.queryset store) in
      let capped = ltb job.batch_size (length ids) in
      let walk = walk_ids (take job.batch_size ids) store empty_report cursor in
      if is_raised walk.ended then walk else conclude (take job.batch_size ids) start capped walk
