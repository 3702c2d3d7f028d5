-- ===== src/Witnesses/Reconciling.antt =====
-- A pass over three rows: one is fixed, one drifts, and one is held by another worker.
use django_base_x.Prelude.{
  ℕ, ◌+◌, ◌≤◌, ◌==◌, true, false, none, some, List, [], ◌∷◌, ◌≡◌, refl, if◌then◌else◌, filter_by,
  not, arith,
}
use django_base_x.Jobs.Reconciler.{fixed, drift, Job, Environment, done, run}
use django_base_x.Jobs.Reconciler.Reports.{settled, run-tallied}
use django_base_x.Jobs.Reconciler.Rollback.{commits, run-keeps}

-- The store: the rows that need attention, how many rows were charged, and the findings.
abbrev Books : Type 0
Books = List ℕ × ℕ × List ℕ

-- A row of an even number leaves; row 7 charges and then drifts.
abbrev job : Job Books
job = record {
  batch_size = 2;
  resumable = true;
  kinds = "ledger.drift" ∷ [];
  queryset = λ books. books.0;
  reconcile = λ pk books.
      if pk == 7
      then (drift "ledger.drift" [], (books.0, books.1 + 1, books.2))
      else (fixed, (filter_by (λ row. not (row == pk)) books.0, books.1, books.2));
  raise_or_touch = λ kind pk details books. some (books.0, books.1, pk ∷ books.2);
  clear = λ kind pk books. (books.0, books.1, filter_by (λ row. not (row == pk)) books.2);
}

abbrev world : Environment
world = record { held = λ pk. pk == 9; stops = λ pk. false; interrupts = λ moment pk. false }

abbrev books : Books
books = (4 ∷ 7 ∷ 9 ∷ [], 0, [])

-- No row was charged.
Uncharged : Books → Type 0
Uncharged b = b.1 ≡ 0

run-keeps_example : Uncharged (run job world none books).store
unfolding Uncharged commits
run-keeps_example =
    run-keeps job world Uncharged (λ pk b h e. ground (arith, h, e)) (λ kind pk b h. h)
      (λ kind pk details b after h e. ground (arith, h, e)) none books refl

run-tallied_example :
    let pass = run job world none books in
    (pass.report.seen ≤ 2)
    × (settled pass.report ≤ pass.report.seen)
    × (pass.report.seen ≤ settled pass.report + 1)
    × (pass.report.stopped_early ≡ false
        → pass.ended ≡ done
        → pass.report.seen ≡ settled pass.report)
run-tallied_example = run-tallied job world none books
