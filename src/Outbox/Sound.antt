-- ===== src/Outbox/Sound.antt =====
-- The outbox as a system: the database and the claims that drainers hold, and what holds of it
-- between two transactions.
use django_base_x.Prelude.{
  ℕ, ◌≤◌, ◌<◌, ◌≡◌, String, Bool, true, false, List, arith, ◌==◌, str_eq, All, All-impl,
  All-update_where, update_where, count_where, count_where-update_where,
}
use django_base_x.Findings.{FindingTable}
use django_base_x.Findings.Unique.{IsUnique}
use django_base_x.Outbox.Message.{Message, Db, is_leased}
use django_base_x.Outbox.Claim.{Claim}
use django_base_x.Outbox.Settle.{is_held}
use django_base_x.Outbox.Invariant.{RowOk, Fits}

pub record System : Type 0 where
  pub db : Db
  pub claims : List Claim

pub record Sound (s : System) : Type 0 where
  pub rows_ok : All RowOk s.db.rows
  pub fits : All (λ c. All (Fits c) s.db.rows) s.claims
  pub below : All (λ m. m.id < s.db.next_id) s.db.rows
  pub ids : (k : ℕ) → count_where (λ m. m.id == k) s.db.rows ≤ 1
  pub keys : (k : String) → count_where (λ m. str_eq m.dedupe_key k) s.db.rows ≤ 1
  pub one_open : IsUnique s.db.findings

-- An update that leaves a row's identity alone.
pub record Keeps (f : Message → Message) : Type 0 where
  pub id : (m : Message) → (f m).id ≡ m.id
  pub key : (m : Message) → (f m).dedupe_key ≡ m.dedupe_key

pub Fits-of_unleased : (c : Claim) (m : Message) → is_leased m.status ≡ false → Fits c m
unfolding is_held
Fits-of_unleased c m free h = absurd (ground (arith, free, h))

module _ (s : System) (p : Message → Bool) (f : Message → Message) (fs : FindingTable) where
  abbrev pub updated : System
  updated = record s { db = record s.db { rows = update_where p f s.db.rows; findings = fs } }

  -- An update of some rows, with the findings of the same transaction.
  pub update-Sound :
      Keeps f
      → Sound s
      → IsUnique fs
      → All RowOk (update_where p f s.db.rows)
      → All (λ c. All (Fits c) (update_where p f s.db.rows)) s.claims
      → Sound updated
  update-Sound k h u rows fit = record {
    rows_ok = rows;
    fits = fit;
    below =
        All-update_where (λ m. m.id < s.db.next_id) p f (λ m lt _. rw (k.id m) lt) s.db.rows
          h.below;
    ids = λ i. omega (
      arith,
      h.ids i,
      count_where-update_where (λ m. m.id == i) p f (λ m _. rw (k.id m)) s.db.rows,
    );
    keys = λ i. omega (
      arith,
      h.keys i,
      count_where-update_where (λ m. str_eq m.dedupe_key i) p f (λ m _. rw (k.key m)) s.db.rows,
    );
    one_open = u;
  }

  -- The rows that it moves are leased no more.
  pub unlease-Sound :
      Keeps f
      → ((m : Message) → p m ≡ true → is_leased (f m).status ≡ false)
      → Sound s
      → IsUnique fs
      → All RowOk (update_where p f s.db.rows)
      → Sound updated
  unlease-Sound k free h u rows = update-Sound k h u rows (
      All-impl (λ c. All (Fits c) s.db.rows) (λ c. All (Fits c) (update_where p f s.db.rows))
        (λ c fit.
          All-update_where (Fits c) p f (λ m _ t. Fits-of_unleased c (f m) (free m t)) s.db.rows
            fit)
        s.claims h.fits)
