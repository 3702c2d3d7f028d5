-- ===== src/Outbox/Preserve/Stamp.antt =====
-- The stamp of claim (backend/core/outbox/service.py), as a transaction of the system: the row may
-- have changed since it was read.
use django_base_x.Prelude.{
  ℕ, ◌≤◌, ◌≡◌, refl, subst₂, ap, All-zip, sym, String, true, false, List, ◌∷◌, some, arith, ◌==◌,
  str_eq, Bool-cases, Option-cases, inl, inr, All, All-impl, All-update_where, any_where,
  first_where, first_where_unique, update_where, count_where, count_where-update_where,
}
use django_base_x.Prelude.Result.{ok}
use django_base_x.Outbox.Message.{Message, Db, Status, is_waiting}
use django_base_x.Outbox.Claim.{Claim, is_stampable, stamp, claim_of, stamp_row}
use django_base_x.Outbox.Settle.{is_held}
use django_base_x.Outbox.Invariant.{RowOk, Fits, stamp-RowOk}
use django_base_x.Outbox.Moves.{Moves, edge, Moves-update_where}
use django_base_x.Outbox.Sound.{System, Sound, Keeps, update-Sound}

-- A token that no outstanding claim carries; `lease_token` draws 48 random bits.
abbrev pub Fresh : String → List Claim → Type 0
Fresh token claims = All (λ c. str_eq token c.token ≡ false) claims

stamp-Keeps : (until : ℕ) (token : String) → Keeps (stamp until token)
unfolding stamp
stamp-Keeps until token = record { id = λ m. refl; key = λ m. refl }

waiting_edge : (s : Status) → is_waiting s ≡ true → edge s Status.leased ≡ true
waiting_edge s h = ground arith

stampable_waiting : (id : ℕ) (m : Message) → is_stampable id m ≡ true → is_waiting m.status ≡ true
unfolding is_stampable
stampable_waiting id m h = ground arith

-- What a successful stamp did.
pub stamp_row-some :
    (row : Message) (token : String) (until : ℕ) (db db' : Db) (c : Claim)
    → stamp_row row token until db ≡ ok (some (c, db'))
    → (fresh : Message) × (any_where (is_stampable row.id) db.rows ≡ true)
      × (first_where
            (λ m. m.id == row.id)
            (update_where (is_stampable row.id) (stamp until token) db.rows)
          ≡ some fresh)
      × (c ≡ claim_of row token fresh)
      × (db' ≡ record db { rows = update_where (is_stampable row.id) (stamp until token) db.rows })
unfolding stamp_row
stamp_row-some row token until db db' c h =
    let stamped = update_where (is_stampable row.id) (stamp until token) db.rows in
    elim (Bool-cases (any_where (is_stampable row.id) db.rows)) [
      | inr no_row ↦ absurd (ground (arith, h, no_row))
      | inl found ↦ elim (Option-cases (first_where (λ m. m.id == row.id) stamped)) [
        | inl gone ↦ absurd (ground (arith, h, found, gone))
        | inr (fresh, f) ↦
            (fresh, found, f, ground (arith, h, found, f), ground (arith, h, found, f))
      ]
    ]

module _ (row : Message) (token : String) (until : ℕ) (s : System) (h : Sound s) where
  stamped : List Message
  stamped = update_where (is_stampable row.id) (stamp until token) s.db.rows

  -- A claim under another token knows nothing of the stamped row.
  Fits-old :
      (c : Claim) → str_eq token c.token ≡ false → All (Fits c) s.db.rows → All (Fits c) stamped
  unfolding stamped stamp is_held
  Fits-old c other old =
      All-update_where (Fits c) (is_stampable row.id) (stamp until token)
        (λ m _ _ held. absurd (ground (arith, held, other))) s.db.rows old

  -- The new claim reads what the one row with its id now says.
  Fits-new :
      (fresh : Message)
      → first_where (λ m. m.id == row.id) stamped ≡ some fresh
      → All (Fits (claim_of row token fresh)) stamped
  unfolding stamped stamp is_held claim_of
  Fits-new fresh f =
      let p = λ (m : Message). m.id == row.id in
      let one : count_where p stamped ≤ 1 = omega (
        arith,
        h.ids row.id,
        count_where-update_where p (is_stampable row.id) (stamp until token) (λ m _. refl)
            s.db.rows,
      ) in
      All-impl (λ m. p m ≡ true → m ≡ fresh) (Fits (claim_of row token fresh))
        (λ m same held.
          let e : m ≡ fresh = same (ground (arith, held)) in
          (ap (λ (x : Message). x.attempts) e, ap (λ (x : Message). x.max_attempts) e))
        stamped (first_where_unique p stamped fresh one f)

  Fits-All : Fresh token s.claims → All (λ c. All (Fits c) stamped) s.claims
  Fits-All unused =
      All-impl (λ (c : Claim). (str_eq token c.token ≡ false) × All (Fits c) s.db.rows)
        (λ c. All (Fits c) stamped) (λ c both. Fits-old c both.0 both.1) s.claims
        (All-zip (λ (c : Claim). str_eq token c.token ≡ false) (λ c. All (Fits c) s.db.rows)
          s.claims unused h.fits)

  stamped-Sound :
      (fresh : Message)
      → Fresh token s.claims
      → first_where (λ m. m.id == row.id) stamped ≡ some fresh
      → Sound (record {
        db = record s.db { rows = stamped };
        claims = claim_of row token fresh ∷ s.claims;
      })
  unfolding stamped
  stamped-Sound fresh unused f =
      let kept =
        update-Sound s (is_stampable row.id) (stamp until token) s.db.findings
          (stamp-Keeps until token) h h.one_open
          (All-update_where RowOk (is_stampable row.id) (stamp until token)
            (λ m r w. stamp-RowOk until token r (stampable_waiting row.id m w)) s.db.rows h.rows_ok)
          (Fits-All unused) in
      record {
        rows_ok = kept.rows_ok;
        fits = (Fits-new fresh f, kept.fits);
        below = kept.below;
        ids = kept.ids;
        keys = kept.keys;
        one_open = kept.one_open;
      }

pub stamp_row-Sound :
    (row : Message) (token : String) (until : ℕ) (s : System) (db' : Db) (c : Claim)
    → Sound s
    → Fresh token s.claims
    → stamp_row row token until s.db ≡ ok (some (c, db'))
    → Sound (record { db = db'; claims = c ∷ s.claims })
unfolding stamped
stamp_row-Sound row token until s db' c h unused e =
    let (fresh, found, f, ec, ed) = stamp_row-some row token until s.db db' c e in
    subst₂ (λ (d : Db) (x : Claim). Sound (record { db = d; claims = x ∷ s.claims })) (sym ed)
      (sym ec) (stamped-Sound row token until s h fresh unused f)

-- The stamp moves waiting rows only.
pub stamp_row-Moves :
    (row : Message) (token : String) (until : ℕ) (db db' : Db) (c : Claim)
    → stamp_row row token until db ≡ ok (some (c, db'))
    → Moves db.rows db'.rows
unfolding stamp
stamp_row-Moves row token until db db' c e =
    let (fresh, found, f, ec, ed) = stamp_row-some row token until db db' c e in
    rw ed (
      Moves-update_where (is_stampable row.id) (stamp until token)
        (λ m w. (refl, waiting_edge m.status (stampable_waiting row.id m w))) db.rows)
