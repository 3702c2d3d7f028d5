-- ===== src/Outbox/Exclusive.antt =====
-- Whose a claimed message is (claim of backend/core/outbox/service.py).
use django_base_x.Prelude.{
  ◌≢◌, ap₂, All-update_where_on, ℕ, zero, suc, ◌+◌, ◌≡◌, sym, ap, ◌∙◌, String, true, false, List,
  [], ◌∷◌, ◌++◌, none, some, arith, inl, inr, ◌==◌, str_eq, eq_iff, Option-cases, All, All-impl,
  any_where, any_where-first_where, first_where_unique_of, update_where,
}
use django_base_x.Prelude.Result.{ok, Result-cases}
use django_base_x.Jobs.Retry.{seconds}
use django_base_x.Outbox.Message.{Message, Db, Topic, topic_of}
use django_base_x.Outbox.Claim.{
  Claim, is_stampable, stamp, claim_of, stamp_row, candidate, claim_loop, claim,
}
use django_base_x.Outbox.Settle.{is_held}
use django_base_x.Outbox.Sound.{System, Sound}
use django_base_x.Outbox.Preserve.Stamp.{Fresh, stamp_row-some, stamp_row-Sound}

-- Every row with the claim's id is held by the claim and by no other of `claims`.
abbrev pub Owns : Claim → List Claim → List Message → Type 0
Owns c claims rows =
    All (λ m. (m.id == c.id) ≡ true → (is_held c m ≡ true) × All (λ d. is_held d m ≡ false) claims)
      rows

module _ (row : Message) (token : String) (until : ℕ) (fresh : Message) where
  -- a stamped row, as the new claim and an older one see it
  stamped-is_held :
      (m : Message)
      → is_stampable row.id m ≡ true
      → is_held (claim_of row token fresh) (stamp until token m) ≡ true
  unfolding is_held stamp is_stampable claim_of
  stamped-is_held m h = ground (arith, eq_iff token token)

  not-is_held :
      (d : Claim) (m : Message)
      → str_eq token d.token ≡ false
      → is_held d (stamp until token m) ≡ false
  unfolding is_held stamp
  not-is_held d m h = ground arith

true≢false : true ≢ false
true≢false e = cc

stamped-Owns :
    (row : Message) (token : String) (until : ℕ) (fresh : Message) (s : System)
    → Sound s
    → Fresh token s.claims
    → any_where (is_stampable row.id) s.db.rows ≡ true
    → Owns
        (claim_of row token fresh)
        s.claims
        (update_where (is_stampable row.id) (stamp until token) s.db.rows)
stamped-Owns row token until fresh s h unused found =
    let Q = λ (m : Message).
      (m.id == row.id) ≡ true
      → (is_held (claim_of row token fresh) m ≡ true) × All (λ d. is_held d m ≡ false) s.claims in
    let (x, f, stampable) = any_where-first_where (is_stampable row.id) s.db.rows found in
    let only =
      first_where_unique_of (is_stampable row.id) (λ m. m.id == row.id)
        (λ m t. unfold is_stampable in ground (arith, t)) s.db.rows x (h.ids row.id) f in
    unfold claim_of in
    All-update_where_on Q (is_stampable row.id) (stamp until token) s.db.rows (
      All-impl (λ m. (m.id == row.id) ≡ true → m ≡ x)
        (λ m.
          (is_stampable row.id m ≡ true → Q (stamp until token m))
          × (is_stampable row.id m ≡ false → Q m))
        (λ m same. (
          λ t _. (
            stamped-is_held row token until fresh m t,
            All-impl (λ (d : Claim). str_eq token d.token ≡ false)
                (λ d. is_held d (stamp until token m) ≡ false)
                (λ d other. not-is_held row token until fresh d m other) s.claims unused,
          ),
          λ n here.
              absurd (true≢false (sym stampable ∙ ap (is_stampable row.id) (sym (same here)) ∙ n)),
        ))
        s.db.rows only)

-- A stamp leaves a sound system in which the claim owns its message.
stamp_row-Owns :
    (row : Message) (token : String) (until : ℕ) (s : System) (db' : Db) (c : Claim)
    → Sound s
    → Fresh token s.claims
    → stamp_row row token until s.db ≡ ok (some (c, db'))
    → Sound (record { db = db'; claims = c ∷ s.claims }) × Owns c s.claims db'.rows
stamp_row-Owns row token until s db' c h unused e =
    let (fresh, found, f, ec, ed) = stamp_row-some row token until s.db db' c e in
    (
      stamp_row-Sound row token until s db' c h unused e,
      rw (ec, ed) (stamped-Owns row token until fresh s h unused found),
    )

module _ (topics : List Topic) (names : List String) (now : ℕ) (tokens : ℕ → String)
    (others : ℕ → Db → Db) (claims : List Claim) (unused : (n : ℕ) → Fresh (tokens n) claims)
    (keep : (n : ℕ) (d : Db)
      → Sound (record { db = d; claims = claims })
      → Sound (record { db = others n d; claims = claims })) where
  claim_loop-Owns :
      (rounds : ℕ) (lost : List ℕ) (db db' : Db) (c : Claim)
      → Sound (record { db = db; claims = claims })
      → claim_loop rounds topics names now tokens others lost db ≡ ok (some c, db')
      → Sound (record { db = db'; claims = c ∷ claims }) × Owns c claims db'.rows
  unfolding claim_loop
  claim_loop-Owns zero lost db db' c h e = absurd (cc)
  claim_loop-Owns (suc rounds) lost db db' c h e =
      elim (Option-cases (candidate names now lost db.rows)) [
        | inl no_row ↦ absurd (ground (arith, e, no_row))
        | inr (row, due) ↦ elim (Result-cases (topic_of topics row.topic)) [
          | inr (x, bad) ↦ absurd (ground (arith, e, due, bad))
          | inl (spec, reg) ↦
              let d = others rounds db in
              let until = now + seconds spec.lease_seconds in
              elim (Result-cases (stamp_row row (tokens rounds) until d)) [
                | inr (x, bad) ↦ absurd (ground (arith, e, due, reg, bad))
                | inl (none, race) ↦
                    claim_loop-Owns rounds (lost ++ (row.id ∷ [])) d db' c (keep rounds db h)
                      (ground (arith, e, due, reg, race))
                | inl (some (c', d'), won) ↦
                    let ec : c' ≡ c = ground (arith, e, due, reg, won) in
                    let ed : d' ≡ db' = ground (arith, e, due, reg, won) in
                    stamp_row-Owns row (tokens rounds) until (record { db = d; claims = claims })
                      db' c (keep rounds db h) (unused rounds)
                      (won ∙ ap₂ (λ x y. ok (some (x, y))) ec ed)
              ]
        ]
      ]

  -- When `claim` returns a claim, from a sound system, under fresh tokens and whatever sound changes
  -- other transactions commit between its reads and its stamps, then the system is sound with that
  -- claim outstanding, and every row with the claim's id is held by it and by no earlier claim.
  pub claim-Owns :
      (db db' : Db) (c : Claim)
      → Sound (record { db = db; claims = claims })
      → claim topics names now tokens others db ≡ ok (some c, db')
      → Sound (record { db = db'; claims = c ∷ claims }) × Owns c claims db'.rows
  unfolding claim
  claim-Owns db db' c h e = claim_loop-Owns 10 [] db db' c h e
