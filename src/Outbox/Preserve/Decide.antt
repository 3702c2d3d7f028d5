-- ===== src/Outbox/Preserve/Decide.antt =====
-- resolve_unknown of backend/core/outbox/service.py, as a transaction of the system.
use django_base_x.Prelude.{
  ℕ, ◌≡◌, refl, subst, sym, String, Bool, true, false, List, [], ◌∷◌, Option, arith, inl, inr,
  Bool-cases, All-update_where, any_where, filter_by,
}
use django_base_x.Prelude.Result.{ok, ok-injective, Result-cases, >>=-eq-ok}
use django_base_x.Findings.{FindingKind, FindingTable, Finding, is_open_of, resolve}
use django_base_x.Findings.Unique.{IsUnique}
use django_base_x.Findings.Closing.{resolve-IsUnique}
use django_base_x.Outbox.Message.{Message, Db, Status, is_leased, unknown_kind, object_type}
use django_base_x.Outbox.Resolve.{
  Action, mark_sent, resend, other, is_unknown_row, as_sent, as_resend, resolve_all, decide,
  resolve_unknown,
}
use django_base_x.Outbox.Invariant.{RowOk, as_sent-RowOk, as_resend-RowOk}
use django_base_x.Outbox.Moves.{Good, edge, Moves-refl, Moves-update_where}
use django_base_x.Outbox.Sound.{System, Sound, Keeps, updated, unlease-Sound}

-- The loop over the open findings.
resolve_all-IsUnique :
    (kinds : List FindingKind) (fs : List Finding) (resolution note : String) (actor : Option ℕ)
    (now : ℕ) (t u : FindingTable)
    → IsUnique t
    → resolve_all kinds fs resolution note actor now t ≡ ok u
    → IsUnique u
unfolding resolve_all
resolve_all-IsUnique kinds [] resolution note actor now t u h e = subst IsUnique (ok-injective e) h
resolve_all-IsUnique kinds (f ∷ fs) resolution note actor now t u h e =
    let ((b, t'), one, rest) = >>=-eq-ok (resolve kinds f resolution note actor now t) _ e in
    resolve_all-IsUnique kinds fs resolution note actor now t' u
      (resolve-IsUnique kinds f resolution note actor now t t' b h one) rest

unknown_status : (id : ℕ) (m : Message) → is_unknown_row id m ≡ true → m.status ≡ Status.unknown
unfolding is_unknown_row
unknown_status id m h = ground arith

decide-Good :
    (kinds : List FindingKind) (id : ℕ) (resolution : String) (write : Message → Message)
    (actor : Option ℕ) (note : String) (now : ℕ) (s : System) (b : Bool) (db' : Db)
    → Keeps write
    → ((m : Message) → RowOk m → RowOk (write m))
    → ((m : Message) → is_leased (write m).status ≡ false)
    → ((m : Message) → edge Status.unknown (write m).status ≡ true)
    → Sound s
    → decide kinds id resolution write actor note now s.db ≡ ok (b, db')
    → Good s db'
unfolding decide
decide-Good kinds id resolution write actor note now s b db' k keep free along h e =
    elim (Bool-cases (any_where (is_unknown_row id) s.db.rows)) [
      | inr gone ↦
          let same : s.db ≡ db' = ground (arith, e, gone) in
          subst (Good s) same (record { sound = h; moves = Moves-refl s.db.rows })
      | inl found ↦
          let open_rows = filter_by (is_open_of unknown_kind object_type id) s.db.findings.rows in
          elim (Result-cases
            (resolve_all kinds open_rows resolution note actor now s.db.findings)) [
              | inr (x, bad) ↦ absurd (ground (arith, e, found, bad))
              | inl (fs, closed) ↦
                  let same : (updated s (is_unknown_row id) write fs).db ≡ db' =
                    ground (arith, e, found, closed) in
                  subst (Good s) same (record {
                    moves =
                        Moves-update_where (is_unknown_row id) write
                          (λ m t. (
                            sym (k.id m),
                            subst (λ (x : Status). edge x (write m).status ≡ true)
                                (sym (unknown_status id m t)) (along m),
                          ))
                          s.db.rows;
                    sound =
                        unlease-Sound s (is_unknown_row id) write fs k (λ m _. free m) h
                          (resolve_all-IsUnique kinds open_rows resolution note actor now
                            s.db.findings fs h.one_open closed)
                          (All-update_where RowOk (is_unknown_row id) write (λ m r _. keep m r)
                            s.db.rows h.rows_ok);
                  })
            ]
    ]

-- A human's decision keeps the system sound.
pub resolve_unknown-Good :
    (kinds : List FindingKind) (id : ℕ) (action : Action) (actor : Option ℕ) (note : String)
    (now : ℕ) (s : System) (b : Bool) (db' : Db)
    → Sound s
    → resolve_unknown kinds id action actor note now s.db ≡ ok (b, db')
    → Good s db'
unfolding resolve_unknown as_sent as_resend
resolve_unknown-Good kinds id mark_sent actor note now s b db' h e =
    decide-Good kinds id "marked_sent" (as_sent now) actor note now s b db'
      (record { id = λ m. refl; key = λ m. refl }) (λ m r. as_sent-RowOk now r) (λ m. refl)
      (λ m. refl) h e
resolve_unknown-Good kinds id resend actor note now s b db' h e =
    decide-Good kinds id "resent" (as_resend now) actor note now s b db'
      (record { id = λ m. refl; key = λ m. refl }) (λ m r. as_resend-RowOk now r) (λ m. refl)
      (λ m. refl) h e
resolve_unknown-Good kinds id (other a) actor note now s b db' h e = absurd (cc)
