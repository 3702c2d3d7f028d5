-- ===== src/Findings/Closing.antt =====
-- clear and resolve of backend/core/findings.py, over the open rows.
use django_base_x.Prelude.{
  is_none, ◌&&◌, ◌==◌, ℕ, ◌≤◌, ◌≡◌, refl, String, Bool, true, false, Option, List, arith, inl, inr,
  Bool-cases, update_where, count_where, count_where-update_where_self, count_where-update_where_le,
  sym, ◌∙◌, subst, count_where-update_where,
}
use django_base_x.Prelude.Result.{>>=-eq-ok, ok}
use django_base_x.Findings.{
  close, resolve, FindingKind, Finding, FindingTable, kind_of, is_open_of, auto_clear, clear,
}
use django_base_x.Findings.Unique.{IsUnique, is_open_of_same}

is_open_of-auto_clear :
    (k o : String) (i now : ℕ) (f : Finding) → is_open_of k o i (auto_clear now f) ≡ false
unfolding is_open_of auto_clear
is_open_of-auto_clear k o i now f = refl

-- A row that is open of one subject is not open of another.
is_open_of_other :
    (k o kind object_type : String) (i object_id : ℕ) (f : Finding)
    → ¬ ((k ≡ kind) × (o ≡ object_type) × (i ≡ object_id))
    → is_open_of kind object_type object_id f ≡ true
    → is_open_of k o i f ≡ false
is_open_of_other k o kind object_type i object_id f other h =
    elim (Bool-cases (is_open_of k o i f)) [
      | inr no_open ↦ no_open
      | inl both ↦
          let (ek, eo, ei) = is_open_of_same k o i f both in
          let (fk, fo, fi) = is_open_of_same kind object_type object_id f h in
          absurd (other (ek ∙ sym fk, eo ∙ sym fo, ei ∙ sym fi))
    ]

-- `clear` of a registered kind closes what was open of the subject: none is left, at most one was
-- closed, and another subject has as many open findings as before.
pub clear-none_open :
    (kinds : List FindingKind) (spec : FindingKind) (kind object_type : String) (object_id now : ℕ)
    (t : FindingTable) (k o : String) (i : ℕ)
    → IsUnique t
    → kind_of kinds kind ≡ ok spec
    → ¬ ((k ≡ kind) × (o ≡ object_type) × (i ≡ object_id))
    → (n : ℕ) × (s : FindingTable) × (clear kinds kind object_type object_id now t ≡ ok (n, s))
      × (n ≤ 1)
      × (count_where (is_open_of kind object_type object_id) s.rows ≡ 0)
      × (count_where (is_open_of k o i) s.rows ≡ count_where (is_open_of k o i) t.rows)
unfolding clear
clear-none_open kinds spec kind object_type object_id now t k o i u reg other =
    let q = is_open_of kind object_type object_id in
    (
      count_where q t.rows,
      record t { rows = update_where q (auto_clear now) t.rows },
      rw reg,
      u.at_most_one kind object_type object_id,
      count_where-update_where_self q (auto_clear now)
          (is_open_of-auto_clear kind object_type object_id now) t.rows,
      count_where-update_where (is_open_of k o i) q (auto_clear now)
          (λ f h.
            is_open_of-auto_clear k o i now f
            ∙ sym (is_open_of_other k o kind object_type i object_id f other h))
          t.rows,
    )

-- An update that closes rows keeps at most one open finding of each subject.
closing-IsUnique :
    (p : Finding → Bool) (f : Finding → Finding) {t : FindingTable}
    → ((k o : String) (i : ℕ) (x : Finding) → is_open_of k o i (f x) ≡ false)
    → IsUnique t
    → IsUnique (record t { rows = update_where p f t.rows })
closing-IsUnique p f {t} shut u = record {
  at_most_one = λ k o i. omega (
    arith,
    count_where-update_where_le (is_open_of k o i) p f (shut k o i) t.rows,
    u.at_most_one k o i,
  );
}

pub clear-IsUnique :
    (kinds : List FindingKind) (kind object_type : String) (object_id now : ℕ) (t s : FindingTable)
    (n : ℕ)
    → IsUnique t
    → clear kinds kind object_type object_id now t ≡ ok (n, s)
    → IsUnique s
unfolding clear
clear-IsUnique kinds kind object_type object_id now t s n u h =
    let q = is_open_of kind object_type object_id in
    let (spec, reg, done) = >>=-eq-ok (kind_of kinds kind) _ h in
    let same : record t { rows = update_where q (auto_clear now) t.rows } ≡ s =
      ground (arith, done) in
    subst IsUnique same
      (closing-IsUnique q (auto_clear now) (λ k o i x. is_open_of-auto_clear k o i now x) u)

is_open_of-close :
    (k o : String) (i now : ℕ) (resolution note : String) (actor : Option ℕ) (f : Finding)
    → is_open_of k o i (close now resolution note actor f) ≡ false
unfolding is_open_of close
is_open_of-close k o i now resolution note actor f = refl

pub resolve-IsUnique :
    (kinds : List FindingKind) (finding : Finding) (resolution note : String) (actor : Option ℕ)
    (now : ℕ) (t s : FindingTable) (b : Bool)
    → IsUnique t
    → resolve kinds finding resolution note actor now t ≡ ok (b, s)
    → IsUnique s
unfolding resolve
resolve-IsUnique kinds finding resolution note actor now t s b u h =
    let target = λ (f : Finding). is_none f.resolved_at && f.id == finding.id in
    let (spec, reg, done) = >>=-eq-ok (kind_of kinds finding.kind) _ h in
    let same : record t { rows = update_where target (close now resolution note actor) t.rows }
        ≡ s =
      ground (arith, done) in
    subst IsUnique same (
      closing-IsUnique target (close now resolution note actor)
        (λ k o i x. is_open_of-close k o i now resolution note actor x) u)
