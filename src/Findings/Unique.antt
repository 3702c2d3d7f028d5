-- ===== src/Findings/Unique.antt =====
-- The partial unique index on open findings, and raise_or_touch of backend/core/findings.py under it.
use django_base_x.Prelude.{
  ℕ, ◌+◌, ◌≤◌, ◌≡◌, refl, String, Bool, true, false, Option, none, some, List, [], ◌∷◌, ◌++◌, arith,
  inl, inr, eq_iff, Bool-cases, Option-cases, update_where, count_where, any_where,
  any_where-count_where, sym, ◌∙◌, subst, any_where-count_where_pos, count_where-append,
  count_where-update_where,
}
use django_base_x.Prelude.Result.{Result-cases, ok-injective, ok, err}
use django_base_x.Errors.{Exc}
use django_base_x.Values.{Report}
use django_base_x.Findings.{
  FindingKind, Finding, FindingTable, kind_of, is_open_of, touch, new_finding, create,
  raise_or_touch,
}

-- The partial unique index core_finding_open_uq.
pub record IsUnique (t : FindingTable) : Type 0 where
  pub at_most_one :
      (kind object_type : String) (object_id : ℕ)
      → count_where (is_open_of kind object_type object_id) t.rows ≤ 1

is_open_of-touch :
    (now : ℕ) (title : String) (details : Option Report) (k o : String) (i : ℕ) (f : Finding)
    → is_open_of k o i (touch now title details f) ≡ is_open_of k o i f
unfolding is_open_of touch
is_open_of-touch now title details k o i f = refl

touch-IsUnique :
    (p : Finding → Bool) (now : ℕ) (title : String) (details : Option Report) {t : FindingTable}
    → IsUnique t
    → IsUnique (record t { rows = update_where p (touch now title details) t.rows })
touch-IsUnique p now title details {t} u = record {
  at_most_one = λ k o i. omega (
    arith,
    u.at_most_one k o i,
    count_where-update_where (is_open_of k o i) p (touch now title details)
        (λ f _. is_open_of-touch now title details k o i f) t.rows,
  );
}

-- An open finding of a subject names that subject.
pub is_open_of_same :
    (k o : String) (i : ℕ) (f : Finding)
    → is_open_of k o i f ≡ true
    → (k ≡ f.kind) × (o ≡ f.object_type) × (i ≡ f.object_id)
unfolding is_open_of
is_open_of_same k o i f h = ground (arith, eq_iff f.kind k, eq_iff f.object_type o)

pub create-some :
    (f : Finding) (t s : FindingTable)
    → create f t ≡ some s
    → (any_where (is_open_of f.kind f.object_type f.object_id) t.rows ≡ false)
      × (s.rows ≡ t.rows ++ (f ∷ []))
unfolding create
create-some f t s h = ground arith

count_where-one : (p : Finding → Bool) (f : Finding) → (p f ≡ false) → count_where p (f ∷ []) ≡ 0
unfolding count_where
count_where-one p f h = rw h

count_where-single : (p : Finding → Bool) (f : Finding) → p f ≡ true → count_where p (f ∷ []) ≡ 1
unfolding count_where
count_where-single p f h = rw h

count_where-one_le : (p : Finding → Bool) (f : Finding) → count_where p (f ∷ []) ≤ 1
unfolding count_where
count_where-one_le p f = ground arith

pub create-IsUnique :
    (f : Finding) (t s : FindingTable) → IsUnique t → create f t ≡ some s → IsUnique s
create-IsUnique f t s u h =
    let (free, added) = create-some f t s h in
    record {
      at_most_one = λ k o i.
          let split : count_where (is_open_of k o i) (t.rows ++ (f ∷ []))
              ≡ count_where (is_open_of k o i) t.rows + count_where (is_open_of k o i) (f ∷ []) =
            count_where-append (is_open_of k o i) t.rows (f ∷ []) in
          rw added (elim (Bool-cases (is_open_of k o i f)) [
            | inr other ↦
                omega
                  (arith, split, count_where-one (is_open_of k o i) f other, u.at_most_one k o i)
            | inl same ↦
                let (ek, eo, ei) = is_open_of_same k o i f same in
                let none_open : count_where (is_open_of k o i) t.rows ≡ 0 =
                  rw (ek, eo, ei) (any_where-count_where _ t.rows free) in
                omega (arith, split, none_open, count_where-one_le (is_open_of k o i) f)
          ]);
    }

create-none :
    (f : Finding) (t : FindingTable)
    → create f t ≡ none
    → any_where (is_open_of f.kind f.object_type f.object_id) t.rows ≡ true
unfolding create
create-none f t h = ground arith

module _ (kind object_type : String) (object_id : ℕ) (title : String) (details : Option Report)
    (now : ℕ) where
  touched : FindingTable → FindingTable
  touched s = record s {
    rows = update_where (is_open_of kind object_type object_id) (touch now title details) s.rows;
  }

  touched-one :
      (t : FindingTable)
      → IsUnique t
      → any_where (is_open_of kind object_type object_id) t.rows ≡ true
      → IsUnique (touched t)
        × (count_where (is_open_of kind object_type object_id) (touched t).rows ≡ 1)
  unfolding touched
  touched-one t u found =
      let q = is_open_of kind object_type object_id in
      (
        touch-IsUnique q now title details u,
        omega (
          arith,
          u.at_most_one kind object_type object_id,
          any_where-count_where_pos q t.rows found,
          count_where-update_where q q (touch now title details)
              (λ f _. is_open_of-touch now title details kind object_type object_id f) t.rows,
        ),
      )

  new_finding-open :
      (spec : FindingKind) (id : ℕ)
      → is_open_of kind object_type object_id
          (new_finding spec id kind object_type object_id title details now)
        ≡ true
  unfolding is_open_of new_finding
  new_finding-open spec id = ground (arith, eq_iff kind kind, eq_iff object_type object_type)

  created-one :
      (spec : FindingKind) (t s : FindingTable)
      → IsUnique t
      → create (new_finding spec t.next_id kind object_type object_id title details now) t ≡ some s
      → IsUnique s × (count_where (is_open_of kind object_type object_id) s.rows ≡ 1)
  unfolding new_finding
  created-one spec t s u h =
      let q = is_open_of kind object_type object_id in
      let f = new_finding spec t.next_id kind object_type object_id title details now in
      let (free, added) = create-some f t s h in
      (
        create-IsUnique f t s u h,
        rw added (
            omega (
              arith,
              count_where-append q t.rows (f ∷ []),
              any_where-count_where q t.rows free,
              count_where-single q f (new_finding-open spec t.next_id),
            )),
      )

-- After `raise_or_touch`, of a registered kind and whatever other transactions committed between
-- its update and its insert under the unique index, there is exactly one open finding of the
-- subject, and still at most one of every other.
pub raise_or_touch-one_open :
    (kinds : List FindingKind) (others : FindingTable → FindingTable) (spec : FindingKind)
    (kind object_type : String) (object_id : ℕ) (title : String) (details : Option Report) (now : ℕ)
    (t : FindingTable)
    → ((s : FindingTable) → IsUnique s → IsUnique (others s))
    → IsUnique t
    → kind_of kinds kind ≡ ok spec
    → (s : FindingTable) × (raise_or_touch kinds others kind object_type object_id title details now
          t
        ≡ ok s)
      × IsUnique s
      × (count_where (is_open_of kind object_type object_id) s.rows ≡ 1)
unfolding raise_or_touch touched
raise_or_touch-one_open kinds others spec kind object_type object_id title details now t keep u
      reg =
    let q = is_open_of kind object_type object_id in
    let f = new_finding spec (others t).next_id kind object_type object_id title details now in
    elim (Bool-cases (any_where q t.rows)) [
      | inl found ↦
          let (u', one) = touched-one kind object_type object_id title details now t u found in
          (touched kind object_type object_id title details now t, rw (reg, found), u', one)
      | inr absent ↦ elim (Option-cases (create f (others t))) [
        | inl clash ↦
            let (u', one) =
              touched-one kind object_type object_id title details now (others t) (keep t u)
                (unfold new_finding in create-none f (others t) clash) in
            (
              touched kind object_type object_id title details now (others t),
              ground (arith, reg, absent, clash),
              u',
              one,
            )
        | inr (s, made) ↦
            let (u', one) =
              created-one kind object_type object_id title details now spec (others t) s (keep t u)
                made in
            (s, ground (arith, reg, absent, made), u', one)
      ]
    ]

-- A finding of an unregistered kind is refused, and nothing is written.
pub raise_or_touch-unregistered :
    (kinds : List FindingKind) (others : FindingTable → FindingTable) (kind object_type : String)
    (object_id : ℕ) (title : String) (details : Option Report) (now : ℕ) (t : FindingTable)
    (e : Exc)
    → kind_of kinds kind ≡ err e
    → raise_or_touch kinds others kind object_type object_id title details now t ≡ err e
unfolding raise_or_touch
raise_or_touch-unregistered kinds others kind object_type object_id title details now t e h = rw h

pub raise_or_touch-IsUnique :
    (kinds : List FindingKind) (kind object_type : String) (object_id : ℕ) (title : String)
    (details : Option Report) (now : ℕ) (t s : FindingTable)
    → IsUnique t
    → raise_or_touch kinds (λ x. x) kind object_type object_id title details now t ≡ ok s
    → IsUnique s
raise_or_touch-IsUnique kinds kind object_type object_id title details now t s u h =
    elim (Result-cases (kind_of kinds kind)) [
      | inl (spec, reg) ↦
          let (s', made, u', one) =
            raise_or_touch-one_open kinds (λ x. x) spec kind object_type object_id title details now
              t (λ _ v. v) u reg in
          subst IsUnique (ok-injective (sym made ∙ h)) u'
      | inr (e, bad) ↦ absurd (
          cc (
            h,
            raise_or_touch-unregistered kinds (λ x. x) kind object_type object_id title details now
                t e bad,
          ))
    ]
