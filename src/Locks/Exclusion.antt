-- ===== src/Locks/Exclusion.antt =====
-- Sequences of calls of MemoryStore (backend/core/locks.py), and the lock that a token took.
use django_base_x.Prelude.{
  ℕ, ◌+◌, ◌<◌, ◌≡◌, ◌*◌, All, refl, sym, ◌∙◌, ap, subst, String, Bool, true, false, some, List, [],
  ◌∷◌, arith, inl, inr, leb, str_eq, eq_iff, first_where, filter_by, Bool-cases, Option-cases,
}
use django_base_x.Locks.Store.{
  Entry, Store, get, remove, put, live, entry_for, acquire, release, extend,
}

differs :
    (a b : String)
    → str_eq a b ≡ false
    → (e : Entry) → str_eq e.key b ≡ true
    → str_eq e.key a ≡ false
differs a b f e t = elim (Bool-cases (str_eq e.key a)) [
  | inr n ↦ n
  | inl s ↦
      absurd (ground (arith, f, (eq_iff a b).1 (sym ((eq_iff e.key a).0 s) ∙ (eq_iff e.key b).0 t)))
]

get-remove :
    (key other : String) (s : Store)
    → str_eq other key ≡ false
    → get key (remove other s) ≡ get key s
unfolding get remove first_where filter_by
get-remove key other [] f = refl
get-remove key other (e ∷ s) f = elim (Bool-cases (str_eq e.key key)) [
  | inl t ↦ ground (arith, t, differs other key f e t, get-remove key other s f)
  | inr n ↦ ground (arith, n, get-remove key other s f)
]

get-put :
    (key : String) (e : Entry) (s : Store)
    → str_eq e.key key ≡ false
    → get key (put e s) ≡ get key s
unfolding get put first_where
get-put key e s f = ground (arith, f, get-remove key e.key s f)

get-live :
    (key other : String) (now : ℕ) (s : Store)
    → str_eq other key ≡ false
    → get key (live other now s).1 ≡ get key s
unfolding live
get-live key other now s f = elim (Option-cases (get other s)) [
  | inl gone ↦ rw (live, gone) refl
  | inr (e, there) ↦ elim (Bool-cases (leb e.expires_at now)) [
    | inl old ↦ rw (live, there, old) (get-remove key other s f)
    | inr young ↦ rw (live, there, young) refl
  ]
]

-- One call of the store by whoever holds a token.
pub data Op : Type 0 where
  acquiring : String → String → ℕ → ℕ → ℕ → Op
  releasing : String → String → ℕ → Op
  extending : String → String → ℕ → ℕ → ℕ → Op

abbrev pub run_op : Op → Store → Bool × Store
run_op (acquiring key token ttl_ms now then_) s = acquire key token ttl_ms now then_ s
run_op (releasing key token now) s = release key token now s
run_op (extending key token ttl_ms now then_) s = extend key token ttl_ms now then_ s

abbrev pub run : List Op → Store → Store
run [] s = s
run (op ∷ ops) s = run ops (run_op op s).1

-- A call under another token than `token`, before `expiry`.
abbrev pub Foreign : String → ℕ → Op → Type 0
Foreign token expiry (acquiring key other ttl_ms now then_) =
    (str_eq token other ≡ false) × (now < expiry)
Foreign token expiry (releasing key other now) = (str_eq token other ≡ false) × (now < expiry)
Foreign token expiry (extending key other ttl_ms now then_) =
    (str_eq token other ≡ false) × (now < expiry)

module _ (e : Entry) where
  live-held :
      (now : ℕ) (s : Store)
      → get e.key s ≡ some e
      → now < e.expires_at
      → live e.key now s ≡ (some e, s)
  unfolding live
  live-held now s held before = ground (arith, held)

  same_key : (key : String) → str_eq key e.key ≡ true → key ≡ e.key
  same_key key t = (eq_iff key e.key).0 t

  module _ (token : String) (now : ℕ) (s : Store) (held : get e.key s ≡ some e)
      (before : now < e.expires_at) where
    acquire-refused : (ttl_ms then_ : ℕ) → acquire e.key token ttl_ms now then_ s ≡ (false, s)
    unfolding acquire
    acquire-refused ttl_ms then_ = ground (
      arith,
      ap (λ x. x.0) (live-held now s held before),
      ap (λ x. x.1) (live-held now s held before),
    )

    release-refused : str_eq e.token token ≡ false → release e.key token now s ≡ (false, s)
    unfolding release
    release-refused other = ground (
      arith,
      other,
      ap (λ x. x.0) (live-held now s held before),
      ap (λ x. x.1) (live-held now s held before),
    )

    extend-refused :
        (ttl_ms then_ : ℕ)
        → str_eq e.token token ≡ false
        → extend e.key token ttl_ms now then_ s ≡ (false, s)
    unfolding extend
    extend-refused ttl_ms then_ other = ground (
      arith,
      other,
      ap (λ x. x.0) (live-held now s held before),
      ap (λ x. x.1) (live-held now s held before),
    )

  -- A call on the lock's own key that answers `false` and changes nothing.
  kept_on :
      (call : String → Bool × Store) (key : String) (s : Store)
      → str_eq key e.key ≡ true
      → get e.key s ≡ some e
      → call e.key ≡ (false, s)
      → get e.key (call key).1 ≡ some e
  kept_on call key s t held refused =
      subst (λ k. get e.key (call k).1 ≡ some e) (sym (same_key key t))
        (ap (λ x. get e.key x.1) refused ∙ held)

  op-kept :
      (op : Op) (s : Store)
      → get e.key s ≡ some e
      → Foreign e.token e.expires_at op
      → get e.key (run_op op s).1 ≡ some e
  unfolding acquire release extend entry_for
  op-kept (acquiring key token ttl_ms now then_) s held (other, before) =
      elim (Bool-cases (str_eq key e.key)) [
        | inl t ↦
            kept_on (λ k. acquire k token ttl_ms now then_ s) key s t held
              (acquire-refused token now s held before ttl_ms then_)
        | inr f ↦ elim (Option-cases (live key now s).0) [
          | inl free ↦
              rw (acquire, free)
                (get-put e.key (entry_for key token ttl_ms then_) (live key now s).1 f
                  ∙ get-live e.key key now s f
                  ∙ held)
          | inr (x, taken) ↦ rw (acquire, taken) (get-live e.key key now s f ∙ held)
        ]
      ]
  op-kept (releasing key token now) s held (other, before) = elim (Bool-cases (str_eq key e.key)) [
    | inl t ↦
        kept_on (λ k. release k token now s) key s t held
          (release-refused token now s held before other)
    | inr f ↦ elim (Option-cases (live key now s).0) [
      | inl free ↦ rw (release, free) (get-live e.key key now s f ∙ held)
      | inr (x, taken) ↦ elim (Bool-cases (str_eq x.token token)) [
        | inl mine ↦
            rw (release, taken, mine)
              (get-remove e.key key (live key now s).1 f ∙ get-live e.key key now s f ∙ held)
        | inr not_mine ↦ rw (release, taken, not_mine) (get-live e.key key now s f ∙ held)
      ]
    ]
  ]
  op-kept (extending key token ttl_ms now then_) s held (other, before) =
      elim (Bool-cases (str_eq key e.key)) [
        | inl t ↦
            kept_on (λ k. extend k token ttl_ms now then_ s) key s t held
              (extend-refused token now s held before ttl_ms then_ other)
        | inr f ↦ elim (Option-cases (live key now s).0) [
          | inl free ↦ rw (extend, free) (get-live e.key key now s f ∙ held)
          | inr (x, taken) ↦ elim (Bool-cases (str_eq x.token token)) [
            | inl mine ↦
                rw (extend, taken, mine)
                  (get-put e.key (entry_for key token ttl_ms then_) (live key now s).1 f
                    ∙ get-live e.key key now s f
                    ∙ held)
            | inr not_mine ↦ rw (extend, taken, not_mine) (get-live e.key key now s f ∙ held)
          ]
        ]
      ]

  run-kept :
      (ops : List Op) (s : Store)
      → get e.key s ≡ some e
      → All (Foreign e.token e.expires_at) ops
      → get e.key (run ops s) ≡ some e
  run-kept [] s held all = held
  run-kept (op ∷ ops) s held all = run-kept ops (run_op op s).1 (op-kept op s held all.0) all.1

acquired-get :
    (key token : String) (ttl_ms now then_ : ℕ) (s s' : Store)
    → acquire key token ttl_ms now then_ s ≡ (true, s')
    → get key s' ≡ some (entry_for key token ttl_ms then_)
unfolding acquire get put entry_for first_where
acquired-get key token ttl_ms now then_ s s' e = elim (Option-cases (live key now s).0) [
  | inl free ↦ ground (arith, e, free, (eq_iff key key).1 refl)
  | inr (x, taken) ↦ absurd (ground (arith, e, taken))
]

-- Mutual exclusion. After a lock was acquired under a token, whatever calls under other tokens
-- follow before it expires, on any keys and in any order: the lock is still its holder's, with the
-- same expiry, and nobody acquires it before then.
pub acquire-exclusive :
    (key token : String) (ttl_ms now then_ : ℕ) (s s' : Store) (ops : List Op)
    → acquire key token ttl_ms now then_ s ≡ (true, s')
    → All (Foreign token (then_ + ttl_ms * 1000)) ops
    → (get key (run ops s') ≡ some (entry_for key token ttl_ms then_))
      × ((other : String) (ttl' now' then' : ℕ)
          → now' < then_ + ttl_ms * 1000
          → acquire key other ttl' now' then' (run ops s') ≡ (false, run ops s'))
unfolding entry_for
acquire-exclusive key token ttl_ms now then_ s s' ops e all =
    let mine = entry_for key token ttl_ms then_ in
    let held = run-kept mine ops s' (acquired-get key token ttl_ms now then_ s s' e) all in
    (
      held,
      λ other ttl' now' then' before.
          acquire-refused mine other now' (run ops s') held before ttl' then',
    )
