-- ===== src/Flags/Laws.antt =====
-- The order in which backend/core/flags.py decides a flag, and what a write makes of it.
use django_base_x.Prelude.{
  ℕ, ◌≤◌, ◌∙◌, String, true, false, not, ◌&&◌, Option, none, some, List, [], ◌∷◌, ◌≡◌, ◌⊎◌, refl,
  sym, subst, inl, inr, Bool-cases, arith, str_eq, eq_iff, eq_refl, any_where,
}
use django_base_x.Flags.Resolution.{
  Flag, Caller, is_among, share_one, role_slugs_of, is_none_of, targets, is_untargeted, find,
  tenant_matches, is_target, is_on,
}
use django_base_x.Flags.Cache.{Cache, Faults, row_of}
use django_base_x.Flags.Answers.{answer_of, flag_enabled}
use django_base_x.Flags.Coherence.{IsCoherent, row_of-rows}

-- The name is one of the names.
pub Has : String → List String → Type 0
Has name [] = ⊥
Has name (other ∷ others) = (other ≡ name) ⊎ Has name others

pub IsUntargeted : Flag → Type 0
IsUntargeted flag =
    (targets flag.user_ids ≡ []) × (targets flag.role_slugs ≡ []) × (targets flag.tenant_ids ≡ [])

pub IsTarget : Flag → Caller → Option String → Type 0
IsTarget flag caller tenant =
    Has caller.public_id (targets flag.user_ids)
    ⊎ ((role : String) × Has role (role_slugs_of caller) × Has role (targets flag.role_slugs))
    ⊎ ((id : String) × (tenant ≡ some id) × Has id (targets flag.tenant_ids))

-- The documented rules: an enabled flag is on for everyone if it has no targets, and else for an
-- authenticated caller whose id, role or tenant is among them.
pub IsOn : Flag → Option Caller → Option String → Type 0
IsOn flag user tenant =
    (flag.enabled ≡ true)
    × (IsUntargeted flag
        ⊎ ((caller : Caller) × (user ≡ some caller)
            × (caller.is_authenticated ≡ true)
            × IsTarget flag caller tenant))

is_among-Has : (name : String) (names : List String) → is_among name names ≡ true → Has name names
unfolding is_among any_where Has
is_among-Has name [] e = absurd (cc)
is_among-Has name (other ∷ others) e = elim (Bool-cases (str_eq other name)) [
  | inl t ↦ inl ((eq_iff other name).0 t)
  | inr t ↦ inr (is_among-Has name others (ground (arith, e, t)))
]

Has-is_among : (name : String) (names : List String) → Has name names → is_among name names ≡ true
unfolding is_among any_where Has
Has-is_among name [] h = elim h [ ]
Has-is_among name (other ∷ others) (inl same) = rw same (rw (eq_refl name) refl)
Has-is_among name (other ∷ others) (inr later) = ground (arith, Has-is_among name others later)

share_one-Has :
    (names others : List String)
    → share_one names others ≡ true
    → (name : String) × Has name names × Has name others
unfolding share_one any_where Has
share_one-Has [] others e = absurd (cc)
share_one-Has (name ∷ names) others e = elim (Bool-cases (is_among name others)) [
  | inl t ↦ (name, inl refl, is_among-Has name others t)
  | inr t ↦
      let (found, mine, theirs) = share_one-Has names others (ground (arith, e, t)) in
      (found, inr mine, theirs)
]

Has-share_one :
    (name : String) (names others : List String)
    → Has name names
    → Has name others
    → share_one names others ≡ true
unfolding share_one any_where Has
Has-share_one name [] others h k = elim h [ ]
Has-share_one name (first ∷ names) others (inl same) h = rw (same, Has-is_among name others h) refl
Has-share_one name (first ∷ names) others (inr later) h =
    ground (arith, Has-share_one name names others later h)

is_none_of-eq : (names : List String) → is_none_of names ≡ true → names ≡ []
is_none_of-eq [] e = refl
is_none_of-eq (x ∷ xs) e = absurd (cc)

Has-is_none_of : (name : String) (names : List String) → Has name names → is_none_of names ≡ false
unfolding Has
Has-is_none_of name [] h = elim h [ ]
Has-is_none_of name (x ∷ xs) h = refl

-- The part of is_target for an authenticated caller.
IsTarget-is_target :
    (flag : Flag) (caller : Caller) (tenant : Option String)
    → caller.is_authenticated ≡ true
    → IsTarget flag caller tenant
    → is_target flag (some caller) tenant ≡ true
unfolding is_target IsTarget tenant_matches share_one any_where role_slugs_of
IsTarget-is_target flag caller tenant known (inl h) =
    rw (known, Has-is_among caller.public_id (targets flag.user_ids) h) refl
IsTarget-is_target flag caller tenant known (inr (inl (role, mine, theirs))) =
    elim (Bool-cases (is_among caller.public_id (targets flag.user_ids))) [
      | inl t ↦ rw (known, t) refl
      | inr t ↦
          rw
            (
              known,
              t,
              Has-is_none_of role (targets flag.role_slugs) theirs,
              Has-share_one role (role_slugs_of caller) (targets flag.role_slugs) mine theirs,
            )
            refl
    ]
IsTarget-is_target flag caller tenant known (inr (inr (id, same, h))) =
    let there : tenant_matches tenant flag ≡ true =
      rw (same, tenant_matches, Has-is_among id (targets flag.tenant_ids) h) refl in
    elim (Bool-cases (is_among caller.public_id (targets flag.user_ids))) [
      | inl t ↦ rw (known, t) refl
      | inr t ↦
          elim (Bool-cases (
            not (is_none_of (targets flag.role_slugs))
            && share_one (role_slugs_of caller) (targets flag.role_slugs))) [
              | inl u ↦ rw (known, t, u) refl
              | inr u ↦ rw (known, t, u) there
            ]
    ]

tenant_matches-Has :
    (tenant : Option String) (flag : Flag)
    → tenant_matches tenant flag ≡ true
    → (id : String) × (tenant ≡ some id) × Has id (targets flag.tenant_ids)
unfolding tenant_matches
tenant_matches-Has none flag e = absurd (cc)
tenant_matches-Has (some id) flag e = (id, refl, is_among-Has id (targets flag.tenant_ids) e)

is_target-IsTarget :
    (flag : Flag) (caller : Caller) (tenant : Option String)
    → is_target flag (some caller) tenant ≡ true
    → (caller.is_authenticated ≡ true) × IsTarget flag caller tenant
unfolding is_target IsTarget
is_target-IsTarget flag caller tenant e = elim (Bool-cases caller.is_authenticated) [
  | inr a ↦ absurd (ground (arith, e, a))
  | inl a ↦ elim (Bool-cases (is_among caller.public_id (targets flag.user_ids))) [
    | inl t ↦ (a, inl (is_among-Has caller.public_id (targets flag.user_ids) t))
    | inr t ↦ elim (Bool-cases (share_one (role_slugs_of caller) (targets flag.role_slugs))) [
      | inl u ↦ (a, inr (inl (share_one-Has (role_slugs_of caller) (targets flag.role_slugs) u)))
      | inr u ↦ (a, inr (inr (tenant_matches-Has tenant flag (ground (arith, e, a, t, u)))))
    ]
  ]
]

targeted-IsTarget :
    (flag : Flag) (user : Option Caller) (tenant : Option String)
    → is_target flag user tenant ≡ true
    → (caller : Caller) × (user ≡ some caller)
      × (caller.is_authenticated ≡ true)
      × IsTarget flag caller tenant
unfolding is_target
targeted-IsTarget flag none tenant e = absurd (cc)
targeted-IsTarget flag (some caller) tenant e =
    let (known, target) = is_target-IsTarget flag caller tenant e in (caller, refl, known, target)

is_on-IsOn :
    (flag : Flag) (user : Option Caller) (tenant : Option String)
    → is_on (some flag) user tenant ≡ true
    → IsOn flag user tenant
unfolding is_on IsOn IsUntargeted is_untargeted
is_on-IsOn flag user tenant e = elim (Bool-cases flag.enabled) [
  | inr a ↦ absurd (ground (arith, e, a))
  | inl a ↦ elim (Bool-cases (is_untargeted flag)) [
    | inl t ↦ (
      a,
      inl (
        is_none_of-eq (targets flag.user_ids) (ground (arith, t)),
        is_none_of-eq (targets flag.role_slugs) (ground (arith, t)),
        is_none_of-eq (targets flag.tenant_ids) (ground (arith, t)),
      ),
    )
    | inr t ↦ (a, inr (targeted-IsTarget flag user tenant (ground (arith, e, a, t))))
  ]
]

IsOn-is_on :
    (flag : Flag) (user : Option Caller) (tenant : Option String)
    → IsOn flag user tenant
    → is_on (some flag) user tenant ≡ true
unfolding is_on IsOn IsUntargeted is_untargeted
IsOn-is_on flag user tenant (live, inl (users, roles, tenants)) =
    rw (live, users, roles, tenants) refl
IsOn-is_on flag user tenant (live, inr (caller, same, known, target)) =
    elim (Bool-cases (is_untargeted flag)) [
      | inl t ↦ rw (live, t) refl
      | inr t ↦
          let reached = IsTarget-is_target flag caller tenant known target in
          subst (λ u. is_on (some flag) u tenant ≡ true) (sym same)
            (ground (arith, live, t, reached))
    ]

answer_of-IsOn :
    (row : Option Flag) (left : Cache) (user : Option Caller) (tenant : Option String)
    → (answer_of (row, left) user tenant).0 ≡ true
    → (flag : Flag) × (row ≡ some flag) × IsOn flag user tenant
unfolding answer_of is_on
answer_of-IsOn none left user tenant e = absurd (cc)
answer_of-IsOn (some flag) left user tenant e = (flag, refl, is_on-IsOn flag user tenant e)

-- The documented order, read off the rows alone.
pub IsLive : List String → List Flag → String → Option Caller → Option String → Type 0
IsLive registered rows key user tenant =
    Has key registered × (flag : Flag) × (find rows key ≡ some flag) × IsOn flag user tenant

module _ (registered : List String) (faults : Faults) (now later : ℕ) (rows : List Flag)
    (cache : Cache) (le : now ≤ later) (coherent : IsCoherent now rows cache) (key : String)
    (user : Option Caller) (tenant : Option String) where
  flag_enabled-IsLive :
      (flag_enabled registered faults later rows key user tenant cache).0 ≡ true
      → IsLive registered rows key user tenant
  unfolding flag_enabled IsLive
  flag_enabled-IsLive e = elim (Bool-cases (is_among key registered)) [
    | inr r ↦ absurd (ground (arith, e, r))
    | inl r ↦
        let seen = row_of faults later rows key cache in
        let (flag, n, on) = answer_of-IsOn seen.0 seen.1 user tenant (ground (arith, e, r)) in
        elim (row_of-rows faults now later rows key cache le coherent) [
          | inl same ↦ (is_among-Has key registered r, flag, sym same ∙ n, on)
          | inr (gone, failed) ↦ absurd (ground (arith, gone, n))
        ]
  ]

  IsLive-flag_enabled :
      IsLive registered rows key user tenant
      → ((flag_enabled registered faults later rows key user tenant cache).0 ≡ true)
        ⊎ (faults.queries ≡ false)
  unfolding flag_enabled IsLive answer_of
  IsLive-flag_enabled (known, flag, n, on) =
      elim (row_of-rows faults now later rows key cache le coherent) [
        | inr (gone, failed) ↦ inr failed
        | inl same ↦
            inl (rw (Has-is_among key registered known, same, n) (IsOn-is_on flag user tenant on))
      ]

  -- Under a cache that is true to the rows, whatever calls of the cache fail, a flag that is on is
  -- one of which the rows say so in the documented order: the key is registered and has a row, the
  -- row is enabled, and the row has no targets or the caller is authenticated and its id, one of
  -- its roles or the tenant is among them. A flag of which the rows say so is on, unless the
  -- database fails with DatabaseError.
  pub flag_enabled_iff :
      ((flag_enabled registered faults later rows key user tenant cache).0 ≡ true
        → IsLive registered rows key user tenant)
      × (IsLive registered rows key user tenant
          → ((flag_enabled registered faults later rows key user tenant cache).0 ≡ true)
            ⊎ (faults.queries ≡ false))
  flag_enabled_iff = (flag_enabled-IsLive, IsLive-flag_enabled)
