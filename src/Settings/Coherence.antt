-- ===== src/Settings/Coherence.antt =====
-- The shared cache of backend/core/settings_service.py beside the rows that it copies.
use django_base_x.Prelude.{
  ℕ, ◌+◌, ◌<◌, String, true, Option, none, some, List, ◌≡◌, refl, Bool-cases, Option-cases, inl,
  inr, arith, subst, All, All-impl, first_where, first_where-some, or_else, eq_iff, ap, ◌∙◌,
}
use django_base_x.Settings.Service.{
  Place, Row, Entry, Slot, Cache, Faults, entry_of, cached, is_slot, same_place, same_id, put,
  started, current_generation, bump_generation, query, lookup,
}

same_id-eq : (a b : Option String) → same_id a b ≡ true → a ≡ b
unfolding same_id
same_id-eq none none e = refl
same_id-eq none (some b) e = absurd (cc)
same_id-eq (some a) none e = absurd (cc)
same_id-eq (some a) (some b) e = ap some ((eq_iff a b).0 e)

pub same_place-eq : (a b : Place) → same_place a b ≡ true → a ≡ b
unfolding same_place
same_place-eq a b e = ground (
  arith,
  e,
  eq_iff a.key b.key,
  eq_iff a.scope_type b.scope_type,
  same_id-eq a.scope_id b.scope_id,
)

module _ {N : Type 0} where
  is_slot-eq :
      (g : ℕ) (place : Place) (slot : Slot N)
      → is_slot g place slot ≡ true
      → (slot.generation ≡ g) × (slot.place ≡ place)
  unfolding is_slot
  is_slot-eq g place slot e =
      (ground (arith, e), same_place-eq slot.place place (ground (arith, e)))

  -- The generation under which the next entry is kept: a missing one starts at the clock.
  unfoldable pub keeping : ℕ → Cache N → ℕ
  keeping now cache = or_else cache.generation now

  -- The entries of the current generation say what the rows say.
  unfoldable pub IsCoherent : ℕ → List (Row N) → Cache N → Type 0
  IsCoherent now rows cache =
      All (λ slot. slot.generation ≡ keeping now cache → slot.entry ≡ entry_of rows slot.place)
        cache.slots

  -- No entry is from a generation after the current one; without one, all are older than the clock.
  unfoldable pub next_generation : ℕ → Cache N → ℕ
  next_generation now cache = elim cache.generation [ none ↦ now | some g ↦ g + 1 ]

  unfoldable pub IsBehind : ℕ → Cache N → Type 0
  IsBehind now cache = All (λ slot. slot.generation < next_generation now cache) cache.slots

  module _ (P : Cache N → Type 0) (faults : Faults) (now : ℕ) (rows : List (Row N)) (place : Place)
      (starts : (cache : Cache N) → cache.generation ≡ none → P cache → P (started now cache))
      (puts : (cache : Cache N) (g : ℕ)
        → cache.generation ≡ some g
        → P cache
        → P (put g place (entry_of rows place) cache)) where
    current_generation-keeps :
        (cache : Cache N)
        → P cache
        → P (current_generation faults now cache).1
          × ((g : ℕ)
              → (current_generation faults now cache).0 ≡ some g
              → (current_generation faults now cache).1.generation ≡ some g)
    unfolding current_generation started
    current_generation-keeps cache h = elim (Bool-cases faults.reads_generation) [
      | inr r ↦ rw r (h, λ g e. absurd (cc))
      | inl r ↦ elim (Option-cases cache.generation) [
        | inr (g, e) ↦ rw (r, e) (h, λ k same. cc)
        | inl e ↦ elim (Bool-cases faults.adds_generation) [
          | inr a ↦ rw (r, e, a) (h, λ g same. absurd (cc))
          | inl a ↦ elim (Bool-cases faults.rereads_generation) [
            | inl b ↦ rw (r, e, a, b) (starts cache e h, λ g same. same)
            | inr b ↦ rw (r, e, a, b) (starts cache e h, λ g same. absurd (cc))
          ]
        ]
      ]
    ]

    query-keeps :
        (generation : Option ℕ) (cache : Cache N)
        → P cache
        → ((g : ℕ) → generation ≡ some g → cache.generation ≡ some g)
        → P (query faults generation rows place cache).1
    unfolding query
    query-keeps none cache h known = ground (arith, h)
    query-keeps (some g) cache h known = elim (Bool-cases faults.queries) [
      | inr q ↦ rw q h
      | inl q ↦ elim (Bool-cases faults.sets_entry) [
        | inl s ↦ rw (q, s) (puts cache g (known g refl) h)
        | inr s ↦ rw (q, s) h
      ]
    ]

    pub lookup-keeps : (cache : Cache N) → P cache → P (lookup faults now rows place cache).1
    unfolding lookup cached first_where current_generation query
    lookup-keeps cache h =
        let (kept, known) = current_generation-keeps cache h in
        let after : Cache N = (current_generation faults now cache).1 in
        elim (Option-cases (current_generation faults now cache).0) [
          | inl e ↦ rw (lookup, e) (query-keeps none after kept (λ g same. absurd (cc)))
          | inr (generation, e) ↦ elim (Bool-cases faults.gets_entry) [
            | inr b ↦ rw (lookup, e, b) (query-keeps none after kept (λ g same. absurd (cc)))
            | inl b ↦ elim (Option-cases (cached generation place after)) [
              | inl c ↦
                  rw (lookup, e, b, c)
                    (query-keeps (some generation) after kept (λ g same. known g (e ∙ same)))
              | inr (entry, c) ↦ rw (lookup, e, b, c) kept
            ]
          ]
        ]

  started-IsCoherent :
      (now : ℕ) (rows : List (Row N)) (cache : Cache N)
      → cache.generation ≡ none
      → IsCoherent now rows cache
      → IsCoherent now rows (started now cache)
  unfolding started IsCoherent keeping
  started-IsCoherent now rows cache e h =
      subst
        (λ o.
          All (λ slot. slot.generation ≡ or_else o now → slot.entry ≡ entry_of rows slot.place)
            cache.slots)
        e h

  pub next_generation-none :
      (now : ℕ) (cache : Cache N) → cache.generation ≡ none → next_generation now cache ≡ now
  unfolding next_generation
  next_generation-none now cache e = rw e refl

  pub next_generation-some :
      (now : ℕ) (cache : Cache N) (g : ℕ)
      → cache.generation ≡ some g
      → next_generation now cache ≡ g + 1
  unfolding next_generation
  next_generation-some now cache g e = rw e refl

  put-IsCoherent :
      (now : ℕ) (rows : List (Row N)) (place : Place) (cache : Cache N) (g : ℕ)
      → IsCoherent now rows cache
      → IsCoherent now rows (put g place (entry_of rows place) cache)
  unfolding put IsCoherent keeping
  put-IsCoherent now rows place cache g h = (λ _. refl, h)

  -- A lookup keeps the entries of the current generation true to the rows.
  pub lookup-IsCoherent :
      (faults : Faults) (now : ℕ) (rows : List (Row N)) (place : Place) (cache : Cache N)
      → IsCoherent now rows cache
      → IsCoherent now rows (lookup faults now rows place cache).1
  unfolding IsCoherent put keeping
  lookup-IsCoherent faults now rows place =
      lookup-keeps (IsCoherent now rows) faults now rows place
        (λ cache e h. started-IsCoherent now rows cache e h)
        (λ cache g e h. put-IsCoherent now rows place cache g h)

  pub lookup-IsBehind :
      (faults : Faults) (now : ℕ) (rows : List (Row N)) (place : Place) (cache : Cache N)
      → IsBehind now cache
      → IsBehind now (lookup faults now rows place cache).1
  unfolding IsBehind put started next_generation
  lookup-IsBehind faults now rows place =
      lookup-keeps (IsBehind now) faults now rows place
        (λ cache e h.
          All-impl (λ slot. slot.generation < next_generation now cache)
            (λ slot. slot.generation < now + 1)
            (λ slot older. omega (arith, older, next_generation-none now cache e)) cache.slots h)
        (λ cache g e h. (omega (arith, next_generation-some now cache g e), h))

  -- The entry under a generation and a place is one of those.
  cached-entry :
      (now : ℕ) (rows : List (Row N)) (place : Place) (cache : Cache N) (g : ℕ) (entry : Entry N)
      → IsCoherent now rows cache
      → g ≡ keeping now cache
      → cached g place cache ≡ some entry
      → entry ≡ entry_of rows place
  unfolding cached IsCoherent
  cached-entry now rows place cache g entry h same e =
      elim (Option-cases (first_where (is_slot g place) cache.slots)) [
        | inl none_ ↦ absurd (ground (arith, e, none_))
        | inr (slot, first) ↦
            let (fresh, here) =
              first_where-some
                (λ slot.
                  slot.generation ≡ keeping now cache → slot.entry ≡ entry_of rows slot.place)
                (is_slot g place) cache.slots slot h first in
            let (at, there) = is_slot-eq g place slot here in
            let told : slot.entry ≡ entry_of rows place =
              subst (λ p. slot.entry ≡ entry_of rows p) there (fresh (at ∙ same)) in
            ground (arith, e, first, told)
      ]

  keeping-some :
      (now : ℕ) (cache : Cache N) (g : ℕ) → cache.generation ≡ some g → g ≡ keeping now cache
  unfolding keeping
  keeping-some now cache g e = rw e refl

  query-entry :
      (faults : Faults) (generation : Option ℕ) (rows : List (Row N)) (place : Place)
      (cache : Cache N)
      → faults.queries ≡ true
      → (query faults generation rows place cache).0 ≡ some (entry_of rows place)
  unfolding query
  query-entry faults generation rows place cache up = rw up refl

  pub lookup-entry :
      (faults : Faults) (now : ℕ) (rows : List (Row N)) (place : Place) (cache : Cache N)
      → IsCoherent now rows cache
      → faults.queries ≡ true
      → (lookup faults now rows place cache).0 ≡ some (entry_of rows place)
  unfolding lookup current_generation query
  lookup-entry faults now rows place cache h up =
      let after : Cache N = (current_generation faults now cache).1 in
      let (kept, known) =
        current_generation-keeps (IsCoherent now rows) faults now rows place
          (λ cache e h. started-IsCoherent now rows cache e h)
          (λ cache g e h. put-IsCoherent now rows place cache g h) cache h in
      elim (Option-cases (current_generation faults now cache).0) [
        | inl e ↦ rw (lookup, e) (query-entry faults none rows place after up)
        | inr (generation, e) ↦ elim (Bool-cases faults.gets_entry) [
          | inr b ↦ rw (lookup, e, b) (query-entry faults none rows place after up)
          | inl b ↦ elim (Option-cases (cached generation place after)) [
            | inl c ↦
                rw (lookup, e, c, b) (query-entry faults (some generation) rows place after up)
            | inr (entry, c) ↦
                let same : generation ≡ keeping now after =
                  keeping-some now after generation (known generation e) in
                rw (lookup, e, c, b)
                  (ap some (cached-entry now rows place after generation entry kept same c))
          ]
        ]
      ]

  pub bump-IsCoherent :
      (now : ℕ) (rows : List (Row N)) (cache : Cache N)
      → IsBehind now cache
      → IsCoherent now rows (bump_generation true now cache)
  unfolding bump_generation IsCoherent IsBehind started keeping
  bump-IsCoherent now rows cache behind = elim (Option-cases cache.generation) [
    | inl e ↦ rw e (
        All-impl (λ slot. slot.generation < next_generation now cache)
          (λ slot. slot.generation ≡ now → slot.entry ≡ entry_of rows slot.place)
          (λ slot older same. absurd (omega (arith, older, same, next_generation-none now cache e)))
          cache.slots behind)
    | inr (g, e) ↦ rw e (
        All-impl (λ slot. slot.generation < next_generation now cache)
          (λ slot. slot.generation ≡ g + 1 → slot.entry ≡ entry_of rows slot.place)
          (λ slot older same.
            absurd (omega (arith, older, same, next_generation-some now cache g e)))
          cache.slots behind)
  ]
