-- ===== src/Settings/Formed.antt =====
-- Cached entries of the form that _lookup of backend/core/settings_service.py puts there.
use django_base_x.Prelude.{
  ℕ, Option, none, some, List, ◌≡◌, refl, sym, subst, arith, inl, inr, Bool-cases, Option-cases,
  All, first_where, first_where-some,
}
use django_base_x.Settings.Service.{
  Place, Row, Entry, absent, found, malformed, Slot, Cache, Faults, entry_of, cached, is_slot,
  current_generation, started, put, query, lookup, is_at,
}
use django_base_x.Settings.Coherence.{lookup-keeps}

module _ {N : Type 0} where
  unfoldable pub IsFormed : Entry N → Type 0
  IsFormed absent = Unit
  IsFormed (found value locked) = Unit
  IsFormed malformed = ⊥

  unfoldable pub IsFormedIn : Option (Entry N) → Type 0
  IsFormedIn none = Unit
  IsFormedIn (some entry) = IsFormed entry

  unfoldable pub IsSound : Cache N → Type 0
  IsSound cache = All (λ (slot : Slot N). IsFormed slot.entry) cache.slots

  entry_of-found :
      (rows : List (Row N)) (place : Place) (row : Option (Row N))
      → first_where (is_at place) rows ≡ row
      → IsFormed (entry_of rows place)
  unfolding entry_of IsFormed
  entry_of-found rows place none e = rw (entry_of, e) tt
  entry_of-found rows place (some row) e = rw (entry_of, e) tt

  pub entry_of-IsFormed : (rows : List (Row N)) (place : Place) → IsFormed (entry_of rows place)
  entry_of-IsFormed rows place = entry_of-found rows place (first_where (is_at place) rows) refl

  cached-IsFormedIn :
      (generation : ℕ) (place : Place) (cache : Cache N) (slot : Option (Slot N))
      → IsSound cache
      → first_where (is_slot generation place) cache.slots ≡ slot
      → IsFormedIn (cached generation place cache)
  unfolding cached IsFormedIn IsSound
  cached-IsFormedIn generation place cache none h e = rw (cached, e) tt
  cached-IsFormedIn generation place cache (some slot) h e =
      rw (cached, e)
        ((first_where-some (λ (s : Slot N). IsFormed s.entry) (is_slot generation place) cache.slots
          slot h e).0)

  known-IsSound :
      (faults : Faults) (now : ℕ) (generation : Option ℕ) (slots : List (Slot N))
      → let cache : Cache N = record { generation = generation; slots = slots } in
        (current_generation faults now cache).1.slots ≡ slots
  unfolding current_generation started
  known-IsSound faults now none slots = ground arith
  known-IsSound faults now (some g) slots = ground arith

  query-IsFormedIn :
      (faults : Faults) (generation : Option ℕ) (rows : List (Row N)) (place : Place)
      (cache : Cache N)
      → IsFormedIn (query faults generation rows place cache).0
  unfolding query IsFormedIn
  query-IsFormedIn faults generation rows place cache = elim (Bool-cases faults.queries) [
    | inl t ↦ rw t (entry_of-IsFormed rows place)
    | inr t ↦ rw t tt
  ]

  pub lookup-IsFormedIn :
      (faults : Faults) (now : ℕ) (rows : List (Row N)) (place : Place) (cache : Cache N)
      → IsSound cache
      → IsFormedIn (lookup faults now rows place cache).0
  unfolding lookup query IsSound IsFormedIn cached first_where current_generation
  lookup-IsFormedIn faults now rows place cache h =
      let known = current_generation faults now cache in
      let sound : IsSound known.1 =
        subst (λ slots. All (λ (slot : Slot N). IsFormed slot.entry) slots)
          (sym (known-IsSound faults now cache.generation cache.slots)) h in
      elim (Option-cases known.0) [
        | inl n ↦ rw (lookup, n) (query-IsFormedIn faults none rows place known.1)
        | inr (g, n) ↦ elim (Bool-cases faults.gets_entry) [
          | inr t ↦ rw (lookup, n, t) (query-IsFormedIn faults none rows place known.1)
          | inl t ↦ elim (Option-cases (cached g place known.1)) [
            | inl c ↦ rw (lookup, n, t, c) (query-IsFormedIn faults (some g) rows place known.1)
            | inr (entry, c) ↦
                rw (lookup, n, t, c)
                  (subst (λ (o : Option (Entry N)). IsFormedIn o) c
                    (cached-IsFormedIn g place known.1 (first_where (is_slot g place) known.1.slots)
                      sound refl))
          ]
        ]
      ]

  pub lookup-IsSound :
      (faults : Faults) (now : ℕ) (rows : List (Row N)) (place : Place) (cache : Cache N)
      → IsSound cache
      → IsSound (lookup faults now rows place cache).1
  unfolding IsSound started put
  lookup-IsSound faults now rows place =
      lookup-keeps IsSound faults now rows place (λ cache e h. h)
        (λ cache g e h. (entry_of-IsFormed rows place, h))
