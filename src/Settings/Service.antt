-- ===== src/Settings/Service.antt =====
-- The state of backend/core/settings_service.py: the rows of core_setting, the shared cache with
-- its generation, the request's snapshot, and what waits for the commit. A call of the cache or of
-- the database can fail; `Faults` says which calls of one lookup succeed. A query
-- that fails raises DatabaseError, or, where `escapes` says so, another exception, which _lookup does
-- not catch. Logging is left out.
use django_base_x.Prelude.{
  ℕ, ◌+◌, String, Bool, true, false, not, ◌&&◌, Option, none, some, List, ◌∷◌, first_where, str_eq,
  ◌==◌, if◌then◌else◌,
}
use django_base_x.Prelude.Result.{Result, ok, err}
use django_base_x.Settings.Objects.{Object, Raised, uncaught}

-- One row, and its scope: (key, scope_type, scope_id). The id is none at the platform.
pub record Place : Type 0 where
  pub key : String
  pub scope_type : String
  pub scope_id : Option String

pub record Row (N : Type 0) : Type 0 where
  pub place : Place
  pub value : Object N
  pub is_locked : Bool
  pub updated_by : Option String

-- {"found": False}, {"found": True, "v": ..., "locked": ...}, or one without its "v", which only
-- another writer of the cache leaves
pub data Entry (N : Type 0) : Type 0 where
  absent : Entry N
  found : Object N → Bool → Entry N
  malformed : Entry N

-- One cached entry, under the key that _entry_key makes.
pub record Slot (N : Type 0) : Type 0 where
  pub generation : ℕ
  pub place : Place
  pub entry : Entry N

pub record Cache (N : Type 0) : Type 0 where
  pub generation : Option ℕ
  pub slots : List (Slot N)

pub record Faults : Type 0 where
  pub reads_generation : Bool
  pub adds_generation : Bool
  pub rereads_generation : Bool
  pub gets_entry : Bool
  pub queries : Bool
  pub sets_entry : Bool
  pub escapes : Bool

pub record Resolved (N : Type 0) : Type 0 where
  pub key : String
  pub value : Object N
  pub source : String
  pub locked : Bool

unfoldable pub same_id : Option String → Option String → Bool
same_id none none = true
same_id none (some b) = false
same_id (some a) none = false
same_id (some a) (some b) = str_eq a b

unfoldable pub same_place : Place → Place → Bool
same_place a b =
    str_eq a.key b.key && str_eq a.scope_type b.scope_type && same_id a.scope_id b.scope_id

module _ {N : Type 0} where
  -- objects.for_key(key).at(scope_type, scope_id)
  unfoldable pub is_at : Place → Row N → Bool
  is_at place row = same_place row.place place

  -- The entry that a query of the rows makes.
  unfoldable pub entry_of : List (Row N) → Place → Entry N
  entry_of rows place = elim (first_where (is_at place) rows) [
    | none ↦ absent
    | some row ↦ found row.value row.is_locked
  ]

  unfoldable pub is_slot : ℕ → Place → Slot N → Bool
  is_slot generation place slot = (slot.generation == generation) && same_place slot.place place

  unfoldable pub cached : ℕ → Place → Cache N → Option (Entry N)
  cached generation place cache = elim (first_where (is_slot generation place) cache.slots) [
    | none ↦ none
    | some slot ↦ some slot.entry
  ]

  -- cache.set of an entry; the newest slot of a key is the one that is read
  unfoldable pub put : ℕ → Place → Entry N → Cache N → Cache N
  put generation place entry cache = record {
    generation = cache.generation;
    slots = record { generation = generation; place = place; entry = entry } ∷ cache.slots;
  }

  -- cache.add(GENERATION_KEY, now), where there is none
  unfoldable pub started : ℕ → Cache N → Cache N
  started now cache = record { generation = some now; slots = cache.slots }

  -- _generation
  unfoldable pub current_generation : Faults → ℕ → Cache N → Option ℕ × Cache N
  current_generation faults now cache =
      if faults.reads_generation
      then elim cache.generation [
        | some generation ↦ (some generation, cache)
        | none ↦
            if faults.adds_generation
            then (if faults.rereads_generation then some now else none, started now cache)
            else (none, cache)
      ]
      else (none, cache)

  -- _bump_generation; `reached` is whether the cache answers
  unfoldable pub bump_generation : Bool → ℕ → Cache N → Cache N
  bump_generation reached now cache =
      if reached
      then elim cache.generation [
        | some generation ↦ record { generation = some (generation + 1); slots = cache.slots }
        | none ↦ started now cache
      ]
      else cache

  -- The rest of _lookup, after the cache had no entry.
  unfoldable pub query :
      Faults → Option ℕ → List (Row N) → Place → Cache N → Option (Entry N) × Cache N
  query faults generation rows place cache =
      if faults.queries
      then (
        some (entry_of rows place),
        elim generation [
          | none ↦ cache
          | some g ↦ if faults.sets_entry then put g place (entry_of rows place) cache else cache
        ],
      )
      else (none, cache)

  -- _lookup
  unfoldable pub lookup : Faults → ℕ → List (Row N) → Place → Cache N → Option (Entry N) × Cache N
  lookup faults now rows place cache =
      let known = current_generation faults now cache in
      elim known.0 [
        | none ↦ query faults none rows place known.1
        | some generation ↦
            if faults.gets_entry
            then elim (cached generation place known.1) [
              | some entry ↦ (some entry, known.1)
              | none ↦ query faults (some generation) rows place known.1
            ]
            else query faults none rows place known.1
      ]

  -- Whether _lookup gets to its query.
  unfoldable pub is_asked : Faults → ℕ → Place → Cache N → Bool
  is_asked faults now place cache =
      let known = current_generation faults now cache in
      elim known.0 [
        | none ↦ true
        | some generation ↦
            if faults.gets_entry
            then elim (cached generation place known.1) [ some entry ↦ false | none ↦ true ]
            else true
      ]

  -- _lookup, with the exception that escapes it.
  unfoldable pub looked :
      Faults → ℕ → List (Row N) → Place → Cache N → Result Raised (Option (Entry N) × Cache N)
  looked faults now rows place cache =
      if not faults.queries && (faults.escapes && is_asked faults now place cache)
      then err uncaught
      else ok (lookup faults now rows place cache)
