-- ===== src/Flags/Cache.antt =====
-- The cache of backend/core/flags.py and its generation: _generation, _bump_generation and _row.
-- A call of the cache or of the database can fail; Faults says which calls of one lookup succeed.
-- The database fails with DatabaseError, the failure that _row catches. An entry is the row, or
-- none for _ABSENT, which is also what _row answers where the database fails.
use django_base_x.Prelude.{
  ℕ, ◌+◌, String, Bool, ◌&&◌, Option, none, some, List, ◌∷◌, first_where, str_eq, ◌==◌,
  if◌then◌else◌,
}
use django_base_x.Flags.Resolution.{Flag, find}

-- One cached entry, under the key f"flags:{generation}:{key}".
pub record Slot : Type 0 where
  pub generation : ℕ
  pub key : String
  pub entry : Option Flag

pub record Cache : Type 0 where
  pub generation : Option ℕ
  pub slots : List Slot

pub record Faults : Type 0 where
  pub reads_generation : Bool
  pub adds_generation : Bool
  pub rereads_generation : Bool
  pub gets_entry : Bool
  pub queries : Bool
  pub sets_entry : Bool

unfoldable pub is_slot : ℕ → String → Slot → Bool
is_slot generation key slot = (slot.generation == generation) && str_eq slot.key key

unfoldable pub entry_in : Option Slot → Option (Option Flag)
entry_in none = none
entry_in (some slot) = some slot.entry

unfoldable pub cached : ℕ → String → Cache → Option (Option Flag)
cached generation key cache = entry_in (first_where (is_slot generation key) cache.slots)

-- cache.set of an entry; the newest slot of a key is the one that is read
unfoldable pub put : ℕ → String → Option Flag → Cache → Cache
put generation key entry cache = record {
  generation = cache.generation;
  slots = record { generation = generation; key = key; entry = entry } ∷ cache.slots;
}

-- cache.add(GENERATION_KEY, now), where there is none
unfoldable pub started : ℕ → Cache → Cache
started now cache = record { generation = some now; slots = cache.slots }

-- _generation
unfoldable pub current_generation : Faults → ℕ → Cache → Option ℕ × Cache
current_generation faults now cache =
    if faults.reads_generation
    then elim cache.generation [
      | some generation ↦ (some generation, cache)
      | none ↦
          if faults.adds_generation
          then (if faults.rereads_generation then some now else none, started now cache)
          else (none, cache)
    ]
    else (none, cache)

-- _bump_generation; `reached` is whether the cache answers
unfoldable pub bump_generation : Bool → ℕ → Cache → Cache
bump_generation reached now cache =
    if reached
    then elim cache.generation [
      | some generation ↦ record { generation = some (generation + 1); slots = cache.slots }
      | none ↦ started now cache
    ]
    else cache

unfoldable pub kept : Bool → Option ℕ → String → Option Flag → Cache → Cache
kept sets none key entry cache = cache
kept sets (some generation) key entry cache = if sets then put generation key entry cache else cache

-- The rest of _row, after the cache had no entry.
unfoldable pub query : Faults → Option ℕ → List Flag → String → Cache → Option Flag × Cache
query faults generation rows key cache =
    if faults.queries
    then (find rows key, kept faults.sets_entry generation key (find rows key) cache)
    else (none, cache)

-- _row, after the generation is known and its entry was asked for.
unfoldable pub row_cached :
    Faults → ℕ → List Flag → String → Option (Option Flag) → Cache → Option Flag × Cache
row_cached faults generation rows key (some entry) cache = (entry, cache)
row_cached faults generation rows key none cache = query faults (some generation) rows key cache

unfoldable pub row_at : Faults → Option ℕ → List Flag → String → Cache → Option Flag × Cache
row_at faults none rows key cache = query faults none rows key cache
row_at faults (some generation) rows key cache =
    if faults.gets_entry
    then row_cached faults generation rows key (cached generation key cache) cache
    else query faults none rows key cache

-- _row
unfoldable pub row_of : Faults → ℕ → List Flag → String → Cache → Option Flag × Cache
row_of faults now rows key cache =
    let known = current_generation faults now cache in row_at faults known.0 rows key known.1
