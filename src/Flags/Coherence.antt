-- ===== src/Flags/Coherence.antt =====
-- When the cache of backend/core/flags.py is true to the rows, and what _row then answers.
use django_base_x.Prelude.{
  ℕ, ◌+◌, ◌≤◌, ◌<◌, suc, String, true, false, Option, none, some, List, [], ◌∷◌, ◌≡◌, ◌⊎◌, inl, inr,
  refl, sym, ◌∙◌, Bool-cases, Option-cases, arith, All, first_where, or_else,
}
use django_base_x.Flags.Resolution.{Flag, find}
use django_base_x.Flags.Cache.{
  Slot, Cache, Faults, cached, entry_in, is_slot, current_generation, started, bump_generation,
  query, row_cached, row_at, row_of,
}

-- Whichever generation a reader finds, from now on, its entries say what the rows say.
unfoldable pub IsCoherent : ℕ → List Flag → Cache → Type 0
IsCoherent now rows cache =
    (later : ℕ)
    → now ≤ later
    → (key : String) (entry : Option Flag)
    → cached (or_else cache.generation later) key cache ≡ some entry
    → entry ≡ find rows key

-- The first generation that is newer than every entry: the next one, or the clock.
abbrev pub next_generation : ℕ → Option ℕ → ℕ
next_generation now none = now
next_generation now (some generation) = suc generation

unfoldable pub IsBehind : ℕ → Cache → Type 0
IsBehind now cache =
    All (λ slot. slot.generation < next_generation now cache.generation) cache.slots

nothing_cached :
    (n m : ℕ) (key : String) (slots : List Slot)
    → All (λ slot. slot.generation < n) slots
    → n ≤ m
    → first_where (is_slot m key) slots ≡ none
unfolding first_where is_slot
nothing_cached n m key [] h le = refl
nothing_cached n m key (slot ∷ slots) h le =
    ground (arith, h.0, nothing_cached n m key slots h.1 le)

bumped-IsCoherent :
    (now : ℕ) (rows : List Flag) (generation : Option ℕ) (slots : List Slot)
    → let cache : Cache = record { generation = generation; slots = slots } in
      IsBehind now cache → IsCoherent now rows (bump_generation true now cache)
unfolding IsCoherent IsBehind bump_generation started cached entry_in
bumped-IsCoherent now rows none slots behind later le key entry e =
    let gone = nothing_cached now now key slots behind (omega arith) in
    absurd (ground (arith, e, gone))
bumped-IsCoherent now rows (some n) slots behind later le key entry e =
    let gone = nothing_cached (suc n) (n + 1) key slots behind (omega arith) in
    absurd (ground (arith, e, gone))

-- After a bump nothing is cached, so the cache is true to any rows.
pub bump_generation-IsCoherent :
    (now : ℕ) (rows : List Flag) (cache : Cache)
    → IsBehind now cache
    → IsCoherent now rows (bump_generation true now cache)
bump_generation-IsCoherent now rows cache behind =
    bumped-IsCoherent now rows cache.generation cache.slots behind

known_cached :
    (faults : Faults) (now g : ℕ) (key : String) (generation : Option ℕ) (slots : List Slot)
    → let cache : Cache = record { generation = generation; slots = slots } in
      (current_generation faults now cache).0 ≡ some g
      → cached g key (current_generation faults now cache).1
        ≡ cached (or_else cache.generation now) key cache
unfolding current_generation started cached
known_cached faults now g key none slots e = ground (arith, e)
known_cached faults now g key (some n) slots e = ground (arith, e)

current_generation-cached :
    (faults : Faults) (now g : ℕ) (key : String) (cache : Cache)
    → (current_generation faults now cache).0 ≡ some g
    → cached g key (current_generation faults now cache).1
      ≡ cached (or_else cache.generation now) key cache
current_generation-cached faults now g key cache =
    known_cached faults now g key cache.generation cache.slots

query-rows :
    (faults : Faults) (generation : Option ℕ) (rows : List Flag) (key : String) (cache : Cache)
    → ((query faults generation rows key cache).0 ≡ find rows key)
      ⊎ (((query faults generation rows key cache).0 ≡ none) × (faults.queries ≡ false))
unfolding query
query-rows faults generation rows key cache = elim (Bool-cases faults.queries) [
  | inl t ↦ inl (rw t refl)
  | inr t ↦ inr (rw t refl, t)
]

row_at-rows :
    (faults : Faults) (generation : Option ℕ) (rows : List Flag) (key : String) (cache : Cache)
    → ((g : ℕ) (entry : Option Flag)
        → generation ≡ some g
        → cached g key cache ≡ some entry
        → entry ≡ find rows key)
    → ((row_at faults generation rows key cache).0 ≡ find rows key)
      ⊎ (((row_at faults generation rows key cache).0 ≡ none) × (faults.queries ≡ false))
unfolding row_at row_cached query
row_at-rows faults none rows key cache known = query-rows faults none rows key cache
row_at-rows faults (some g) rows key cache known = elim (Bool-cases faults.gets_entry) [
  | inr t ↦ rw t (query-rows faults none rows key cache)
  | inl t ↦ elim (Option-cases (cached g key cache)) [
    | inl n ↦ rw (t, n) (query-rows faults (some g) rows key cache)
    | inr (entry, n) ↦ inl (rw (t, n) (known g entry refl n))
  ]
]

-- Under a true cache _row answers what the rows say, or none where the database fails it.
pub row_of-rows :
    (faults : Faults) (now later : ℕ) (rows : List Flag) (key : String) (cache : Cache)
    → now ≤ later
    → IsCoherent now rows cache
    → ((row_of faults later rows key cache).0 ≡ find rows key)
      ⊎ (((row_of faults later rows key cache).0 ≡ none) × (faults.queries ≡ false))
unfolding row_of IsCoherent
row_of-rows faults now later rows key cache le coherent =
    let known = current_generation faults later cache in
    row_at-rows faults known.0 rows key known.1 (λ g entry found_ e.
      coherent later le key entry
        (sym (current_generation-cached faults later g key cache found_) ∙ e))
