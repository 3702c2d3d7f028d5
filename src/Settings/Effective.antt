-- ===== src/Settings/Effective.antt =====
-- The value that the rows give a setting, without cache or failures: what resolve_setting of
-- backend/core/settings_service.py is to compute.
use django_base_x.Prelude.{
  arith, ℕ, String, true, false, Option, none, some, List, [], ◌∷◌, ◌≡◌, refl, Bool-cases,
  Option-cases, inl, inr, or_else, if◌then◌else◌,
}
use django_base_x.Prelude.Result.{ok, ◌>>=◌}
use django_base_x.Settings.Texts.{is_in}
use django_base_x.Settings.Objects.{Object}
use django_base_x.Settings.Types.{Library}
use django_base_x.Settings.Definition.{SettingDef, read, unwrap, def_to_json}
use django_base_x.Settings.Service.{
  Place, Row, Entry, absent, found, malformed, Cache, Faults, Resolved, entry_of, lookup, looked,
}
use django_base_x.Settings.Resolve.{
  place_of, value_of, entry_locked, resolved_at, first_found, platform_found, by_default,
  below_lock, resolve_fresh,
}
use django_base_x.Settings.Formed.{IsFormed, entry_of-IsFormed}
use django_base_x.Settings.Reading.{wrapped-is_caught, skipping-eq, returned}
use django_base_x.Settings.Coherence.{IsCoherent, lookup-IsCoherent, lookup-entry}

module _ {N : Type 0} (library : Library N) (defn : SettingDef N) where
  -- What an entry reads as; a row that does not read is as if absent.
  unfoldable pub readable : Entry N → Option (Object N)
  readable absent = none
  readable malformed = none
  readable (found value locked) = returned (unwrap value >>= λ inner. read library defn inner)

  -- The first of the steps whose row reads.
  unfoldable pub nearest : List (Row N) → List (String × String) → Option (Resolved N)
  nearest rows [] = none
  nearest rows ((scope_type, scope_id) ∷ steps) =
      let rest = nearest rows steps in
      elim (readable (entry_of rows (place_of defn.key scope_type (some scope_id)))) [
        | none ↦ rest
        | some x ↦ some (resolved_at defn x scope_type false)
      ]

  unfoldable pub platform_entry : List (Row N) → Entry N
  platform_entry rows =
      if is_in "platform" defn.scopes
      then entry_of rows (place_of defn.key "platform" none)
      else absent

  -- A locked platform row, else the nearest override, else the platform's, else the default.
  unfoldable pub effective : Object N → List (Row N) → List (String × String) → Resolved N
  effective default rows steps = elim (readable (platform_entry rows)) [
    | none ↦ or_else (nearest rows steps) (resolved_at defn default "default" false)
    | some x ↦
        if entry_locked (some (platform_entry rows))
        then resolved_at defn x "platform" true
        else or_else (nearest rows steps) (resolved_at defn x "platform" false)
  ]

  value_of-readable :
      (entry : Entry N) → IsFormed entry → value_of library defn (some entry) ≡ ok (readable entry)
  unfolding value_of readable IsFormed
  value_of-readable malformed formed = elim formed [ ]
  value_of-readable absent formed = refl
  value_of-readable (found value locked) formed =
      skipping-eq library (unwrap value >>= λ inner. read library defn inner)
        (wrapped-is_caught library defn value)

module _ {N : Type 0} (faults : Faults) (now : ℕ) (rows : List (Row N)) (place : Place)
    (cache : Cache N) where
  looked-answers :
      faults.queries ≡ true
      → looked faults now rows place cache ≡ ok (lookup faults now rows place cache)
  unfolding looked
  looked-answers answers = ground (arith, answers)

  pub looked-caught :
      faults.escapes ≡ false
      → looked faults now rows place cache ≡ ok (lookup faults now rows place cache)
  unfolding looked
  looked-caught caught = ground (arith, caught)

module _ {N : Type 0} (library : Library N) (faults : String → Faults) (now : ℕ)
    (rows : List (Row N)) (defn : SettingDef N)
    (answers : (scope : String) → (faults scope).queries ≡ true) where
  first_found-nearest :
      (steps : List (String × String)) (cache : Cache N)
      → IsCoherent now rows cache
      → (after : Cache N) × (first_found library faults now rows defn steps cache
          ≡ ok (nearest library defn rows steps, after))
        × IsCoherent now rows after
  unfolding first_found nearest
  first_found-nearest [] cache h = (cache, refl, h)
  first_found-nearest ((scope_type, scope_id) ∷ steps) cache h =
      let place : Place = place_of defn.key scope_type (some scope_id) in
      let got = looked-answers (faults scope_type) now rows place cache (answers scope_type) in
      let seen = lookup-entry (faults scope_type) now rows place cache h (answers scope_type) in
      let kept = lookup-IsCoherent (faults scope_type) now rows place cache h in
      let next : Cache N = (lookup (faults scope_type) now rows place cache).1 in
      let (after, e, coherent) = first_found-nearest steps next kept in
      elim (Option-cases (readable library defn (entry_of rows place))) [
        | inl r ↦ (
          after,
          rw
              (
                got,
                seen,
                value_of-readable library defn (entry_of rows place) (entry_of-IsFormed rows place),
                nearest,
                r,
              )
              e,
          coherent,
        )
        | inr (x, r) ↦ (
          next,
          rw
              (
                got,
                seen,
                value_of-readable library defn (entry_of rows place) (entry_of-IsFormed rows place),
                nearest,
                r,
              )
              refl,
          kept,
        )
      ]

  platform_found-entry :
      (cache : Cache N)
      → IsCoherent now rows cache
      → (after : Cache N) × (platform_found library faults now rows defn cache
          ≡ ok (
            readable library defn (platform_entry library defn rows),
            entry_locked (some (platform_entry library defn rows)),
            after,
          ))
        × IsCoherent now rows after
  unfolding platform_found platform_entry readable entry_locked
  platform_found-entry cache h =
      let place : Place = place_of defn.key "platform" none in
      let got = looked-answers (faults "platform") now rows place cache (answers "platform") in
      let seen = lookup-entry (faults "platform") now rows place cache h (answers "platform") in
      elim (Bool-cases (is_in "platform" defn.scopes)) [
        | inl t ↦ (
          (lookup (faults "platform") now rows place cache).1,
          rw
              (
                t,
                got,
                seen,
                value_of-readable library defn (entry_of rows place) (entry_of-IsFormed rows place),
              )
              refl,
          lookup-IsCoherent (faults "platform") now rows place cache h,
        )
        | inr t ↦ (cache, rw t refl, h)
      ]

  below_lock-nearest :
      (default : Object N)
      → read library defn (def_to_json library defn defn.default) ≡ ok default
      → (steps : List (String × String)) (platform : Option (Object N)) (cache : Cache N)
      → IsCoherent now rows cache
      → (after : Cache N) × (below_lock library faults now rows defn steps platform cache
          ≡ ok (
            or_else (nearest library defn rows steps) (elim platform [
              | none ↦ resolved_at defn default "default" false
              | some x ↦ resolved_at defn x "platform" false
            ]),
            after,
          ))
        × IsCoherent now rows after
  unfolding below_lock by_default
  below_lock-nearest default d steps platform cache h =
      let (after, e, coherent) = first_found-nearest steps cache h in
      elim (Option-cases (nearest library defn rows steps)) [
        | inr (r, n) ↦ (after, rw (e, n) refl, coherent)
        | inl n ↦ elim (Option-cases platform) [
          | inl p ↦ (after, rw (e, n, p, d) refl, coherent)
          | inr (x, p) ↦ (after, rw (e, n, p) refl, coherent)
        ]
      ]

  -- Where the database answers, the cached entries of the current generation are true to the rows
  -- and the declared default reads, resolve_setting returns what the rows alone say, whether or not
  -- the cache answers, and leaves a cache that is true to the rows: a locked platform row, else the
  -- nearest override of the user and the tenant that reads, else the platform's, else the default.
  pub resolve_fresh-effective :
      (default : Object N)
      → read library defn (def_to_json library defn defn.default) ≡ ok default
      → (steps : List (String × String)) (cache : Cache N) → IsCoherent now rows cache
      → (after : Cache N) × (resolve_fresh library faults now rows defn steps cache
          ≡ ok (effective library defn default rows steps, after))
        × IsCoherent now rows after
  unfolding resolve_fresh effective
  resolve_fresh-effective default d steps cache h =
      let (middle, p, coherent) = platform_found-entry cache h in
      elim (Option-cases (readable library defn (platform_entry library defn rows))) [
        | inl r ↦
            let (after, e, done) = below_lock-nearest default d steps none middle coherent in
            (after, rw (p, effective, r) e, done)
        | inr (x, r) ↦ elim (Bool-cases (entry_locked (some (platform_entry library defn rows)))) [
          | inl l ↦ (middle, rw (p, effective, r, l) refl, coherent)
          | inr l ↦
              let (after, e, done) = below_lock-nearest default d steps (some x) middle coherent in
              (after, rw (p, effective, r, l) e, done)
        ]
      ]
