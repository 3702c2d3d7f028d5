-- ===== src/Settings/Robust.antt =====
-- What resolve_setting of backend/core/settings_service.py returns whatever fails and whatever the
-- rows and the cache hold.
use django_base_x.Prelude.{
  ℕ, String, Bool, true, false, Option, none, some, List, [], ◌∷◌, ◌≡◌, refl, Bool-cases,
  Option-cases, inl, inr, subst,
}
use django_base_x.Prelude.Result.{Result, ok}
use django_base_x.Settings.Texts.{is_in}
use django_base_x.Settings.Objects.{Object, Raised}
use django_base_x.Settings.Types.{Library}
use django_base_x.Settings.Definition.{SettingDef, read, coerce, def_to_json, is_null}
use django_base_x.Settings.Problems.{problems}
use django_base_x.Settings.Parsing.{LawfulLibrary}
use django_base_x.Settings.Accepting.{
  coerced-read, coerce-is_null, problems-default, def_to_json-is_null,
}
use django_base_x.Settings.Coercion.{read-coerce}
use django_base_x.Settings.Service.{Row, Cache, Faults, Resolved, lookup}
use django_base_x.Settings.Resolve.{
  place_of, entry_locked, resolved_at, first_found, platform_found, by_default, below_lock,
  resolve_fresh,
}
use django_base_x.Settings.Effective.{looked-caught}
use django_base_x.Settings.Formed.{IsSound, lookup-IsFormedIn, lookup-IsSound}
use django_base_x.Settings.Reading.{IsRead, value_of-ok}

module _ {N : Type 0} (library : Library N) (faults : String → Faults) (now : ℕ)
    (rows : List (Row N)) (defn : SettingDef N)
    (caught : (scope : String) → (faults scope).escapes ≡ false) where
  IsReadIn : Option (Resolved N) → Type 0
  IsReadIn none = Unit
  IsReadIn (some r) = IsRead library defn r.value

  first_found-ok :
      (steps : List (String × String)) (cache : Cache N)
      → IsSound cache
      → (nearest : Option (Resolved N)) × (after : Cache N) × (first_found library faults now rows
            defn steps cache
          ≡ ok (nearest, after))
        × ((r : Resolved N) → nearest ≡ some r → IsRead library defn r.value)
  unfolding first_found IsReadIn
  first_found-ok [] cache formed = (none, cache, refl, λ r e. absurd (cc))
  first_found-ok ((scope_type, scope_id) ∷ steps) cache formed =
      let place = place_of defn.key scope_type (some scope_id) in
      let got = looked-caught (faults scope_type) now rows place cache (caught scope_type) in
      let seen : _ = lookup (faults scope_type) now rows place cache in
      let (value, e, is_read) =
        value_of-ok library defn seen.0
          (lookup-IsFormedIn (faults scope_type) now rows place cache formed) in
      let (nearest, after, rest, later) =
        first_found-ok steps seen.1
          (lookup-IsSound (faults scope_type) now rows place cache formed) in
      elim (Option-cases value) [
        | inl v ↦ (nearest, after, rw (got, e, v) rest, later)
        | inr (x, v) ↦
            let here : Resolved N = resolved_at defn x scope_type false in
            (
              some here,
              seen.1,
              rw (got, e, v) refl,
              λ r same. subst (λ (o : Option (Resolved N)). IsReadIn o) same (is_read x v),
            )
      ]

  platform_found-ok :
      (cache : Cache N)
      → IsSound cache
      → (value : Option (Object N)) × (locked : Bool) × (after : Cache N) × (platform_found library
            faults now rows defn cache
          ≡ ok (value, locked, after))
        × ((x : Object N) → value ≡ some x → IsRead library defn x)
        × IsSound after
  unfolding platform_found
  platform_found-ok cache formed =
      let place = place_of defn.key "platform" none in
      let got = looked-caught (faults "platform") now rows place cache (caught "platform") in
      let seen : _ = lookup (faults "platform") now rows place cache in
      let (value, e, is_read) =
        value_of-ok library defn seen.0
          (lookup-IsFormedIn (faults "platform") now rows place cache formed) in
      elim (Bool-cases (is_in "platform" defn.scopes)) [
        | inl t ↦ (
          value,
          entry_locked seen.0,
          seen.1,
          rw (t, got, e) refl,
          is_read,
          lookup-IsSound (faults "platform") now rows place cache formed,
        )
        | inr t ↦ (none, false, cache, rw t refl, λ x none_. absurd (cc), formed)
      ]

  Answers : Result Raised (Resolved N × Cache N) → Type 0
  Answers call =
      (resolved : Resolved N) × (after : Cache N) × (call ≡ ok (resolved, after))
      × IsRead library defn resolved.value

  module _ (z : Object N)
      (d : read library defn (def_to_json library defn defn.default) ≡ ok z) where
    below_lock-from :
        (steps : List (String × String)) (platform : Option (Object N)) (cache : Cache N)
        → ((x : Object N) → platform ≡ some x → IsRead library defn x)
        → (nearest : Option (Resolved N)) (after : Cache N)
        → first_found library faults now rows defn steps cache ≡ ok (nearest, after)
        → ((r : Resolved N) → nearest ≡ some r → IsRead library defn r.value)
        → Answers (below_lock library faults now rows defn steps platform cache)
    unfolding below_lock by_default Answers IsRead
    below_lock-from steps platform cache known (some r) after e later =
        (r, after, rw e refl, later r refl)
    below_lock-from steps (some x) cache known none after e later =
        (resolved_at defn x "platform" false, after, rw e refl, known x refl)
    below_lock-from steps none cache known none after e later = (
      resolved_at defn z "default" false,
      after,
      rw (e, d) refl,
      (def_to_json library defn defn.default, d),
    )

    below_lock-ok :
        (steps : List (String × String)) (platform : Option (Object N)) (cache : Cache N)
        → IsSound cache
        → ((x : Object N) → platform ≡ some x → IsRead library defn x)
        → Answers (below_lock library faults now rows defn steps platform cache)
    below_lock-ok steps platform cache formed known =
        let (nearest, after, e, later) = first_found-ok steps cache formed in
        below_lock-from steps platform cache known nearest after e later

    resolve_fresh-from :
        (steps : List (String × String)) (cache : Cache N)
        → (value : Option (Object N)) (locked : Bool) (middle : Cache N)
        → platform_found library faults now rows defn cache ≡ ok (value, locked, middle)
        → ((x : Object N) → value ≡ some x → IsRead library defn x)
        → IsSound middle
        → Answers (resolve_fresh library faults now rows defn steps cache)
    unfolding resolve_fresh Answers
    resolve_fresh-from steps cache none locked middle e known formed =
        rw e (below_lock-ok steps none middle formed known)
    resolve_fresh-from steps cache (some x) true middle e known formed =
        (resolved_at defn x "platform" true, middle, rw e refl, known x refl)
    resolve_fresh-from steps cache (some x) false middle e known formed =
        rw e (below_lock-ok steps (some x) middle formed known)

    resolve_fresh-ok :
        (steps : List (String × String)) (cache : Cache N)
        → IsSound cache
        → Answers (resolve_fresh library faults now rows defn steps cache)
    resolve_fresh-ok steps cache formed =
        let (value, locked, middle, e, known, sound) = platform_found-ok cache formed in
        resolve_fresh-from steps cache value locked middle e known sound

  -- A declaration without problems resolves, where no query raises anything but DatabaseError: no
  -- failed call of the cache, no DatabaseError, and no row or cached entry of whatever value makes
  -- resolve_setting raise. Where the default is not None, the value is one that a write accepts as
  -- it is: an entry that does not coerce is never returned, and no value lies outside the declared
  -- bounds. Each cached entry is of one of the two forms that _lookup puts there.
  pub resolve_fresh-admissible :
      LawfulLibrary library
      → problems library defn ≡ []
      → (steps : List (String × String)) (cache : Cache N) → IsSound cache
      → (resolved : Resolved N) × (after : Cache N) × (resolve_fresh library faults now rows defn
            steps cache
          ≡ ok (resolved, after))
        × (is_null defn.default ≡ false
            → coerce library defn (def_to_json library defn resolved.value) ≡ ok resolved.value)
  unfolding Answers IsRead
  resolve_fresh-admissible laws sound steps cache formed =
      let (z, accepted) = problems-default library defn sound in
      let shown : Object N = def_to_json library defn defn.default in
      let (resolved, after, e, (stored, is_read)) =
        resolve_fresh-ok z (coerced-read library defn shown z accepted) steps cache formed in
      (
        resolved,
        after,
        e,
        λ solid.
            read-coerce library defn laws shown z accepted
              (coerce-is_null library defn shown z accepted
                (def_to_json-is_null library defn defn.default solid))
              stored resolved.value is_read,
      )
