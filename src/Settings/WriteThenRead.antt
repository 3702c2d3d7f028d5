-- ===== src/Settings/WriteThenRead.antt =====
-- A write at the platform by set_value of backend/core/settings_service.py, and the read that
-- follows it in the same transaction.
use django_base_x.Prelude.{
  ℕ, String, Bool, true, false, not, Option, none, some, List, [], ◌≡◌, refl, sym, ◌∙◌, ◌&&◌, ap,
  subst, Bool-cases, Option-cases, inl, inr, arith, All, first_where, str_eq, or_else,
  first_where-some, first_where-snoc, ◌++◌, ◌∷◌,
}
use django_base_x.Prelude.Result.{ok, >>=-eq-ok, ok-injective}
use django_base_x.Settings.Texts.{is_in}
use django_base_x.Settings.Objects.{Object, saved}
use django_base_x.Settings.Types.{Library}
use django_base_x.Settings.Definition.{SettingDef, coerce, read, unwrap, stored, def_to_json}
use django_base_x.Settings.Service.{
  Place, Row, Cache, Faults, Resolved, Entry, same_place, found, is_at, entry_of,
}
use django_base_x.Settings.Resolve.{place_of, resolved_at, resolve_fresh, entry_locked}
use django_base_x.Settings.Coherence.{IsCoherent, IsBehind}
use django_base_x.Settings.Effective.{
  readable, platform_entry, effective, nearest, resolve_fresh-effective,
}
use django_base_x.Settings.State.{State, Target, Registry, definition, check_scope, old_value}
use django_base_x.Settings.Write.{joined_by, store_value, write_declared, set_value}
use django_base_x.Settings.Reading.{returned}
use django_base_x.Settings.Written.{
  same_place-itself, else-branch, IsWritten, IsWrapped, definition-key, update_row-IsWritten,
  create_row-IsWritten,
}

module _ {N : Type 0} (library : Library N) (same : Object N → Object N → Bool)
    (registry : Registry N) where
  -- The rows that the transaction meets, with that of a rival whose first write won.
  abbrev pub met : Option (Row N) → List (Row N) → List (Row N)
  met none rows = rows
  met (some row) rows = rows ++ (row ∷ [])

  -- A rival's row is a first one at the place, written by the service.
  abbrev pub IsRival : Place → List (Row N) → Option (Row N) → Type 0
  IsRival place rows none = Unit
  IsRival place rows (some row) =
      (row.place ≡ place) × IsWrapped row × (first_where (is_at place) rows ≡ none)

  -- Under `exact`, == takes no other object for the new value.
  store_value-IsWritten :
      (now : ℕ) (defn : SettingDef N) (target : Target) (locked : Option Bool)
      (raced : Option (Row N)) (place : Place) (new : Object N) (r : Resolved N)
      (state after : State N)
      → target.scope ≡ "platform"
      → All IsWrapped state.rows
      → IsRival place state.rows raced
      → saved new ≡ new
      → ((x : Object N) → same x new ≡ true → x ≡ new)
      → IsBehind now state.cache
      → IsCoherent now (met raced state.rows) state.cache
      → store_value library same registry true now defn target locked raced place new state
        ≡ ok (r, after)
      → IsWritten library same registry now defn place new r after
  unfolding store_value is_at same_place
  store_value-IsWritten now defn target locked none place new r state after at wrapped rival plain
        exact behind coherent e =
      elim (Option-cases (first_where (is_at place) state.rows)) [
        | inl n ↦
            create_row-IsWritten library same registry now defn target locked place new r state
              after at n plain behind (ground (arith, e, n))
        | inr (row, n) ↦
            update_row-IsWritten library same registry now defn target locked place new row r state
              after at n ((first_where-some IsWrapped (is_at place) state.rows row wrapped n).0)
              plain (exact (old_value row)) behind coherent (ground (arith, e, n))
      ]
  store_value-IsWritten now defn target locked (some row) place new r state after at wrapped
        (here, own, n) plain exact behind coherent e =
      update_row-IsWritten library same registry now defn target locked place new row r
        (joined_by library same registry true now row state) after at
        (first_where-snoc (is_at place) state.rows row n
          (subst (λ p. same_place p place ≡ true) (sym here) (same_place-itself place)))
        own plain (exact (old_value row)) behind coherent (ground (arith, e, n))

  check_scope-platform :
      (defn : SettingDef N) (scope : String) (id place_id : Option String)
      → scope ≡ "platform"
      → check_scope registry defn scope id ≡ ok place_id
      → (is_in "platform" defn.scopes ≡ true) × (place_id ≡ none)
  unfolding check_scope
  check_scope-platform defn scope id place_id at e =
      let plain = subst (λ s. check_scope registry defn s id ≡ ok place_id) at e in
      elim (Bool-cases (is_in "platform" defn.scopes)) [
        | inl t ↦ (t, ground (arith, plain, t))
        | inr t ↦ absurd (ground (arith, plain, t))
      ]

  platform_entry-found :
      (defn : SettingDef N) (rows : List (Row N)) (entry : Entry N)
      → is_in "platform" defn.scopes ≡ true
      → entry_of rows (place_of defn.key "platform" none) ≡ entry
      → platform_entry library defn rows ≡ entry
  unfolding platform_entry
  platform_entry-found defn rows entry allowed e = rw allowed e

  readable-stored :
      (defn : SettingDef N) (new x : Object N) (locked : Bool)
      → read library defn new ≡ ok x
      → readable library defn (found (stored new) locked) ≡ some x
  unfolding readable unwrap stored returned
  readable-stored defn new x locked reads = rw reads refl

  effective-found :
      (defn : SettingDef N) (default new x : Object N) (locked : Bool) (rows : List (Row N))
      → platform_entry library defn rows ≡ found (stored new) locked
      → read library defn new ≡ ok x
      → effective library defn default rows [] ≡ resolved_at defn x "platform" locked
  unfolding effective entry_locked nearest
  effective-found defn default new x true rows e reads =
      rw (effective, e, readable-stored defn new x true reads, e) refl
  effective-found defn default new x false rows e reads =
      rw (effective, e, readable-stored defn new x false reads, e) refl

  IsWritten-effective :
      (now : ℕ) (defn : SettingDef N) (default new : Object N) (r : Resolved N) (after : State N)
      → is_in "platform" defn.scopes ≡ true
      → IsWritten library same registry now defn (place_of defn.key "platform" none) new r after
      → effective library defn default after.rows [] ≡ r
  unfolding IsWritten
  IsWritten-effective now defn default new r after allowed
        (locked, x, there, reads, shown, coherent) =
      effective-found defn default new x locked after.rows
        (platform_entry-found defn after.rows (found (stored new) locked) allowed there) reads
      ∙ sym shown

  IsWritten-IsCoherent :
      (now : ℕ) (defn : SettingDef N) (new : Object N) (r : Resolved N) (after : State N)
      → IsWritten library same registry now defn (place_of defn.key "platform" none) new r after
      → IsCoherent now after.rows after.cache
  unfolding IsWritten
  IsWritten-IsCoherent now defn new r after (locked, x, there, reads, shown, coherent) = coherent

  write_declared-IsWritten :
      (now : ℕ) (defn : SettingDef N) (target : Target) (value : Object N) (locked : Option Bool)
      (raced : Option (Row N)) (state after : State N) (r : Resolved N)
      → defn.key ≡ target.key
      → target.scope ≡ "platform"
      → All IsWrapped state.rows
      → IsRival (place_of defn.key "platform" none) state.rows raced
      → ((new : Object N)
          → coerce library defn value ≡ ok new
          → saved (def_to_json library defn new) ≡ def_to_json library defn new)
      → ((new x : Object N)
          → coerce library defn value ≡ ok new
          → same x (def_to_json library defn new) ≡ true
          → x ≡ def_to_json library defn new)
      → IsBehind now state.cache
      → IsCoherent now (met raced state.rows) state.cache
      → write_declared library same registry true now target value locked raced state defn
        ≡ ok (r, after)
      → (is_in "platform" defn.scopes ≡ true)
        × (new : Object N) × IsWritten library same registry now defn
            (place_of defn.key "platform" none)
            new
            r
            after
  unfolding write_declared
  write_declared-IsWritten now defn target value locked raced state after r named at wrapped rival
        plain exact behind coherent e =
      let (place_id, first, rest) =
        >>=-eq-ok (check_scope registry defn target.scope target.scope_id) _ e in
      let (allowed, nowhere) =
        check_scope-platform defn target.scope target.scope_id place_id at first in
      elim (Bool-cases (or_else locked false && not (str_eq target.scope "platform"))) [
        | inl t ↦ absurd (ground (arith, rest, t))
        | inr t ↦
            let (new, accepted, then_) =
              >>=-eq-ok (coerce library defn value) _ (else-branch _ _ t rest) in
            let there : place_of target.key target.scope place_id
                ≡ place_of defn.key "platform" none =
              cc in
            (
              allowed,
              def_to_json library defn new,
              store_value-IsWritten now defn target locked raced (place_of defn.key "platform" none)
                  (def_to_json library defn new) r state after at wrapped rival (plain new accepted)
                  (λ x equal. exact new x accepted equal) behind coherent
                  (subst
                    (λ p.
                      store_value library same registry true now defn target locked raced p
                        (def_to_json library defn new) state
                      ≡ ok (r, after))
                    there then_),
            )
      ]

  -- Where the cache answers the write and is true to the rows that the transaction meets, also to
  -- the row of a concurrent first write that won, every row was written by the service, the value
  -- to be stored comes back from its column as it is, and == takes no other object for it: a
  -- set_value at the platform that returns is seen by the platform's next read in the same
  -- transaction. It resolves to exactly what set_value returned, though the cache held the old
  -- value, and whether or not the cache answers that read, as long as the database does.
  pub set_value-resolve :
      (faults : String → Faults) (now : ℕ)
      → ((scope : String) → (faults scope).queries ≡ true)
      → (defn : SettingDef N) (default : Object N) (target : Target) (value : Object N)
        (locked : Option Bool) (raced : Option (Row N)) (state after : State N) (r : Resolved N)
      → definition registry target.key ≡ ok defn
      → read library defn (def_to_json library defn defn.default) ≡ ok default
      → target.scope ≡ "platform"
      → All IsWrapped state.rows
      → IsRival (place_of defn.key "platform" none) state.rows raced
      → ((new : Object N)
          → coerce library defn value ≡ ok new
          → saved (def_to_json library defn new) ≡ def_to_json library defn new)
      → ((new x : Object N)
          → coerce library defn value ≡ ok new
          → same x (def_to_json library defn new) ≡ true
          → x ≡ def_to_json library defn new)
      → IsBehind now state.cache
      → IsCoherent now (met raced state.rows) state.cache
      → set_value library same registry true now target value locked raced state ≡ ok (r, after)
      → (cache : Cache N) × (resolve_fresh library faults now after.rows defn [] after.cache
          ≡ ok (r, cache))
  unfolding set_value
  set_value-resolve faults now answers defn default target value locked raced state after r declared
        d at wrapped rival plain exact behind coherent e =
      let (found_, first, rest) = >>=-eq-ok (definition registry target.key) _ e in
      let this : found_ ≡ defn = ok-injective (sym first ∙ declared) in
      let (allowed, new, written) =
        write_declared-IsWritten now defn target value locked raced state after r
          (definition-key registry target.key defn declared) at wrapped rival plain exact behind
          coherent
          (subst
            (λ w.
              write_declared library same registry true now target value locked raced state w
              ≡ ok (r, after))
            this rest) in
      let (cache, reads, _) =
        resolve_fresh-effective library faults now after.rows defn answers default d [] after.cache
          (IsWritten-IsCoherent now defn new r after written) in
      (
        cache,
        reads
            ∙ ap (λ (w : Resolved N). ok (w, cache))
                (IsWritten-effective now defn default new r after allowed written),
      )
