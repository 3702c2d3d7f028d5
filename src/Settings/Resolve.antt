-- ===== src/Settings/Resolve.antt =====
-- Reading in backend/core/settings_service.py: the value of a scope's entry, the scopes of a
-- setting and a caller, and resolve_setting.
use django_base_x.Prelude.{
  ℕ, String, Bool, true, false, ◌&&◌, Option, none, some, List, [], ◌∷◌, ◌++◌, if◌then◌else◌,
  is_empty,
}
use django_base_x.Prelude.Result.{Result, ok, err, ◌>>=◌}
use django_base_x.Settings.Objects.{uncaught, Object, Raised, value_error, setting_invalid}
use django_base_x.Settings.Texts.{is_in}
use django_base_x.Settings.Types.{Library}
use django_base_x.Settings.Definition.{SettingDef, read, unwrap, def_to_json}
use django_base_x.Settings.Service.{
  Place, Row, Entry, absent, found, malformed, Cache, Faults, Resolved, looked,
}

pub record User : Type 0 where
  pub pk : Option ℕ
  pub public_id : String
  pub is_authenticated : Bool

-- registry.settings.tenant_resolver(): none where no tenancy is installed; the resolver returns
-- none where it raises, and some none where the user has no tenant
abbrev pub TenantResolver : Type 0
TenantResolver = Option (User → Option (Option String))

abbrev pub place_of : String → String → Option String → Place
place_of key scope_type scope_id = record {
  key = key;
  scope_type = scope_type;
  scope_id = scope_id;
}

unfoldable pub user_steps : List String → Option User → List (String × String)
user_steps scopes none = []
user_steps scopes (some user) =
    if is_in "user" scopes && user.is_authenticated then ("user", user.public_id) ∷ [] else []

-- The step of the tenant that a resolver returned, if it is truthy.
unfoldable pub tenant_step : Option (Option String) → List (String × String)
tenant_step none = []
tenant_step (some none) = []
tenant_step (some (some tenant)) = if is_empty tenant then [] else ("tenant", tenant) ∷ []

unfoldable pub tenant_steps : TenantResolver → List String → Option User → List (String × String)
tenant_steps resolver scopes none = []
tenant_steps none scopes (some user) = []
tenant_steps (some resolve) scopes (some user) =
    if is_in "tenant" scopes then tenant_step (resolve user) else []

-- _scope_ids
unfoldable pub scope_ids : TenantResolver → List String → Option User → List (String × String)
scope_ids resolver scopes user = user_steps scopes user ++ tenant_steps resolver scopes user

module _ {N : Type 0} where
  unfoldable pub entry_locked : Option (Entry N) → Bool
  entry_locked none = false
  entry_locked (some absent) = false
  entry_locked (some malformed) = false
  entry_locked (some (found value locked)) = locked

  abbrev pub resolved_at : SettingDef N → Object N → String → Bool → Resolved N
  resolved_at defn value source locked = record {
    key = defn.key;
    value = value;
    source = source;
    locked = locked;
  }

module _ {N : Type 0} (library : Library N) where
  -- except (ValueError, SettingInvalid): the row is skipped
  unfoldable pub skipping : Result Raised (Object N) → Result Raised (Option (Object N))
  skipping (ok value) = ok (some value)
  skipping (err raised) = elim raised [
    | value_error rule ↦ ok none
    | setting_invalid rule ↦ ok none
    | other ↦ err other
  ]

  -- _value_of: KeyError where there is no "v"
  unfoldable pub value_of : SettingDef N → Option (Entry N) → Result Raised (Option (Object N))
  value_of defn none = ok none
  value_of defn (some absent) = ok none
  value_of defn (some malformed) = err uncaught
  value_of defn (some (found value locked)) =
      skipping (unwrap value >>= λ inner. read library defn inner)

  module _ (faults : String → Faults) (now : ℕ) (rows : List (Row N)) (defn : SettingDef N) where
    -- The loop over the user and tenant steps.
    unfoldable pub first_found :
        List (String × String) → Cache N → Result Raised (Option (Resolved N) × Cache N)
    first_found [] cache = ok (none, cache)
    first_found ((scope_type, scope_id) ∷ steps) cache =
        looked (faults scope_type) now rows (place_of defn.key scope_type (some scope_id)) cache
        >>= λ seen.
            let rest = first_found steps seen.1 in
            value_of defn seen.0 >>= λ value. elim value [
              | none ↦ rest
              | some x ↦ ok (some (resolved_at defn x scope_type false), seen.1)
            ]

    -- The platform's value, whether it is locked, and the cache.
    unfoldable pub platform_found : Cache N → Result Raised (Option (Object N) × Bool × Cache N)
    platform_found cache =
        if is_in "platform" defn.scopes
        then (looked (faults "platform") now rows (place_of defn.key "platform" none) cache
            >>= λ seen. value_of defn seen.0 >>= λ value. ok (value, entry_locked seen.0, seen.1))
        else ok (none, false, cache)

    unfoldable pub by_default : Cache N → Result Raised (Resolved N × Cache N)
    by_default cache = read library defn (def_to_json library defn defn.default) >>= λ value.
        ok (resolved_at defn value "default" false, cache)

    -- The user's and the tenant's override, then the platform's, then the default.
    unfoldable pub below_lock :
        List (String × String) → Option (Object N) → Cache N → Result Raised (Resolved N × Cache N)
    below_lock steps platform cache = first_found steps cache >>= λ searched. elim searched.0 [
      | some resolved ↦ ok (resolved, searched.1)
      | none ↦ elim platform [
        | some value ↦ ok (resolved_at defn value "platform" false, searched.1)
        | none ↦ by_default searched.1
      ]
    ]

    -- resolve_setting, from after the snapshot is asked
    unfoldable pub resolve_fresh :
        List (String × String) → Cache N → Result Raised (Resolved N × Cache N)
    resolve_fresh steps cache = platform_found cache >>= λ platform. elim platform.0 [
      | none ↦ below_lock steps none platform.2
      | some value ↦
          if platform.1
          then ok (resolved_at defn value "platform" true, platform.2)
          else below_lock steps (some value) platform.2
    ]
