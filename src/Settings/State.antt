-- ===== src/Settings/State.antt =====
-- The state that backend/core/settings_service.py writes, and what each write does to it: _changed,
-- the callback of on_commit, the request's snapshot and _check_scope. `reached` is whether the
-- cache answers when the generation is bumped.
use django_base_x.Prelude.{
  ℕ, ◌==◌, String, Bool, true, false, not, ◌&&◌, Option, none, some, List, [], ◌∷◌, ◌++◌,
  first_where, filter_by, str_eq, is_empty, is_some, if◌then◌else◌,
}
use django_base_x.Prelude.Result.{Result, ok, err}
use django_base_x.Settings.Texts.{strip, is_in}
use django_base_x.Settings.Objects.{
  saved, Object, Raised, setting_invalid, unknown_setting, cannot_be_set_here,
  cannot_be_set_per_tenant, needs_public_id,
}
use django_base_x.Settings.Definition.{SettingDef, unwrap, stored}
use django_base_x.Settings.Service.{Place, Row, Cache, Resolved, bump_generation}
use django_base_x.Settings.Resolve.{TenantResolver}

pub data Verb : Type 0 where
  setting_changed setting_reset : Verb

-- An entry of the audit log, without its fields old_source and locked.
pub record Change (N : Type 0) : Type 0 where
  pub verb : Verb
  pub actor : Option String
  pub place : Place
  pub old : Object N
  pub new : Object N
  pub reason : String

pub record Memo (N : Type 0) : Type 0 where
  pub key : String
  pub pk : Option ℕ
  pub resolved : Resolved N

-- `waiting` is what on_commit holds: the generation is bumped and the change is logged.
pub record State (N : Type 0) : Type 0 where
  pub rows : List (Row N)
  pub cache : Cache N
  pub snapshot : Option (List (Memo N))
  pub waiting : List (Change N)
  pub audit : List (Change N)

pub record Registry (N : Type 0) : Type 0 where
  pub defs : List (SettingDef N)
  pub tenant_resolver : TenantResolver

-- The arguments of a write that set_value and reset share.
pub record Target : Type 0 where
  pub key : String
  pub scope : String
  pub scope_id : Option String
  pub actor : Option String
  pub reason : String

unfoldable pub same_pk : Option ℕ → Option ℕ → Bool
same_pk none none = true
same_pk none (some b) = false
same_pk (some a) none = false
same_pk (some a) (some b) = a == b

-- isinstance(scope_id, str) and scope_id.strip(), stripped
unfoldable pub given_id : Option String → Result Raised (Option String)
given_id none = err (setting_invalid needs_public_id)
given_id (some id) =
    if is_empty (strip id) then err (setting_invalid needs_public_id) else ok (some (strip id))

unfoldable pub same_flag : Bool → Bool → Bool
same_flag true b = b
same_flag false b = not b

module _ {N : Type 0} where
  unfoldable pub definition : Registry N → String → Result Raised (SettingDef N)
  definition registry key = elim (first_where (λ defn. str_eq defn.key key) registry.defs) [
    | none ↦ err unknown_setting
    | some defn ↦ ok defn
  ]

  unfoldable pub check_scope :
      Registry N → SettingDef N → String → Option String → Result Raised (Option String)
  check_scope registry defn scope scope_id =
      if not (is_in scope defn.scopes)
      then err (setting_invalid cannot_be_set_here)
      else if str_eq scope "platform"
      then ok none
      else if str_eq scope "tenant" && not (is_some registry.tenant_resolver)
      then err (setting_invalid cannot_be_set_per_tenant)
      else given_id scope_id

  unfoldable pub forget : String → Option (List (Memo N)) → Option (List (Memo N))
  forget key none = none
  forget key (some memos) = some (filter_by (λ memo. not (str_eq memo.key key)) memos)

  unfoldable pub recall : String → Option ℕ → Option (List (Memo N)) → Option (Resolved N)
  recall key pk none = none
  recall key pk (some memos) =
      elim (first_where (λ memo. str_eq memo.key key && same_pk memo.pk pk) memos) [
        | none ↦ none
        | some memo ↦ some memo.resolved
      ]

  unfoldable pub remember :
      String → Option ℕ → Resolved N → Option (List (Memo N)) → Option (List (Memo N))
  remember key pk resolved none = none
  remember key pk resolved (some memos) =
      some (record { key = key; pk = pk; resolved = resolved } ∷ memos)

  -- _changed, and the write of the rows that it follows
  unfoldable pub changed : Bool → ℕ → Change N → List (Row N) → State N → State N
  changed reached now change rows state = record {
    rows = rows;
    cache = bump_generation reached now state.cache;
    snapshot = forget change.place.key state.snapshot;
    waiting = state.waiting ++ (change ∷ []);
    audit = state.audit;
  }

  -- committed, for one registered change
  unfoldable pub committed : Bool → ℕ → Change N → State N → State N
  committed reached now change state = record {
    rows = state.rows;
    cache = bump_generation reached now state.cache;
    snapshot = state.snapshot;
    waiting = state.waiting;
    audit = state.audit ++ (change ∷ []);
  }

  unfoldable pub committed_all : Bool → ℕ → List (Change N) → State N → State N
  committed_all reached now [] state = state
  committed_all reached now (change ∷ changes) state =
      committed_all reached now changes (committed reached now change state)

  -- The commit of the transaction: what waits runs, in order.
  unfoldable pub commit : Bool → ℕ → State N → State N
  commit reached now state = committed_all reached now state.waiting record {
    rows = state.rows;
    cache = state.cache;
    snapshot = state.snapshot;
    waiting = [];
    audit = state.audit;
  }

  -- unwrap(row.value), or the value of a row that the service did not write
  unfoldable pub old_value : Row N → Object N
  old_value row = elim (unwrap row.value) [ ok value ↦ value | err raised ↦ row.value ]

  abbrev pub change_of : Verb → Target → Place → Object N → Object N → Change N
  change_of verb target place old new = record {
    verb = verb;
    actor = target.actor;
    place = place;
    old = old;
    new = new;
    reason = target.reason;
  }

  unfoldable pub overwritten : Object N → Bool → Option String → Row N → Row N
  overwritten new locked actor row = record {
    place = row.place;
    value = saved (stored new);
    is_locked = locked;
    updated_by = actor;
  }
