-- ===== src/Flags/Setting.antt =====
-- The one writer of feature flags: set_flag in backend/core/flags.py. `raced` is the row of a
-- concurrent first write, which makes the create fail; `reached` is whether the cache answers. What
-- waits for the commit is the list of the changes.
use Prim.Native.Nat.{Ordering}
use Prim.Native.String.{compare}
use django_base_x.Prelude.{
  ℕ, String, Bool, true, false, not, ◌&&◌, Option, none, some, List, [], ◌∷◌, ◌++◌, str_eq,
  update_where, or_else, if◌then◌else◌,
}
use django_base_x.Prelude.Result.{Result, ok, err}
use django_base_x.Flags.Cache.{Cache, bump_generation}
use django_base_x.Flags.Resolution.{Flag, is_among, find, targets}

-- The keyword arguments: none where one is not given; a given list may be None.
pub record Changes : Type 0 where
  pub enabled : Option Bool
  pub user_ids : Option (Option (List String))
  pub role_slugs : Option (Option (List String))
  pub tenant_ids : Option (Option (List String))

pub data Refusal : Type 0 where
  unknown_flag : Refusal

-- _state
pub record Shown : Type 0 where
  pub enabled : Bool
  pub user_ids : List String
  pub role_slugs : List String
  pub tenant_ids : List String

pub record Change : Type 0 where
  pub key : String
  pub actor : Option String
  pub old : Option Shown
  pub new : Shown
  pub reason : String

unfoldable pub is_before : String → String → Bool
is_before a b = elim (compare a b) [ Ordering.lt ↦ true | _ ↦ false ]

unfoldable pub insert_name : String → List String → List String
insert_name name [] = name ∷ []
insert_name name (other ∷ others) =
    let rest = insert_name name others in
    if str_eq name other
    then other ∷ others
    else if is_before name other
    then name ∷ other ∷ others
    else other ∷ rest

-- sorted(set(names))
unfoldable pub sorted_set : List String → List String
sorted_set [] = []
sorted_set (name ∷ names) = insert_name name (sorted_set names)

-- sorted(set(changes[name] or []))
unfoldable pub given : Option (Option (List String)) → Option (List String) → Option (List String)
given none kept = kept
given (some names) kept = some (sorted_set (or_else names []))

unfoldable pub shown : Flag → Shown
shown flag = record {
  enabled = flag.enabled;
  user_ids = targets flag.user_ids;
  role_slugs = targets flag.role_slugs;
  tenant_ids = targets flag.tenant_ids;
}

unfoldable pub same_names : List String → List String → Bool
same_names [] [] = true
same_names [] (y ∷ ys) = false
same_names (x ∷ xs) [] = false
same_names (x ∷ xs) (y ∷ ys) = str_eq x y && same_names xs ys

abbrev same_bool : Bool → Bool → Bool
same_bool true b = b
same_bool false b = not b

unfoldable pub same_shown : Shown → Shown → Bool
same_shown a b =
    same_bool a.enabled b.enabled
    && same_names a.user_ids b.user_ids
    && same_names a.role_slugs b.role_slugs
    && same_names a.tenant_ids b.tenant_ids

-- setattr of each given field
unfoldable pub applied : Changes → Flag → Flag
applied changes flag = record {
  key = flag.key;
  enabled = or_else changes.enabled flag.enabled;
  user_ids = given changes.user_ids flag.user_ids;
  role_slugs = given changes.role_slugs flag.role_slugs;
  tenant_ids = given changes.tenant_ids flag.tenant_ids;
  updated_by = flag.updated_by;
}

abbrev pub stamped : Option String → Flag → Flag
stamped actor flag = record {
  key = flag.key;
  enabled = flag.enabled;
  user_ids = flag.user_ids;
  role_slugs = flag.role_slugs;
  tenant_ids = flag.tenant_ids;
  updated_by = actor;
}

-- create(key=key, updated_by=actor, **changes), over the model's defaults
unfoldable pub created : String → Option String → Changes → Flag
created key actor changes = applied changes record {
  key = key;
  enabled = false;
  user_ids = some [];
  role_slugs = some [];
  tenant_ids = some [];
  updated_by = actor;
}

abbrev change_of : String → Option String → String → Option Shown → Flag → Change
change_of key actor reason old flag = record {
  key = key;
  actor = actor;
  old = old;
  new = shown flag;
  reason = reason;
}

-- The rows, the changes that wait for the commit, and the cache.
abbrev pub Store : Type 0
Store = List Flag × List Change × Cache

module _ (reached : Bool) (now : ℕ) where
  -- The write, its change on commit, and the bump by which the transaction reads its own write.
  unfoldable pub written : List Flag → Change → Store → Store
  written rows change store = (rows, store.1 ++ (change ∷ []), bump_generation reached now store.2)

  unfoldable pub update_flag : String → Option String → String → Changes → Flag → Store → Store
  update_flag key actor reason changes flag store =
      let after = applied changes flag in
      if same_shown (shown flag) (shown after)
      then store
      else written
          (update_where (λ row. str_eq row.key key) (λ row. stamped actor (applied changes row))
            store.0)
          (change_of key actor reason (some (shown flag)) after) store

  unfoldable pub create_flag : String → Option String → String → Changes → Store → Store
  create_flag key actor reason changes store =
      let flag = created key actor changes in
      written (store.0 ++ (flag ∷ [])) (change_of key actor reason none flag) store

  -- The rows that the transaction meets, where a rival's row made its create fail.
  unfoldable pub joined_by : Flag → Store → Store
  joined_by flag store = (store.0 ++ (flag ∷ []), store.1, store.2)

  unfoldable pub store_flag :
      String → Option String → String → Changes → Option Flag → Store → Store
  store_flag key actor reason changes raced store = elim (find store.0 key) [
    | some flag ↦ update_flag key actor reason changes flag store
    | none ↦ elim raced [
      | none ↦ create_flag key actor reason changes store
      | some flag ↦ update_flag key actor reason changes flag (joined_by flag store)
    ]
  ]

  unfoldable pub set_flag :
      List String
      → String
      → Option String
      → String
      → Changes
      → Option Flag
      → Store
      → Result Refusal Store
  set_flag registered key actor reason changes raced store =
      if is_among key registered
      then ok (store_flag key actor reason changes raced store)
      else err unknown_flag

  -- committed, for each change that waits: a bump each, and the audit
  unfoldable pub bumped : List Change → Cache → Cache
  bumped [] cache = cache
  bumped (change ∷ changes) cache = bumped changes (bump_generation reached now cache)

  unfoldable pub commit : Store → List Change × Store
  commit store = (store.1, (store.0, [], bumped store.1 store.2))
