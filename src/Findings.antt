-- ===== src/Findings.antt =====
-- The open-findings queue (backend/core/findings.py, model Finding of backend/core/models.py).
-- The table is the list of its rows; `now` is the clock's answer. An `object_id` is the number
-- that the source stores as `str(pk)`. The row that `raise_or_touch` also returns is not modelled:
-- no caller in the modelled code reads it.
pub mod Unique
pub mod Closing
use django_base_x.Prelude.{
  ℕ, ◌+◌, String, Bool, true, ◌&&◌, Option, none, some, List, [], ◌∷◌, ◌++◌, ◌==◌, str_eq, is_none,
  or_else, is_empty, slice_to, if◌then◌else◌, update_where, count_where, any_where, first_where,
}
use django_base_x.Prelude.Result.{Result, ok, err, ◌>>=◌, ◌>>◌}
use django_base_x.Errors.{Exc, value_error, unknown_finding_kind}
use django_base_x.Values.{Report}

-- core.registry.FindingKind, as far as it is read here
pub record FindingKind : Type 0 where
  pub kind : String
  pub label : String
  pub severity : String
  pub resolutions : List String

pub record Finding : Type 0 where
  pub id : ℕ
  pub kind : String
  pub object_type : String
  pub object_id : ℕ
  pub title : String
  pub details : Report
  pub severity : String
  pub first_seen_at : ℕ
  pub last_seen_at : ℕ
  pub occurrences : ℕ
  pub resolved_at : Option ℕ
  pub resolved_by : Option ℕ
  pub resolution : String
  pub resolution_note : String

-- `next_id` is the table's sequence.
pub record FindingTable : Type 0 where
  pub rows : List Finding
  pub next_id : ℕ

abbrev pub auto_cleared : String
auto_cleared = "auto_cleared"

unfoldable pub kind_of : List FindingKind → String → Result Exc FindingKind
kind_of kinds kind = elim (first_where (λ k. str_eq k.kind kind) kinds) [
  | some spec ↦ ok spec
  | none ↦ err unknown_finding_kind
]

unfoldable pub is_open : Finding → Bool
is_open f = is_none f.resolved_at

-- Finding.objects.open().of(kind, object_type, object_id)
unfoldable pub is_open_of : String → String → ℕ → Finding → Bool
unfolding is_open
is_open_of kind object_type object_id f =
    is_open f
    && (str_eq f.kind kind && (str_eq f.object_type object_type && f.object_id == object_id))

-- The `values` of raise_or_touch, written over an open row.
unfoldable pub touch : ℕ → String → Option Report → Finding → Finding
touch now title details f = record f {
  last_seen_at = now;
  occurrences = f.occurrences + 1;
  details = or_else details f.details;
  title = if is_empty title then f.title else slice_to 255 title;
}

unfoldable pub new_finding :
    FindingKind → ℕ → String → String → ℕ → String → Option Report → ℕ → Finding
new_finding spec id kind object_type object_id title details now = record {
  id = id;
  kind = kind;
  object_type = object_type;
  object_id = object_id;
  title = slice_to 255 (if is_empty title then spec.label else title);
  details = or_else details [];
  severity = spec.severity;
  first_seen_at = now;
  last_seen_at = now;
  occurrences = 1;
  resolved_at = none;
  resolved_by = none;
  resolution = "";
  resolution_note = "";
}

-- Finding.objects.create(...) under the partial unique index core_finding_open_uq: `none` is the
-- IntegrityError.
unfoldable pub create : Finding → FindingTable → Option FindingTable
create f t =
    if any_where (is_open_of f.kind f.object_type f.object_id) t.rows
    then none
    else some (record { rows = t.rows ++ (f ∷ []); next_id = t.next_id + 1 })

-- The object is given by its type and id, as every caller of the model does. `others` is what
-- other transactions commit between the update and the insert.
unfoldable pub raise_or_touch :
    List FindingKind
    → (FindingTable → FindingTable)
    → String
    → String
    → ℕ
    → String
    → Option Report
    → ℕ
    → FindingTable
    → Result Exc FindingTable
raise_or_touch kinds others kind object_type object_id title details now t = do
  spec ← kind_of kinds kind
  let open_rows = is_open_of kind object_type object_id
  let touched = λ (s : FindingTable). record s {
    rows = update_where open_rows (touch now title details) s.rows;
  }
  if any_where open_rows t.rows
      then ok (touched t)
      else (let s = others t in
          elim (create (new_finding spec s.next_id kind object_type object_id title details now)
            s) [ some created ↦ ok created | none ↦ ok (touched s) ])

-- The update of `clear`.
unfoldable pub auto_clear : ℕ → Finding → Finding
auto_clear now f = record f {
  resolved_at = some now;
  resolution = auto_cleared;
  resolved_by = none;
}

-- Returns how many closed, and the table.
unfoldable pub clear :
    List FindingKind → String → String → ℕ → ℕ → FindingTable → Result Exc (ℕ × FindingTable)
unfolding auto_clear
clear kinds kind object_type object_id now t = do
  spec ← kind_of kinds kind
  let open_rows = is_open_of kind object_type object_id
  ok (
    count_where open_rows t.rows,
    record t { rows = update_where open_rows (auto_clear now) t.rows },
  )

-- The update of `resolve`.
unfoldable pub close : ℕ → String → String → Option ℕ → Finding → Finding
close now resolution note actor f = record f {
  resolved_at = some now;
  resolution = resolution;
  resolution_note = note;
  resolved_by = actor;
}

-- A human's decision. The answer is false if the finding was already resolved.
unfoldable pub resolve :
    List FindingKind
    → Finding
    → String
    → String
    → Option ℕ
    → ℕ
    → FindingTable
    → Result Exc (Bool × FindingTable)
unfolding close is_open
resolve kinds finding resolution note actor now t = do
  spec ← kind_of kinds finding.kind
  let target = λ (f : Finding). is_open f && f.id == finding.id
  if any_where (λ r. str_eq r resolution) spec.resolutions
      then ok (
        any_where target t.rows,
        record t { rows = update_where target (close now resolution note actor) t.rows },
      )
      else err value_error
