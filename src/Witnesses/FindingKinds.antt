-- ===== src/Witnesses/FindingKinds.antt =====
-- Findings about one message.
use django_base_x.Prelude.{ℕ, ◌≤◌, ◌≡◌, refl, none, some, [], ◌∷◌, count_where}
use django_base_x.Prelude.Result.{ok}
use django_base_x.Findings.{FindingTable, raise_or_touch, clear, is_open_of}
use django_base_x.Findings.Unique.{IsUnique, raise_or_touch-one_open}
use django_base_x.Findings.Closing.{clear-none_open}
use django_base_x.Outbox.Message.{unknown_kind, failed_kind, object_type}
use django_base_x.Witnesses.OutboxData.{example_kinds, failed_spec, no_findings}
use django_base_x.Witnesses.OutboxResults.{none_open}

raise_or_touch-one_open_example :
    (s : FindingTable) × (raise_or_touch example_kinds
        (λ t. t)
        failed_kind
        object_type
        1
        ""
        none
        5
        no_findings
      ≡ ok s)
    × IsUnique s
    × (count_where (is_open_of failed_kind object_type 1) s.rows ≡ 1)
unfolding django_base_x.Findings.kind_of django_base_x.Prelude.first_where
raise_or_touch-one_open_example =
    raise_or_touch-one_open example_kinds (λ t. t) failed_spec failed_kind object_type 1 "" none 5
      no_findings (λ s u. u) none_open refl

clear-none_open_example :
    (n : ℕ) × (s : FindingTable) × (clear example_kinds failed_kind object_type 1 5 no_findings
      ≡ ok (n, s))
    × (n ≤ 1)
    × (count_where (is_open_of failed_kind object_type 1) s.rows ≡ 0)
    × (count_where (is_open_of unknown_kind object_type 1) s.rows
        ≡ count_where (is_open_of unknown_kind object_type 1) [])
unfolding django_base_x.Findings.kind_of django_base_x.Prelude.first_where
clear-none_open_example =
    clear-none_open example_kinds failed_spec failed_kind object_type 1 5 no_findings unknown_kind
      object_type 1 none_open refl (λ same. cc (same.0))
