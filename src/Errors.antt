-- ===== src/Errors.antt =====
-- The exceptions that the jobs, findings and outbox code raises itself.
pub data Exc : Type 0 where
  key_error value_error type_error runtime_error unknown_finding_kind does_not_exist index_error :
      Exc
