-- ===== src/Lib.antt =====
-- The backend of DjangoBaseX: a model of its core services and the theorems about them.
--
-- Shared. Prelude holds the Boolean tests, results, texts and the operations on a table of rows
-- (filter, update, count, first) with their laws; Errors the exceptions that the code raises; Values
-- the JSON values of payloads and reports. A table is the list of its rows in primary-key order; a
-- query is a Boolean predicate; an UPDATE answers with how many rows matched and changes those.
-- Instants and durations are natural numbers of microseconds, the resolution of datetime.
--
-- backend/core/jobs/retry.py is Jobs.Retry: RetryPolicy with its checks, the capped exponential
-- backoff with full jitter, Retry-After and is_transient. The growth factor is a whole number.
--
-- backend/core/findings.py with class Finding of backend/core/models.py is Findings: raise_or_touch,
-- clear and resolve, under the partial unique index on open findings.
--
-- backend/core/outbox is Outbox. Message: the row, the topic and the querysets (models.py,
-- registry.py); Outcome: outcome.py; Enqueue, Claim, Deliver, Settle, Drain, Resolve: the functions
-- of service.py with the same names; Recovery: recovery.py. A drainer claims a row by
-- compare-and-set, calls the topic's handler, and settles the result by compare-and-set on its lease
-- token; the sweep parks rows whose lease ran out; a human decides about `unknown` ones. Steps makes
-- each transaction one step of a system, which any process may take at any time; Sound is its
-- invariant and Moves the status diagram; Exclusive is about the claim; Semantics goes through the
-- operations one by one.
--
-- backend/core/locks.py is Locks: Store is MemoryStore and the ttl checks, Exclusion runs
-- sequences of its calls.
--
-- backend/users/tokens.py with class UserSession of backend/users/models/session.py is Users. Session
-- is the data, Keys is decode, Revoke the revocations and session_is_live with its cache, Rotate the
-- refresh (rotate, _rotate_row, _grace_reissue), Issue the login (issue_pair and the session cap).
-- Families and Chains are about the open sessions of a family, Reuse and Grace about a token that is
-- presented twice, Signatures about the keys, Staleness about liveness after a revocation and the
-- readers that race it. The transaction of `rotate` is one step; its row lock is on the presented
-- session alone, so what else commits between its read and its write of the family is left out.
--
-- backend/users/services/lockout.py is Users.Lockout, a query over the login attempts; LockoutLaws
-- is about what moves a lock. backend/users/mfa.py and the two checks of a second factor in
-- backend/users/services/mfa.py are Users.Mfa, with MfaReplay about a code that is used twice; its
-- enrolment is MfaSetup, with MfaEnrolled and MfaDisabled about it.
--
-- backend/rbac/services.py over backend/rbac/models.py is Rbac. Store is the tables, Roles the
-- operations on roles and grants, Assign the assignments, the last-administrator guard, update_role
-- and the derived MFA flag; Guards, Administrators and Enforcement are about these three.
-- The cache is a version number that each change raises, the audit a list of event names.
--
-- backend/core/settings_registry.py and backend/core/settings_service.py with class Setting of
-- backend/core/models.py are Settings. Texts, Objects, Bounds and Types are the setting types,
-- Definition and Problems are SettingDef; Service is the rows and the cache, Resolve the reading,
-- State and Write the writing, the commit and the request's snapshot. Parsing, Clamping, Coercion
-- and Accepting are about the coercions, Reading, Coherence, Formed, Effective and Robust
-- about resolve_setting, Written, WriteThenRead, Staleness and Snapshot about writes and later reads. A
-- message's wording, logging and the views describe and report are left out. A JSON
-- column gives back a tuple as a list.
--
-- backend/core/flags.py is Flags: Resolution is the order of the rules, Cache is _row with the shared
-- cache and its generation, Answers is flag_enabled, flags_for and the route gate, Setting is set_flag
-- with its bumps. Coherence says when the cache is true to the rows; Laws and KillSwitch are about
-- reads and writes. backend/core/jobs/reconciler.py is Jobs.Reconciler: a pass of run over a store, with
-- Rollback and Reports about it.
--
-- Parameters: a reconciler's subclass, decimal.Decimal, str, json.loads and Python's == on settings,
-- the JWT library, pyotp, the encryption of a secret, str.upper, SHA-256 and the HMAC, the handlers of the topics, scrub_text,
-- random.random, lease tokens, the clocks, and what other transactions commit at the points where
-- the code lets them (`others`, `meanwhile`).
--
-- Bounds. `claim` tries ten rows, as CLAIM_RACE_RETRIES says; `drain_loop` recurs on what is left of
-- the batch limit, which the source's loop counts up to, so neither needs more fuel than the code
-- gives itself.
--
-- Not modelled: logging, the HTTP layer, registration at start-up, Celery, encryption, migrations
-- and the front end. Natural numbers stand for the integer columns, without their database range.
pub mod Prelude
pub mod Errors
pub mod Values
pub mod Jobs
pub mod Findings
pub mod Outbox
pub mod Flags
pub mod Locks
pub mod Rbac
pub mod Settings
pub mod Users
pub mod Witnesses
