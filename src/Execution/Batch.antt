-- ===== src/Execution/Batch.antt =====
-- apps/api/app/services/recovery_action_batch.py: the actions that can be executed are discovered and
-- executed one after the other.
use Prim.Native.String as Str
use Prim.Native.Char.{code}
use reclaim_rail.Base.{
  ℕ, leb, ◌==◌, ℤ, pos, pos_part, leb_ℤ, ltb_ℤ, ◌-ℤ◌, String, Bool, true, false, not, ◌&&◌, ◌||◌,
  Option, none, some, List, [], ◌∷◌, length, filter, take, map, Result, ok, err, Exn, value_error,
  not_executable_error, not_due_error, in_progress_error, provider_failure, cancelled, ◌>>◌,
  raise_if, Datetime, before, not_after, require_timezone_aware,
}
use reclaim_rail.Base.Rows.{sort}
use reclaim_rail.Recovery.Models.{is_link}
use reclaim_rail.Audit.Chain.{Platform}
use reclaim_rail.Storage.{ActionStatus, RecoveryAction, RecoveryTables}
use reclaim_rail.Approvals.Queue.{expire_pending}
use reclaim_rail.Execution.{
  ExecutionDisposition, succeeded, already_succeeded, policy_blocked, policy_escalated,
  policy_stopped, ExecutionResult, Bounds, Surroundings,
}
use reclaim_rail.Execution.Run.{LinkProvider, CustomerProvider, transact, execute_action}

-- the exception stands for the name of its class
pub record BatchFailure : Type 0 where
  pub action_id : ℕ
  pub error : Exn
  pub retryable : Bool

-- the three lists that the loop collects
pub record Progress : Type 0 where
  pub execution_results : List ExecutionResult
  pub failures : List BatchFailure
  pub skipped_action_ids : List ℕ

pub record BatchResult : Type 0 where
  pub discovered_action_ids : List ℕ
  pub progress : Progress
  pub expired_approvals : ℕ

-- the properties of a result
abbrev is_success : ExecutionDisposition → Bool
is_success succeeded = true
is_success _ = false

abbrev was_done : ExecutionDisposition → Bool
was_done already_succeeded = true
was_done _ = false

abbrev is_denied : ExecutionDisposition → Bool
is_denied policy_blocked = true
is_denied policy_escalated = true
is_denied policy_stopped = true
is_denied _ = false

abbrev pub discovered_count : BatchResult → ℕ
discovered_count r = length r.discovered_action_ids

abbrev pub succeeded_count : BatchResult → ℕ
succeeded_count r =
    length (filter (λ result. is_success result.disposition) r.progress.execution_results)

abbrev pub already_succeeded_count : BatchResult → ℕ
already_succeeded_count r =
    length (filter (λ result. was_done result.disposition) r.progress.execution_results)

abbrev pub policy_denied_count : BatchResult → ℕ
policy_denied_count r =
    length (filter (λ result. is_denied result.disposition) r.progress.execution_results)

abbrev pub retryable_failures : BatchResult → ℕ
retryable_failures r = length (filter (λ f. f.retryable) r.progress.failures)

abbrev pub permanent_failures : BatchResult → ℕ
permanent_failures r = length (filter (λ f. not f.retryable) r.progress.failures)

abbrev pub skipped_count : BatchResult → ℕ
skipped_count r = length r.progress.skipped_action_ids

-- SQL's `LIKE` with the pattern between two `%`; an underscore stands for any character
unfoldable pub begins_like : String → String → Bool
begins_like Str.[] s = true
begins_like (Str.◌∷◌ a pattern) Str.[] = false
begins_like (Str.◌∷◌ a pattern) (Str.◌∷◌ c s) =
    let rest = begins_like pattern s in (code a == 95 || code a == code c) && rest

unfoldable pub contains_like : String → String → Bool
contains_like pattern Str.[] = begins_like pattern ""
contains_like pattern (Str.◌∷◌ c s) =
    let rest = contains_like pattern s in begins_like pattern (Str.◌∷◌ c s) || rest

abbrev pub was_throttled : Option String → Bool
was_throttled none = false
was_throttled (some last_error) = contains_like "status_code=429" last_error

-- `t <= at`, with what a missing time counts as
abbrev pub reached : Bool → Option Datetime → Datetime → Bool
reached missing none at = missing
reached missing (some t) at = not_after t at

abbrev pub stale_before : Datetime → ℤ → Datetime
stale_before at timeout = record at { instant = at.instant -ℤ timeout }

abbrev pub is_ready : RecoveryAction → ℤ → Datetime → ActionStatus → Bool
is_ready a timeout at ActionStatus.allowed = true
is_ready a timeout at ActionStatus.scheduled = reached false a.execute_after at
is_ready a timeout at ActionStatus.failed = reached true a.execute_after at
is_ready a timeout at ActionStatus.executing = reached true a.started_at (stale_before at timeout)
is_ready a timeout at _ = false

-- the `where` clause
abbrev pub is_executable : ℤ → ℤ → Datetime → RecoveryAction → Bool
is_executable timeout maximum_attempts at a =
    is_link a.action_type
    && (ltb_ℤ (pos a.execution_attempt_count) maximum_attempts || was_throttled a.last_error)
    && is_ready a timeout at a.status

-- `order_by(execute_after.asc().nulls_first(), created_at, id)`
abbrev earlier_time : Option Datetime → Option Datetime → Bool
earlier_time none none = false
earlier_time none (some t) = true
earlier_time (some t) none = false
earlier_time (some s) (some t) = before s t

abbrev pub runs_first : RecoveryAction → RecoveryAction → Bool
runs_first a b =
    earlier_time a.execute_after b.execute_after
    || (not (earlier_time b.execute_after a.execute_after)
        && (before a.created_at b.created_at
            || (not (before b.created_at a.created_at) && leb a.id b.id)))

-- `discover_executable_recovery_action_ids`
unfoldable pub discover_actions : RecoveryTables → Datetime → ℤ → ℤ → ℤ → Result (List ℕ)
discover_actions db at batch_size timeout maximum_attempts = do
  require_timezone_aware at (value_error "Recovery action batch time must be timezone-aware")
  raise_if (not (leb_ℤ (pos 1) batch_size && leb_ℤ batch_size (pos 100)))
      (value_error "Recovery action batch size must be between 1 and 100")
  raise_if (leb_ℤ timeout (pos 0)) (value_error "Recovery action claim timeout must be positive")
  raise_if (not (leb_ℤ (pos 1) maximum_attempts))
      (value_error "Maximum execution attempts must be positive")
  ok (
      map (λ a. a.id)
        (take (pos_part batch_size)
          (sort runs_first (filter (is_executable timeout maximum_attempts at) db.actions))))

-- where the loop puts the outcome of one action; later ones stand behind it
abbrev fails_with : ℕ → Exn → Bool → Progress → Progress
fails_with id e retryable rest = record rest {
  failures = record { action_id = id; error = e; retryable = retryable } ∷ rest.failures;
}

abbrev skips : ℕ → Progress → Progress
skips id rest = record rest { skipped_action_ids = id ∷ rest.skipped_action_ids }

abbrev pub note_outcome : ℕ → Result ExecutionResult → Progress → Progress
note_outcome id (ok result) rest = record rest {
  execution_results = result ∷ rest.execution_results;
}
note_outcome id (err (provider_failure retryable status_code)) rest =
    fails_with id (provider_failure retryable status_code) retryable rest
note_outcome id (err (in_progress_error message)) rest = skips id rest
note_outcome id (err (not_due_error message)) rest = skips id rest
note_outcome id (err (not_executable_error message)) rest = skips id rest
note_outcome id (err e) rest = fails_with id e false rest

-- the outcome of one action before the rest of the loop; a cancellation goes through and ends it
abbrev pub note_before : ℕ → Result ExecutionResult → Result Progress → Result Progress
note_before id outcome (ok rest) = ok (note_outcome id outcome rest)
note_before id outcome (err e) = err e

abbrev pub go_on_after :
    ℕ
    → Result ExecutionResult
    → RecoveryTables
    → Result Progress × RecoveryTables
    → Result Progress × RecoveryTables
go_on_after id (err cancelled) db rest = (err cancelled, db)
go_on_after id outcome db (rest, db') = (note_before id outcome rest, db')

module _ (platform : Platform) (uuid_hex : ℕ → String) (around : Surroundings)
    (provider : ℕ → LinkProvider) (customers : Option CustomerProvider) where
  -- the loop; the provider answers each action anew
  unfoldable pub run_each :
      RecoveryTables → List ℕ → Bounds → Datetime → Result Progress × RecoveryTables
  run_each db [] bounds at =
      (ok (record { execution_results = []; failures = []; skipped_action_ids = [] }), db)
  run_each db (id ∷ ids) bounds at =
      let (outcome, db₁) =
        execute_action platform uuid_hex around (provider id) customers db id bounds at in
      let rest = run_each db₁ ids bounds at in go_on_after id outcome db₁ rest

  abbrev collected :
      List ℕ → ℕ → Result Progress × RecoveryTables → Result BatchResult × RecoveryTables
  collected ids expired (err e, db) = (err e, db)
  collected ids expired (ok progress, db) = (
    ok (record { discovered_action_ids = ids; progress = progress; expired_approvals = expired }),
    db,
  )

  abbrev run_discovered :
      Result (List ℕ) → ℕ → RecoveryTables → Bounds → Datetime → Result BatchResult × RecoveryTables
  run_discovered (err e) expired db bounds at = (err e, db)
  run_discovered (ok ids) expired db bounds at = collected ids expired (run_each db ids bounds at)

  abbrev after_expiry :
      Result ℕ × RecoveryTables → ℤ → Bounds → Datetime → Result BatchResult × RecoveryTables
  after_expiry (err e, db) batch_size bounds at = (err e, db)
  after_expiry (ok expired, db) batch_size bounds at =
      run_discovered
        (discover_actions db at batch_size bounds.claim_timeout bounds.maximum_attempts) expired db
        bounds at

  abbrev after_batch_check :
      Result (Unit {0})
      → RecoveryTables
      → Result BatchResult × RecoveryTables
      → Result BatchResult × RecoveryTables
  after_batch_check (err e) db rest = (err e, db)
  after_batch_check (ok _) db rest = rest

  -- `run_recovery_action_batch`, with the tables that it leaves
  unfoldable pub run_action_batch :
      RecoveryTables → ℤ → Bounds → Datetime → Result BatchResult × RecoveryTables
  run_action_batch db batch_size bounds at =
      after_batch_check
        (require_timezone_aware at
          (value_error "Recovery action batch time must be timezone-aware"))
        db
        (after_expiry (transact db (expire_pending platform db at (pos 100))) batch_size bounds at)
