-- ===== src/Execution/Finish.antt =====
-- The ends of a claimed action: `_validate_provider_link`, `complete_recovery_payment_link_action` and
-- `fail_recovery_payment_link_action`.
mod Rows
pub use Rows.*
use Prim.Native.String as Str
use reclaim_rail.Base.{
  ℕ, zero, suc, ◌+◌, ◌*◌, ◌^◌, ◌==◌, ℤ, pos, eqb_ℤ, ltb_ℤ, String, Bool, true, false, not, ◌&&◌,
  ◌||◌, Option, none, some, or_else, Result, ok, value_error, lookup_error, not_executable_error,
  provider_error, ◌>>=◌, ◌>>◌, raise_if, present, Datetime, shift, require_timezone_aware, decimal,
  show_bool, str_eq, if◌then◌else◌,
}
use reclaim_rail.Base.Rows.{find}
use reclaim_rail.Recovery.Models.{CaseStatus}
use reclaim_rail.Audit.Values.{Value, null, text, int, flag, end, field}
use reclaim_rail.Audit.Chain.{Platform}
use reclaim_rail.Audit.Store.{razorpay, AppendRequest}
use reclaim_rail.Links.{PaymentLink, ProviderError, link_status_value}
use reclaim_rail.Storage.{
  ActionStatus, RecoveryCase, RecoveryAction, RecoveryTables, action_status_value,
}
use reclaim_rail.Storage.Events.{record_event}
use reclaim_rail.Execution.{
  PreparedAction, ExecutionResult, succeeded, already_succeeded, is_succeeded, is_executing,
  retry_delay, rate_limit_delay,
}
use reclaim_rail.Execution.Prepare.{save_pair}

-- `_validate_provider_link`
unfoldable pub validate_link : PreparedAction → PaymentLink → Result (Unit {0})
validate_link p link = do
  raise_if (not (str_eq link.reference_id p.reference_id)) (provider_error false none none)
  raise_if (not (eqb_ℤ link.amount_minor p.request.amount_minor)) (provider_error false none none)
  raise_if (not (str_eq link.currency p.request.currency)) (provider_error false none none)

module _ (platform : Platform) where
  abbrev moment_or_null : Option Datetime → Value
  moment_or_null none = null
  moment_or_null (some t) = text (platform.isoformat t)

  abbrev pub succeeded_event : RecoveryAction → PaymentLink → Bool → Datetime → AppendRequest
  succeeded_event a link recovered_existing at = record {
    event_type = "action.payment_link.succeeded";
    actor_type = razorpay;
    event_data = field (some "attempt_number") (int (pos a.execution_attempt_count)) (
        field (some "provider_action_id") (text link.payment_link_id) (
          field (some "provider_action_status") (text (link_status_value link.status)) (
            field (some "provider_action_expires_at") (moment_or_null a.provider_action_expires_at)
              (field (some "reference_id") (text link.reference_id)
                (field (some "recovered_existing_link") (flag recovered_existing) end)))));
    occurred_at = at;
    agent_run_id = some a.agent_run_id;
    recovery_action_id = some a.id;
  }

  -- the rows that both ends lock
  abbrev pub find_action : RecoveryTables → ℕ → Result RecoveryAction
  find_action db id = present (find (λ a. a.id) id db.actions) (
      lookup_error
        (Str.◌++◌ "Recovery action " (Str.◌++◌ (platform.uuid_text id) " does not exist")))

  abbrev pub find_case : RecoveryTables → ℕ → Result RecoveryCase
  find_case db id = present (find (λ c. c.id) id db.cases) (
      lookup_error (Str.◌++◌ "Recovery case " (Str.◌++◌ (platform.uuid_text id) " does not exist")))

  unfoldable pub write_completed :
      RecoveryTables
      → PreparedAction
      → RecoveryAction
      → PaymentLink
      → Bool
      → Datetime
      → Result (ExecutionResult × RecoveryTables)
  write_completed db p a link recovered_existing at = do
    raise_if (not (is_executing a.status)) (
        not_executable_error (
          Str.◌++◌ "Recovery action " (
            Str.◌++◌ (platform.uuid_text a.id)
              (Str.◌++◌ " cannot complete from " (action_status_value a.status)))))
    c ← find_case db a.recovery_case_id
    let done = completed_action p link at a
    db' ←
        record_event platform (save_pair platform done (completed_case link at c) db) c.id
          (succeeded_event done link recovered_existing at)
    ok (
      record {
        action_id = a.id;
        recovery_case_id = c.id;
        disposition = succeeded;
        payment_link = some link;
        recovered_existing_link = recovered_existing;
      },
      db',
    )

  -- an action that has succeeded is left as it is
  abbrev pub complete_unless_done :
      Bool
      → RecoveryTables
      → PreparedAction
      → RecoveryAction
      → PaymentLink
      → Bool
      → Datetime
      → Result (ExecutionResult × RecoveryTables)
  complete_unless_done false db p a link recovered_existing at =
      write_completed db p a link recovered_existing at
  complete_unless_done true db p a link recovered_existing at = ok (
    record {
      action_id = a.id;
      recovery_case_id = a.recovery_case_id;
      disposition = already_succeeded;
      payment_link = some link;
      recovered_existing_link = recovered_existing;
    },
    db,
  )

  unfoldable pub complete_action :
      RecoveryTables
      → PreparedAction
      → PaymentLink
      → Bool
      → Datetime
      → Result (ExecutionResult × RecoveryTables)
  complete_action db p link recovered_existing at = do
    require_timezone_aware at (value_error "Recovery action execution time must be timezone-aware")
    validate_link p link
    a ← find_action db p.action_id
    complete_unless_done (is_succeeded a.status) db p a link recovered_existing at

  unfoldable pub write_failed :
      RecoveryTables
      → RecoveryAction
      → ProviderError
      → Datetime
      → ℤ
      → Result (Bool × RecoveryTables)
  write_failed db a e at maximum_attempts = do
    c ← find_case db a.recovery_case_id
    let retryable = may_retry e a.execution_attempt_count maximum_attempts
    db' ←
        record_event platform
          (save_pair platform (failed_action retryable e at a)
            (case_after_failure retryable e a.execution_attempt_count at c) db)
          c.id (failed_event e retryable a at)
    ok (retryable, db')

  abbrev pub fail_if_executing :
      Bool
      → RecoveryTables
      → RecoveryAction
      → ProviderError
      → Datetime
      → ℤ
      → Result (Bool × RecoveryTables)
  fail_if_executing true db a e at maximum_attempts = write_failed db a e at maximum_attempts
  fail_if_executing false db a e at maximum_attempts = ok (false, db)

  unfoldable pub fail_action :
      RecoveryTables
      → PreparedAction
      → ProviderError
      → Datetime
      → ℤ
      → Result (Bool × RecoveryTables)
  fail_action db p e at maximum_attempts = do
    require_timezone_aware at (value_error "Recovery action execution time must be timezone-aware")
    a ← find_action db p.action_id
    fail_if_executing (is_executing a.status) db a e at maximum_attempts
