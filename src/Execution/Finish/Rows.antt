-- ===== src/Execution/Finish/Rows.antt =====
-- The rows and the event that the end of an action writes.
use Prim.Native.String as Str
use reclaim_rail.Base.{
  ℕ, zero, suc, ◌+◌, ◌*◌, ◌^◌, ◌==◌, ℤ, pos, ltb_ℤ, String, Bool, true, false, ◌&&◌, ◌||◌, Option,
  none, some, or_else, Datetime, shift, decimal, show_bool, if◌then◌else◌,
}
use reclaim_rail.Recovery.Models.{CaseStatus}
use reclaim_rail.Audit.Values.{Value, null, text, int, flag, end, field}
use reclaim_rail.Audit.Store.{razorpay, AppendRequest}
use reclaim_rail.Links.{PaymentLink, ProviderError, link_status_value}
use reclaim_rail.Storage.{ActionStatus, RecoveryCase, RecoveryAction}
use reclaim_rail.Execution.{PreparedAction, retry_delay, rate_limit_delay}

-- the rows of a completed action
abbrev pub completed_action :
    PreparedAction → PaymentLink → Datetime → RecoveryAction → RecoveryAction
completed_action p link at a = record a {
  status = ActionStatus.succeeded;
  provider_action_id = some link.payment_link_id;
  provider_action_status = some (link_status_value link.status);
  provider_action_url = some link.short_url;
  provider_action_expires_at = or_else link.provider_expires_at p.request.expire_by;
  completed_at = some at;
  last_error = none;
}

abbrev pub completed_case : PaymentLink → Datetime → RecoveryCase → RecoveryCase
completed_case link at c = record c {
  active_payment_link_id = some link.payment_link_id;
  recovery_attempt_count = c.recovery_attempt_count + 1;
  status = CaseStatus.ready;
  next_action_at = some at;
  version = c.version + 1;
}

-- `error.status_code == 429`, and whether the action may be tried again
abbrev pub is_throttled : Option ℕ → Bool
is_throttled none = false
is_throttled (some code) = code == 429

abbrev pub may_retry : ProviderError → ℕ → ℤ → Bool
may_retry e count maximum_attempts =
    e.retryable && (is_throttled e.status_code || ltb_ℤ (pos count) maximum_attempts)

-- `DEFAULT_PROVIDER_RETRY_DELAY * (2 ** (n - 1))`; for no attempt that is half of the delay
abbrev pub backoff : ℕ → ℕ
backoff zero = 15_000_000
backoff (suc n) = retry_delay * 2 ^ n

abbrev pub delay_after : ProviderError → ℕ → ℤ
delay_after e count = if is_throttled e.status_code then rate_limit_delay else pos (backoff count)

abbrev pub code_part : Option ℕ → String
code_part none = ""
code_part (some code) = Str.◌++◌ " status_code=" (decimal code)

abbrev pub provider_part : Option String → String
provider_part none = ""
provider_part (some code) = Str.◌++◌ " provider_code=" code

abbrev pub error_text : ProviderError → Bool → String
error_text e retryable = Str.◌++◌ "RazorpayPaymentLinkProviderError: retryable=" (
    Str.◌++◌ (show_bool retryable)
      (Str.◌++◌ (code_part e.status_code) (provider_part e.provider_error_code)))

-- the rows of a failed action, by whether it may be tried again
abbrev pub failed_action : Bool → ProviderError → Datetime → RecoveryAction → RecoveryAction
failed_action true e at a = record a {
  status = ActionStatus.failed;
  completed_at = some at;
  last_error = some (error_text e true);
  execute_after = some (shift at (delay_after e a.execution_attempt_count));
}
failed_action false e at a = record a {
  status = ActionStatus.failed;
  completed_at = some at;
  last_error = some (error_text e false);
}

abbrev pub case_after_failure : Bool → ProviderError → ℕ → Datetime → RecoveryCase → RecoveryCase
case_after_failure true e count at c = record c {
  status = CaseStatus.ready;
  next_action_at = some (shift at (delay_after e count));
  version = c.version + 1;
}
case_after_failure false e count at c = record c {
  status = CaseStatus.escalated;
  next_action_at = none;
  version = c.version + 1;
}

abbrev pub int_or_null : Option ℕ → Value
int_or_null none = null
int_or_null (some n) = int (pos n)

abbrev pub code_or_null : Option String → Value
code_or_null none = null
code_or_null (some s) = text s

abbrev pub failed_event : ProviderError → Bool → RecoveryAction → Datetime → AppendRequest
failed_event e retryable a at = record {
  event_type = "action.payment_link.failed";
  actor_type = razorpay;
  event_data = field (some "attempt_number") (int (pos a.execution_attempt_count)) (
      field (some "retryable") (flag retryable) (
        field (some "provider_status_code") (int_or_null e.status_code) (
          field (some "provider_error_code") (code_or_null e.provider_error_code) (
            field (some "rate_limited") (flag (is_throttled e.status_code))
              (field (some "error_type") (text "RazorpayPaymentLinkProviderError") end)))));
  occurred_at = at;
  agent_run_id = some a.agent_run_id;
  recovery_action_id = some a.id;
}
