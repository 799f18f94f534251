-- ===== src/Execution.antt =====
-- apps/api/app/services/recovery_action_executor.py: a payment-link action is claimed under the policy of
-- the moment, executed at the provider, and completed or failed.
pub mod Prepare
pub mod Finish
pub mod Run
pub mod Batch
pub mod Prepared
pub mod Moves
pub mod Reached
pub mod Ended
pub mod Executed
pub mod Kept
pub mod Invariants
pub mod Exclusive
pub mod Throttled
pub mod Counted
pub mod Recovered
pub mod Starts
pub mod Settled
pub mod Identified
pub mod Recorded
pub mod Batched
pub mod Audited
mod Tests
pub mod Claims
pub mod Fields
pub mod Justified
use Prim.Native.String as Str
use reclaim_rail.Base.{
  ℕ, ◌+◌, ◌*◌, leb, ℤ, pos, leb_ℤ, String, Bool, true, false, not, ◌&&◌, ◌||◌, Option, none, some,
  is_some, or_else, List, Result, ok, err, value_error, not_executable_error, not_due_error,
  in_progress_error, ◌>>=◌, ◌>>◌, raise_if, Datetime, before, not_after, shift,
  require_timezone_aware, str_eq, if◌then◌else◌,
}
use reclaim_rail.Payments.State.{PaymentState, parse}
use reclaim_rail.Projection.{PaymentAttempt}
use reclaim_rail.Incidents.{IncidentSeverity}
use reclaim_rail.Incidents.Active.{RevenueIncident, IncidentContext}
use reclaim_rail.Recovery.Models.{
  CaseStatus, CaseSnapshot, make_case_snapshot, ActionProposal, make_action_proposal, PolicyOutcome,
  allow, block, escalate, stop, is_link,
}
use reclaim_rail.Links.{LinkRequest, PaymentLink}
use reclaim_rail.Storage.{ActionStatus, RecoveryCase, RecoveryAction, action_status_value}

pub data ExecutionDisposition : Type 0 where
  succeeded already_succeeded policy_blocked policy_escalated policy_stopped : ExecutionDisposition

pub record PreparedAction : Type 0 where
  pub action_id : ℕ
  pub recovery_case_id : ℕ
  pub provider_payment_id : String
  pub customer_contact_allowed : Bool
  pub attempt_number : ℕ
  pub reference_id : String
  pub request : LinkRequest

pub record ExecutionResult : Type 0 where
  pub action_id : ℕ
  pub recovery_case_id : ℕ
  pub disposition : ExecutionDisposition
  pub payment_link : Option PaymentLink
  pub recovered_existing_link : Bool

-- `RecoveryActionPreparation`, whose constructor takes exactly one of the two
pub data Preparation : Type 0 where
  prepared : PreparedAction → Preparation
  terminal : ExecutionResult → Preparation

-- `timedelta` in microseconds
abbrev pub minutes : ℕ → ℤ
minutes n = pos (n * 60_000_000)

abbrev pub default_claim_timeout : ℤ
default_claim_timeout = minutes 2

abbrev pub default_maximum_attempts : ℤ
default_maximum_attempts = pos 3

abbrev pub default_link_lifetime : ℤ
default_link_lifetime = minutes 1440

abbrev pub retry_delay : ℕ
retry_delay = 30_000_000

abbrev pub rate_limit_delay : ℤ
rate_limit_delay = minutes 5

-- the bounds that the services take together
pub record Bounds : Type 0 where
  pub claim_timeout : ℤ
  pub maximum_attempts : ℤ
  pub link_lifetime : ℤ

-- what the executor reads of other tables, and the clock of the incident query
pub record Surroundings : Type 0 where
  pub attempts : List PaymentAttempt
  pub incidents : List RevenueIncident
  pub now : Datetime

-- `build_payment_link_reference_id`, with the hexadecimal text of an identifier
abbrev pub reference_of : (ℕ → String) → ℕ → String
reference_of uuid_hex action_id = Str.◌++◌ "rr_" (uuid_hex action_id)

-- `_build_proposal`
abbrev pub proposal_of : RecoveryAction → ActionProposal
proposal_of a = record {
  action_type = a.action_type;
  reason = a.proposal_reason;
  amount_minor = a.amount_minor;
  currency = a.currency;
  channel = a.channel;
  target_payment_method = a.target_payment_method;
  execute_after = a.execute_after;
}

abbrev pub stored_state : Option PaymentState → String → Result PaymentState
stored_state none text = err (value_error (Str.◌++◌ text " is not a valid PaymentState"))
stored_state (some s) text = ok s

abbrev pub severity_of : Option IncidentContext → Option IncidentSeverity
severity_of none = none
severity_of (some i) = some i.severity

-- `_build_case_snapshot`, before its constructor
abbrev pub snapshot_of :
    RecoveryCase → PaymentAttempt → PaymentState → Option IncidentContext → CaseSnapshot
snapshot_of c p state incident = record {
  case_id = c.id;
  payment_attempt_id = c.payment_attempt_id;
  provider_payment_id = p.provider_payment_id;
  payment_state = state;
  amount_minor = c.amount_minor;
  currency = c.currency;
  payment_method = c.payment_method;
  status = c.status;
  recovery_attempt_count = pos c.recovery_attempt_count;
  customer_contact_allowed = c.customer_contact_allowed;
  last_customer_contact_at = c.last_customer_contact_at;
  active_payment_link_id = c.active_payment_link_id;
  active_incident_severity = severity_of incident;
  late_authorization_detected_at =
      or_else p.late_authorization_detected_at c.late_authorization_detected_at;
  recovered_at = c.recovered_at;
}

unfoldable pub build_snapshot :
    RecoveryCase → PaymentAttempt → Option IncidentContext → Result CaseSnapshot
build_snapshot c p incident = do
  state ← stored_state (parse p.current_state) p.current_state
  make_case_snapshot (snapshot_of c p state incident)

-- `_policy_status` and `_policy_disposition`; the caller has seen that the outcome is another one
abbrev pub policy_status : PolicyOutcome → ActionStatus
policy_status block = ActionStatus.blocked
policy_status escalate = ActionStatus.escalated
policy_status stop = ActionStatus.stopped
policy_status allow = ActionStatus.allowed

abbrev pub policy_disposition : PolicyOutcome → ExecutionDisposition
policy_disposition block = policy_blocked
policy_disposition escalate = policy_escalated
policy_disposition stop = policy_stopped
policy_disposition allow = succeeded

-- `_apply_denied_case_projection`
abbrev pub deny_case : PolicyOutcome → Datetime → RecoveryCase → RecoveryCase
deny_case stop at c = record c {
  status = CaseStatus.cancelled;
  next_action_at = none;
  closed_at = some at;
  close_reason = some "execution_policy_stop";
  version = c.version + 1;
}
deny_case escalate at c = record c {
  status = CaseStatus.escalated;
  next_action_at = none;
  version = c.version + 1;
}
deny_case _ at c = record c {
  status = CaseStatus.waiting;
  next_action_at = none;
  version = c.version + 1;
}

-- the tests on the status of the action
abbrev pub is_succeeded : ActionStatus → Bool
is_succeeded ActionStatus.succeeded = true
is_succeeded _ = false

abbrev pub is_scheduled : ActionStatus → Bool
is_scheduled ActionStatus.scheduled = true
is_scheduled _ = false

abbrev pub is_executing : ActionStatus → Bool
is_executing ActionStatus.executing = true
is_executing _ = false

-- `{ALLOWED, SCHEDULED, FAILED}`
abbrev pub may_start : ActionStatus → Bool
may_start ActionStatus.allowed = true
may_start ActionStatus.scheduled = true
may_start ActionStatus.failed = true
may_start _ = false

-- `t is not None and t > at`, and `t is not None and at < t + timeout`
abbrev pub lies_after : Option Datetime → Datetime → Bool
lies_after none at = false
lies_after (some t) at = before at t

abbrev pub claimed_within : Option Datetime → ℤ → Datetime → Bool
claimed_within none timeout at = false
claimed_within (some t) timeout at = before at (shift t timeout)
