-- ===== src/Approvals.antt =====
-- apps/api/app/services/recovery_approval_service.py: requests for a human decision over a payment
-- link, the decisions, and their expiry.
pub mod Decisions
pub mod Queue
pub mod Parts
pub mod Ended
pub mod Decided
pub mod Swept
pub mod Checked
pub mod Requested
mod Tests
use Prim.Native.String as Str
use Prim.Native.String.{count}
use reclaim_rail.Base.{
  ℕ, ◌+◌, ◌==◌, leb, ℤ, pos, leb_ℤ, ltb_ℤ, eqb_ℤ, String, Bool, true, false, not, ◌&&◌, ◌||◌,
  Option, none, some, is_some, List, [], ◌∷◌, nonempty, length, take, filter, map, Result, ok, err,
  value_error, lookup_error, conflict_error, state_error, ◌>>=◌, ◌>>◌, raise_if, Datetime, before,
  not_after, shift, require_timezone_aware, decimal, show_ℤ, collapse, is_empty, str_eq,
  if◌then◌else◌,
}
use reclaim_rail.Base.Rows.{find, put}
use reclaim_rail.Incidents.{IncidentSeverity, severity_value}
use reclaim_rail.Recovery.Models.{CaseStatus, ActionType, is_link}
use reclaim_rail.Recovery.Policy.{default_recovery_policy}
use reclaim_rail.Audit.Values.{
  Value, Fields, null, text, flag, int, sequence, nil, cons, end, field, mapping,
}
use reclaim_rail.Audit.Chain.{Platform}
use reclaim_rail.Audit.Store.{
  AuditActor, policy, system, operator, AppendRequest, make_append_request, append_audit_event,
}
use reclaim_rail.Storage.{
  ActionStatus, ApprovalStatus, pending, approved, rejected, expired, RecoveryCase, RecoveryAction,
  RecoveryApproval, RecoveryTables, audit_of, approval_status_value, action_status_value,
}

pub data ApprovalReason : Type 0 where
  amount_threshold active_incident_uncertainty near_maximum_attempts : ApprovalReason
  partial_recovery provider_state_conflict policy_requires_review : ApprovalReason

abbrev pub reason_value : ApprovalReason → String
reason_value amount_threshold = "amount_threshold"
reason_value active_incident_uncertainty = "active_incident_uncertainty"
reason_value near_maximum_attempts = "near_maximum_attempts"
reason_value partial_recovery = "partial_recovery"
reason_value provider_state_conflict = "provider_state_conflict"
reason_value policy_requires_review = "policy_requires_review"

pub record ApprovalRequirement : Type 0 where
  pub reasons : List ApprovalReason
  pub threshold_minor : Option ℤ
  pub context : Fields

pub data ApprovalDecision : Type 0 where
  approve reject : ApprovalDecision

pub data Disposition : Type 0 where
  decided already_decided expired_now : Disposition

-- `_normalize_required_text` of this file, with the name of the field
unfoldable pub bounded_text : String → String → ℕ → Result String
bounded_text value field_name maximum_length = do
  let normalized = collapse value
  raise_if (is_empty normalized) (value_error (Str.◌++◌ field_name " cannot be empty"))
  raise_if (not (leb (count normalized) maximum_length)) (
      value_error (
        Str.◌++◌ field_name
          (Str.◌++◌ " cannot exceed " (Str.◌++◌ (decimal maximum_length) " characters"))))
  ok normalized

abbrev pub approval_is : ApprovalStatus → ApprovalStatus → Bool
approval_is pending pending = true
approval_is approved approved = true
approval_is rejected rejected = true
approval_is expired expired = true
approval_is _ _ = false

-- `a == b`, for optional texts
abbrev pub optional_eq : Option String → String → Bool
optional_eq none s = false
optional_eq (some t) s = str_eq t s

-- `action.status in {ALLOWED, APPROVAL_REQUIRED}`
abbrev pub may_need_approval : ActionStatus → Bool
may_need_approval ActionStatus.allowed = true
may_need_approval ActionStatus.approval_required = true
may_need_approval _ = false

abbrev pub awaits_approval : ActionStatus → Bool
awaits_approval ActionStatus.approval_required = true
awaits_approval _ = false

abbrev pub optional_text : Option String → Value
optional_text none = null
optional_text (some s) = text s

abbrev pub optional_int : Option ℤ → Value
optional_int none = null
optional_int (some n) = int n

abbrev severity_text : Option IncidentSeverity → Option String
severity_text none = none
severity_text (some s) = some (severity_value s)

-- the parameters of a review that the caller passes besides the action
pub record ReviewContext : Type 0 where
  pub recovery_attempt_count : ℤ
  pub active_incident_severity : Option IncidentSeverity
  pub partial_recovery : Bool
  pub provider_state_conflict : Bool
  pub policy_requires_review : Bool

abbrev reaches : Option ℤ → ℤ → Bool
reaches none threshold = false
reaches (some amount) threshold = leb_ℤ threshold amount

-- the values of the parameters that a caller leaves out
abbrev no_context : ReviewContext
no_context = record {
  recovery_attempt_count = pos 0;
  active_incident_severity = none;
  partial_recovery = false;
  provider_state_conflict = false;
  policy_requires_review = false;
}

-- the requirement of an amount at the threshold
abbrev pub amount_requirement : ℤ → ReviewContext → ApprovalRequirement
amount_requirement threshold x = record {
  reasons = amount_threshold ∷ [];
  threshold_minor = some threshold;
  context =
      field (some "reason_codes") (sequence (cons (text (reason_value amount_threshold)) nil)) (
        field (some "recovery_attempt_count") (int x.recovery_attempt_count) (
          field (some "maximum_recovery_attempts")
            (int default_recovery_policy.maximum_recovery_attempts)
            (field (some "active_incident_severity")
              (optional_text (severity_text x.active_incident_severity))
              (field (some "partial_recovery") (flag x.partial_recovery) (
                field (some "provider_state_conflict") (flag x.provider_state_conflict)
                  (field (some "policy_requires_review") (flag x.policy_requires_review) end))))));
}

-- `build_recovery_approval_requirement`
unfoldable pub build_approval_requirement :
    RecoveryAction → ℤ → ReviewContext → Result (Option ApprovalRequirement)
build_approval_requirement action threshold x = do
  raise_if (ltb_ℤ threshold (pos 1)) (value_error "Approval threshold must be positive")
  raise_if (ltb_ℤ x.recovery_attempt_count (pos 0))
      (value_error "Recovery attempt count cannot be negative")
  ok (
      if not (may_need_approval action.status)
        || not (is_link action.action_type)
        || not (reaches action.amount_minor threshold)
      then none
      else some (amount_requirement threshold x))

-- `action_requires_human_approval`
unfoldable pub action_requires_approval : RecoveryAction → ℤ → Result Bool
action_requires_approval action threshold = do
  requirement ← build_approval_requirement action threshold no_context
  ok (is_some requirement)

-- `primary_reason`; the caller has seen that there is one
abbrev pub primary_reason : List ApprovalReason → String
primary_reason [] = ""
primary_reason (r ∷ rs) = reason_value r
