-- ===== src/Storage.antt =====
-- apps/api/app/db/models/recovery.py: the rows of the recovery tables, with the columns that the
-- services read or write, and the check constraints on their lifecycle. Enumerations stand for their
-- texts, and identifiers are numbers.
pub mod Events
pub mod Checks
pub mod Chains
use reclaim_rail.Base.{
  ℕ, ℤ, pos, leb_ℤ, ltb_ℤ, String, Bool, true, not, ◌&&◌, Option, none, some, is_some, List, map,
  Datetime,
}
use reclaim_rail.Audit.Values.{Fields}
use reclaim_rail.Audit.Chain.{ChainEntry}
use reclaim_rail.Audit.Store.{AuditTables}
use reclaim_rail.Recovery.Models.{CaseStatus, ActionType, Channel, PolicyOutcome, Guardrail}

pub data ActionStatus : Type 0 where
  allowed approval_required blocked escalated stopped : ActionStatus
  scheduled executing succeeded failed cancelled : ActionStatus

pub data ApprovalStatus : Type 0 where
  pending approved rejected expired : ApprovalStatus

pub record RecoveryCase : Type 0 where
  pub id : ℕ
  pub payment_attempt_id : ℕ
  pub source_incident_id : Option ℕ
  pub status : CaseStatus
  pub amount_minor : ℤ
  pub currency : String
  pub payment_method : Option String
  pub recovery_attempt_count : ℕ
  pub version : ℕ
  pub customer_contact_allowed : Bool
  pub active_payment_link_id : Option String
  pub last_customer_contact_at : Option Datetime
  pub next_action_at : Option Datetime
  pub late_authorization_detected_at : Option Datetime
  pub opened_at : Datetime
  pub recovered_at : Option Datetime
  pub closed_at : Option Datetime
  pub close_reason : Option String

pub record RecoveryAction : Type 0 where
  pub id : ℕ
  pub recovery_case_id : ℕ
  pub agent_run_id : ℕ
  pub sequence_number : ℕ
  pub idempotency_key : String
  pub action_type : ActionType
  pub status : ActionStatus
  pub proposal_reason : String
  pub amount_minor : Option ℤ
  pub currency : Option String
  pub channel : Option Channel
  pub target_payment_method : Option String
  pub execute_after : Option Datetime
  pub policy_outcome : PolicyOutcome
  pub policy_guardrails : List Guardrail
  pub policy_check_results : List Fields
  pub policy_explanation : String
  pub policy_version : String
  pub policy_evaluated_at : Datetime
  pub execution_attempt_count : ℕ
  pub provider_action_id : Option String
  pub provider_action_status : Option String
  pub provider_action_url : Option String
  pub provider_action_expires_at : Option Datetime
  pub last_error : Option String
  pub started_at : Option Datetime
  pub completed_at : Option Datetime
  pub created_at : Datetime

pub record RecoveryApproval : Type 0 where
  pub id : ℕ
  pub recovery_case_id : ℕ
  pub recovery_action_id : ℕ
  pub status : ApprovalStatus
  pub request_reason : String
  pub amount_minor : ℤ
  pub currency : String
  pub threshold_minor : Option ℤ
  pub request_context : Fields
  pub requested_at : Datetime
  pub expires_at : Datetime
  pub decided_at : Option Datetime
  pub decided_by : Option String
  pub decision_reason : Option String
  pub version : ℕ

pub record RecoveryTables : Type 0 where
  pub cases : List RecoveryCase
  pub actions : List RecoveryAction
  pub approvals : List RecoveryApproval
  pub audit_events : List ChainEntry

-- the part of the tables that the audit trail works on
abbrev pub audit_of : RecoveryTables → AuditTables
audit_of db = record { cases = map (λ c. c.id) db.cases; events = db.audit_events }

-- `ck_recovery_cases_lifecycle`
abbrev closing_shape : CaseStatus → Bool → Bool → Bool
closing_shape CaseStatus.recovered recovered? closed? = recovered? && closed?
closing_shape CaseStatus.exhausted recovered? closed? = not recovered? && closed?
closing_shape CaseStatus.cancelled recovered? closed? = not recovered? && closed?
closing_shape _ recovered? closed? = not recovered? && not closed?

abbrev pub case_lifecycle : RecoveryCase → Bool
case_lifecycle c = closing_shape c.status (is_some c.recovered_at) (is_some c.closed_at)

-- `ck_recovery_approvals_lifecycle`
abbrev decided_shape : ApprovalStatus → Bool → Bool → Bool → Bool
decided_shape pending at? by? reason? = not at? && not by? && not reason?
decided_shape approved at? by? reason? = at? && by? && reason?
decided_shape rejected at? by? reason? = at? && by? && reason?
decided_shape expired at? by? reason? = at? && not by? && reason?

abbrev approval_lifecycle : RecoveryApproval → Bool
approval_lifecycle a =
    decided_shape a.status (is_some a.decided_at) (is_some a.decided_by) (is_some a.decision_reason)

-- `ck_recovery_approvals_threshold` and `_threshold_met`
abbrev threshold_met : Option ℤ → ℤ → Bool
threshold_met none amount = true
threshold_met (some threshold) amount = ltb_ℤ (pos 0) threshold && leb_ℤ threshold amount

-- the check constraints of an approval
abbrev pub approval_checks : RecoveryApproval → Bool
approval_checks a =
    ltb_ℤ (pos 0) a.amount_minor
    && threshold_met a.threshold_minor a.amount_minor
    && ltb_ℤ a.requested_at.instant a.expires_at.instant
    && approval_lifecycle a

-- the texts of the statuses
abbrev pub approval_status_value : ApprovalStatus → String
approval_status_value pending = "pending"
approval_status_value approved = "approved"
approval_status_value rejected = "rejected"
approval_status_value expired = "expired"

abbrev pub action_status_value : ActionStatus → String
action_status_value allowed = "allowed"
action_status_value approval_required = "approval_required"
action_status_value blocked = "blocked"
action_status_value escalated = "escalated"
action_status_value stopped = "stopped"
action_status_value scheduled = "scheduled"
action_status_value executing = "executing"
action_status_value succeeded = "succeeded"
action_status_value failed = "failed"
action_status_value cancelled = "cancelled"
