-- ===== src/Storage/Checks.antt =====
-- apps/api/app/db/models/recovery.py: the check constraints of an action that relate its columns.
use reclaim_rail.Base.{
  ℤ, pos, ltb_ℤ, Bool, true, false, not, ◌&&◌, ◌||◌, Option, none, some, is_some, nonempty,
  if◌then◌else◌,
}
use reclaim_rail.Recovery.Models.{
  PolicyOutcome, allow, block, escalate, stop, is_allow, is_link, is_wait, contacts_customer,
}
use reclaim_rail.Storage.{ActionStatus, RecoveryAction}

-- `ck_recovery_actions_policy_status`
abbrev pub fits_outcome : PolicyOutcome → ActionStatus → Bool
fits_outcome block ActionStatus.blocked = true
fits_outcome escalate ActionStatus.escalated = true
fits_outcome stop ActionStatus.stopped = true
fits_outcome allow ActionStatus.allowed = true
fits_outcome allow ActionStatus.approval_required = true
fits_outcome allow ActionStatus.scheduled = true
fits_outcome allow ActionStatus.executing = true
fits_outcome allow ActionStatus.succeeded = true
fits_outcome allow ActionStatus.failed = true
fits_outcome allow ActionStatus.cancelled = true
fits_outcome _ _ = false

-- `ck_recovery_actions_completion`
abbrev pub completion_shape : ActionStatus → Bool → Bool → Bool
completion_shape ActionStatus.succeeded completed? error? = completed?
completion_shape ActionStatus.failed completed? error? = completed? && error?
completion_shape _ completed? error? = true

-- `ck_recovery_actions_amount`
abbrev priced : Option ℤ → Bool
priced none = true
priced (some amount) = ltb_ℤ (pos 0) amount

-- `_amount`, `_payment_link_shape`, `_contact_shape` and `_wait_shape`
abbrev pub shape_checks : RecoveryAction → Bool
shape_checks a =
    priced a.amount_minor
    && (not (is_link a.action_type) || (is_some a.amount_minor && is_some a.currency))
    && (not (contacts_customer a.action_type) || is_some a.channel)
    && (not (is_wait a.action_type) || is_some a.execute_after)

-- `_policy_evidence` and `_policy_status`
abbrev pub outcome_checks : PolicyOutcome → Bool → ActionStatus → Bool
outcome_checks o guardrails? status =
    (if is_allow o then not guardrails? else guardrails?) && fits_outcome o status

abbrev pub action_checks : RecoveryAction → Bool
action_checks a =
    shape_checks a
    && (outcome_checks a.policy_outcome (nonempty a.policy_guardrails) a.status
        && completion_shape a.status (is_some a.completed_at) (is_some a.last_error))
