-- ===== src/Approvals/Decisions/Changes.antt =====
-- The rows that an operation on an approval changes together, before and after it.
use reclaim_rail.Base.{
  ◌+◌, String, Bool, true, false, Option, none, some, Datetime, before, if◌then◌else◌,
}
use reclaim_rail.Base.Rows.{put}
use reclaim_rail.Recovery.Models.{CaseStatus}
use reclaim_rail.Storage.{
  ActionStatus, ApprovalStatus, approved, rejected, expired, RecoveryCase, RecoveryAction,
  RecoveryApproval, RecoveryTables,
}
use reclaim_rail.Approvals.{ApprovalDecision, approve, reject}

-- an approval with the action and the case that it is about
pub record Graph : Type 0 where
  pub approval : RecoveryApproval
  pub action : RecoveryAction
  pub recovery_case : RecoveryCase

-- `RecoveryApprovalDecision` to the status that it aims at
abbrev pub target_status : ApprovalDecision → ApprovalStatus
target_status approve = approved
target_status reject = rejected

abbrev pub awaiting : CaseStatus → Bool
awaiting CaseStatus.awaiting_approval = true
awaiting _ = false

-- the rows of a graph, flushed
abbrev pub save : Graph → RecoveryTables → RecoveryTables
save g db = record db {
  cases = put (λ c. c.id) g.recovery_case db.cases;
  actions = put (λ a. a.id) g.action db.actions;
  approvals = put (λ a. a.id) g.approval db.approvals;
}

-- the times of a scheduled action
abbrev pub later : Option Datetime → Datetime → Option Datetime
later none at = none
later (some t) at = if before at t then some t else none

-- the rows after an approval, with the time that the action waits for
abbrev pub approved_action : RecoveryAction → Option Datetime → RecoveryAction
approved_action a none = record a { status = ActionStatus.allowed }
approved_action a (some t) = record a { status = ActionStatus.scheduled }

abbrev pub wake_up : Option Datetime → Datetime → Option Datetime
wake_up none at = some at
wake_up (some t) at = some t

-- the rows of a graph after the decision
abbrev pub decide_action : ApprovalDecision → Datetime → RecoveryAction → RecoveryAction
decide_action approve at a = approved_action a (later a.execute_after at)
decide_action reject at a = record a { status = ActionStatus.cancelled; completed_at = some at }

abbrev pub decide_case : ApprovalDecision → Datetime → RecoveryAction → RecoveryCase → RecoveryCase
decide_case approve at a c = record c {
  status = CaseStatus.ready;
  next_action_at = wake_up (later a.execute_after at) at;
  version = c.version + 1;
}
decide_case reject at a c = record c {
  status = CaseStatus.cancelled;
  next_action_at = none;
  closed_at = some at;
  close_reason = some "approval_rejected_without_execution";
  version = c.version + 1;
}

abbrev pub decide_graph : ApprovalDecision → String → String → Datetime → Graph → Graph
decide_graph decision reviewer reason at g = record {
  approval = record g.approval {
    status = target_status decision;
    decided_at = some at;
    decided_by = some reviewer;
    decision_reason = some reason;
    version = g.approval.version + 1;
  };
  action = decide_action decision at g.action;
  recovery_case = decide_case decision at g.action g.recovery_case;
}

abbrev pub expire_case : Datetime → RecoveryCase → RecoveryCase
expire_case at c =
    if awaiting c.status
    then record c {
      status = CaseStatus.cancelled;
      next_action_at = none;
      closed_at = some at;
      close_reason = some "approval_expired_without_execution";
      version = c.version + 1;
    }
    else c

abbrev pub expire_graph : Datetime → Graph → Graph
expire_graph at g = record {
  approval = record g.approval {
    status = expired;
    decided_at = some at;
    decided_by = none;
    decision_reason = some "Approval window expired before an operator decision";
    version = g.approval.version + 1;
  };
  action = record g.action { status = ActionStatus.cancelled; completed_at = some at };
  recovery_case = expire_case at g.recovery_case;
}
