-- ===== src/Approvals/Decisions.antt =====
-- The operations on approvals over the tables: a request, the decision, the expiry of pending ones.
-- Rows of a query are locked until the end of its transaction, so operations follow one another.
mod Changes
pub use Changes.*
use Prim.Native.String as Str
use reclaim_rail.Base.{
  ℕ, ◌+◌, ◌==◌, any, ℤ, pos, leb_ℤ, ltb_ℤ, eqb_ℤ, String, Bool, true, false, not, ◌&&◌, Option,
  none, some, [], ◌∷◌, ◌++◌, nonempty, Result, ok, err, Exn, integrity_error, value_error,
  lookup_error, conflict_error, state_error, present, ◌>>=◌, ◌>>◌, raise_if, Datetime, before,
  not_after, shift, require_timezone_aware, decimal, show_ℤ, if◌then◌else◌,
}
use reclaim_rail.Base.Rows.{find, put}
use reclaim_rail.Recovery.Models.{CaseStatus}
use reclaim_rail.Audit.Values.{text, int, end, field, mapping}
use reclaim_rail.Audit.Chain.{Platform}
use reclaim_rail.Audit.Store.{
  policy, system, operator, AppendRequest, make_append_request, append_audit_event,
}
use reclaim_rail.Storage.Events.{record_event}
use reclaim_rail.Storage.{
  ActionStatus, ApprovalStatus, pending, approved, rejected, expired, RecoveryCase, RecoveryAction,
  RecoveryApproval, RecoveryTables, audit_of, approval_status_value, action_status_value,
}
use reclaim_rail.Approvals.{
  ApprovalRequirement, ApprovalDecision, approve, reject, Disposition, decided, already_decided,
  expired_now, bounded_text, approval_is, awaits_approval, optional_int, optional_eq,
  primary_reason,
}

module _ (platform : Platform) where
  -- the audit events of the three operations
  abbrev pub requested_event : RecoveryApproval → RecoveryAction → AppendRequest
  requested_event approval action = record {
    event_type = "approval.requested";
    actor_type = policy;
    event_data = field (some "approval_id") (text (platform.uuid_text approval.id)) (
        field (some "request_reason") (text approval.request_reason) (
          field (some "amount_minor") (int approval.amount_minor) (
            field (some "currency") (text approval.currency) (
              field (some "threshold_minor") (optional_int approval.threshold_minor) (
                field (some "request_context") (mapping approval.request_context) (
                  field (some "expires_at") (text (platform.isoformat approval.expires_at))
                    end))))));
    occurred_at = approval.requested_at;
    agent_run_id = some action.agent_run_id;
    recovery_action_id = some action.id;
  }

  -- of the graph as it is after the change
  abbrev pub expired_event : Graph → Datetime → AppendRequest
  expired_event g at = record {
    event_type = "approval.expired";
    actor_type = system;
    event_data = field (some "approval_id") (text (platform.uuid_text g.approval.id)) (
        field (some "approval_version") (int (pos g.approval.version))
          (field (some "expires_at") (text (platform.isoformat g.approval.expires_at)) end));
    occurred_at = at;
    agent_run_id = some g.action.agent_run_id;
    recovery_action_id = some g.action.id;
  }

  abbrev pub decided_event : Graph → ApprovalDecision → String → String → Datetime → AppendRequest
  decided_event g decision reviewer reason at = record {
    event_type = Str.◌++◌ "approval." (approval_status_value (target_status decision));
    actor_type = operator;
    event_data = field (some "approval_id") (text (platform.uuid_text g.approval.id)) (
        field (some "approval_version") (int (pos g.approval.version)) (
          field (some "reviewer_id") (text reviewer) (
            field (some "decision_reason") (text reason) (
              field (some "request_reason") (text g.approval.request_reason)
                (field (some "request_context") (mapping g.approval.request_context) end)))));
    occurred_at = at;
    agent_run_id = some g.action.agent_run_id;
    recovery_action_id = some g.action.id;
  }

  -- the row that a request adds; the database refuses a second one for the action
  abbrev pub new_approval :
      ℕ
      → RecoveryCase
      → RecoveryAction
      → ApprovalRequirement
      → ℤ
      → String
      → Datetime
      → ℤ
      → RecoveryApproval
  new_approval id recovery_case action requirement amount currency at window = record {
    id = id;
    recovery_case_id = recovery_case.id;
    recovery_action_id = action.id;
    status = pending;
    request_reason = primary_reason requirement.reasons;
    amount_minor = amount;
    currency = currency;
    threshold_minor = requirement.threshold_minor;
    request_context = requirement.context;
    requested_at = at;
    expires_at = shift at window;
    decided_at = none;
    decided_by = none;
    decision_reason = none;
    version = 0;
  }

  -- `create_recovery_approval_request`, with the identifier that `uuid4` answers
  unfoldable pub create_request :
      RecoveryTables
      → ℕ
      → RecoveryCase
      → RecoveryAction
      → ApprovalRequirement
      → Datetime
      → ℤ
      → Result (RecoveryApproval × RecoveryTables)
  create_request db id recovery_case action requirement at window = do
    require_timezone_aware at (value_error "Approval request time must be timezone-aware")
    raise_if (leb_ℤ window (pos 0)) (value_error "Approval window must be positive")
    raise_if (not (nonempty requirement.reasons)) (
        state_error (
          Str.◌++◌ "Recovery action "
            (Str.◌++◌ (platform.uuid_text action.id) " does not require approval")))
    let unpriced = state_error (
        Str.◌++◌ "Recovery action "
          (Str.◌++◌ (platform.uuid_text action.id) " has no monetary approval input"))
    amount ← present action.amount_minor unpriced
    currency ← present action.currency unpriced
    let approval = new_approval id recovery_case action requirement amount currency at window
    let held = record action { status = ActionStatus.approval_required }
    raise_if (any (λ a. a.recovery_action_id == action.id) db.approvals)
        (integrity_error "uq_recovery_approvals_action")
    db' ←
        record_event platform
          (record db {
            actions = put (λ a. a.id) held db.actions;
            approvals = db.approvals ++ (approval ∷ []);
          })
          recovery_case.id (requested_event approval action)
    ok (approval, db')

  -- `_load_approval_graph_for_update`
  unfoldable pub load_graph : RecoveryTables → ℕ → Result Graph
  load_graph db id = do
    let incomplete = state_error (
        Str.◌++◌ "Recovery approval "
          (Str.◌++◌ (platform.uuid_text id) " has incomplete execution state"))
    approval ← present (find (λ a. a.id) id db.approvals) (
        lookup_error
          (Str.◌++◌ "Recovery approval " (Str.◌++◌ (platform.uuid_text id) " does not exist")))
    action ← present (find (λ a. a.id) approval.recovery_action_id db.actions) incomplete
    recovery_case ← present (find (λ c. c.id) approval.recovery_case_id db.cases) incomplete
    ok (record { approval = approval; action = action; recovery_case = recovery_case })

  -- `_expire_approval`
  unfoldable pub expire_approval :
      RecoveryTables → Graph → Datetime → Result (Graph × RecoveryTables)
  expire_approval db g at = do
    let after = expire_graph at g
    db' ← record_event platform (save after db) g.recovery_case.id (expired_event after at)
    ok (after, db')

  -- the answer to a decision that was made before, with the same evidence
  abbrev pub decided_before :
      RecoveryTables → Graph → String → String → Result (Graph × Disposition × RecoveryTables)
  decided_before db g reviewer reason =
      if optional_eq g.approval.decided_by reviewer && optional_eq g.approval.decision_reason reason
      then ok (g, already_decided, db)
      else err (conflict_error "Approval was already decided with different evidence")

  -- the two ends of a decision
  unfoldable pub expire_late :
      RecoveryTables → Graph → Datetime → Result (Graph × Disposition × RecoveryTables)
  expire_late db g at = do (after, db') ← expire_approval db g at; ok (after, expired_now, db')

  unfoldable pub write_decision :
      RecoveryTables
      → Graph
      → ApprovalDecision
      → String
      → String
      → Datetime
      → Result (Graph × Disposition × RecoveryTables)
  write_decision db g decision reviewer reason at = do
    let after = decide_graph decision reviewer reason at g
    db' ←
        record_event platform (save after db) g.recovery_case.id
          (decided_event after decision reviewer reason at)
    ok (after, decided, db')

  -- `decide_recovery_approval` after the inputs and the rows are there
  unfoldable pub decide_loaded :
      RecoveryTables
      → Graph
      → ApprovalDecision
      → String
      → String
      → ℤ
      → Datetime
      → Result (Graph × Disposition × RecoveryTables)
  decide_loaded db g decision reviewer reason expected_version at = do
    raise_if (not (approval_is g.approval.status pending)) (
        conflict_error
          (Str.◌++◌ "Approval cannot be decided from " (approval_status_value g.approval.status)))
    raise_if (not (eqb_ℤ (pos g.approval.version) expected_version)) (
        conflict_error (
          Str.◌++◌ "Approval version changed from "
            (Str.◌++◌ (show_ℤ expected_version) (Str.◌++◌ " to " (decimal g.approval.version)))))
    if not_after g.approval.expires_at at then expire_late db g at else do
      raise_if (not (awaits_approval g.action.status)) (
          state_error (
            Str.◌++◌ "Recovery action cannot be approved from "
              (action_status_value g.action.status)))
      write_decision db g decision reviewer reason at

  -- `decide_recovery_approval`
  unfoldable pub decide_approval :
      RecoveryTables
      → ℕ
      → ApprovalDecision
      → String
      → String
      → ℤ
      → Datetime
      → Result (Graph × Disposition × RecoveryTables)
  decide_approval db id decision reviewer_id reason expected_version at = do
    require_timezone_aware at (value_error "Approval decision time must be timezone-aware")
    raise_if (ltb_ℤ expected_version (pos 0))
        (value_error "Expected approval version cannot be negative")
    normalized_reviewer ← bounded_text reviewer_id "Reviewer ID" 128
    normalized_reason ← bounded_text reason "Decision reason" 1000
    g ← load_graph db id
    if approval_is g.approval.status (target_status decision)
        then decided_before db g normalized_reviewer normalized_reason
        else decide_loaded db g decision normalized_reviewer normalized_reason expected_version at
