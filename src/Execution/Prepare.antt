-- ===== src/Execution/Prepare.antt =====
-- `prepare_recovery_payment_link_action`: the action is locked, judged again by the policy, and claimed
-- or denied, in one transaction.
mod Rows
pub use Rows.*
use Prim.Native.String as Str
use reclaim_rail.Base.{
  ℕ, ◌+◌, ◌/◌, ℤ, pos, pos_part, leb_ℤ, String, Bool, true, false, not, ◌&&◌, Option, none, some,
  List, [], ◌∷◌, ◌++◌, map, filter, Result, ok, value_error, lookup_error, not_executable_error,
  not_due_error, in_progress_error, ◌>>=◌, ◌>>◌, raise_if, present, Datetime, shift,
  require_timezone_aware, decimal, str_eq, if◌then◌else◌,
}
use reclaim_rail.Base.Rows.{find, put}
use reclaim_rail.Projection.{PaymentAttempt}
use reclaim_rail.Incidents.{severity_value}
use reclaim_rail.Incidents.Active.{IncidentContext, load_active_incident}
use reclaim_rail.Recovery.Models.{
  CaseStatus, Guardrail, PolicyOutcome, allow, PolicyDecision, make_action_proposal, is_link,
  guardrail_value, outcome_value, action_type_value,
}
use reclaim_rail.Recovery.Policy.{default_recovery_policy, evaluate_recovery_proposal}
use reclaim_rail.Recovery.Policy.Checks.{PolicyCheck, build_recovery_policy_checks}
use reclaim_rail.Recovery.Policy.Texts.{as_dict, check_fields}
use reclaim_rail.Audit.Values.{
  Value, null, text, int, mapping, sequence, Fields, end, field, Items, nil, cons,
}
use reclaim_rail.Audit.Chain.{Platform}
use reclaim_rail.Audit.Store.{policy, worker, AppendRequest}
use reclaim_rail.Links.{LinkRequest, make_link_request}
use reclaim_rail.Storage.{
  ActionStatus, RecoveryCase, RecoveryAction, RecoveryTables, action_status_value,
}
use reclaim_rail.Storage.Events.{record_event}
use reclaim_rail.Execution.{
  Preparation, prepared, terminal, already_succeeded, Bounds, Surroundings, reference_of,
  proposal_of, build_snapshot, policy_status, policy_disposition, deny_case, is_succeeded,
  is_scheduled, is_executing, may_start, lies_after, claimed_within,
}

-- the tests on the bounds, and on the status of an action that has not succeeded
abbrev pub check_bounds : Bounds → Datetime → Result (Unit {0})
check_bounds bounds at = do
  require_timezone_aware at (value_error "Recovery action execution time must be timezone-aware")
  raise_if (leb_ℤ bounds.claim_timeout (pos 0))
      (value_error "Action claim timeout must be positive")
  raise_if (not (leb_ℤ (pos 1) bounds.maximum_attempts))
      (value_error "Maximum execution attempts must be positive")
  raise_if (leb_ℤ bounds.link_lifetime (pos 0))
      (value_error "Payment-link lifetime must be positive")

module _ (platform : Platform) where
  abbrev pub about : RecoveryAction → String → String
  about a rest = Str.◌++◌ "Recovery action " (Str.◌++◌ (platform.uuid_text a.id) rest)

  unfoldable pub check_claim : RecoveryAction → Bounds → Datetime → Result (Unit {0})
  check_claim a bounds at = do
    raise_if (is_scheduled a.status && lies_after a.execute_after at)
        (not_due_error (about a " is not due"))
    raise_if (is_executing a.status && claimed_within a.started_at bounds.claim_timeout at)
        (in_progress_error (about a " has an active execution claim"))
    raise_if (not (is_executing a.status) && not (may_start a.status)) (
        not_executable_error
          (about a (Str.◌++◌ " cannot execute from " (action_status_value a.status))))
    raise_if (leb_ℤ bounds.maximum_attempts (pos a.execution_attempt_count))
        (not_executable_error (about a " reached its execution-attempt limit"))

  unfoldable pub deny_action :
      RecoveryTables
      → PolicyDecision
      → RecoveryAction
      → RecoveryCase
      → Option IncidentContext
      → Datetime
      → Result (Preparation × RecoveryTables)
  deny_action db decision a c incident at = do
    let denied = denied_action platform decision.outcome at a
    db' ←
        record_event platform (save_pair platform denied (deny_case decision.outcome at c) db) c.id
          (denied_event platform decision denied incident at)
    ok (
      terminal (record {
        action_id = a.id;
        recovery_case_id = c.id;
        disposition = policy_disposition decision.outcome;
        payment_link = none;
        recovered_existing_link = false;
      }),
      db',
    )

  module _ (uuid_hex : ℕ → String) where
    abbrev pub link_request :
        RecoveryAction → RecoveryCase → PaymentAttempt → ℤ → String → ℤ → Datetime → LinkRequest
    link_request a c p amount currency lifetime at = record {
      amount_minor = amount;
      currency = currency;
      reference_id = reference_of uuid_hex a.id;
      description = Str.◌++◌ "ReclaimRail recovery for payment " p.provider_payment_id;
      expire_by = some (shift at lifetime);
      notes = record {
        recovery_case_id = platform.uuid_text c.id;
        recovery_action_id = platform.uuid_text a.id;
      };
      customer_email = none;
      customer_contact = none;
      notify_email = false;
      notify_sms = false;
    }

    unfoldable pub claim_action :
        RecoveryTables
        → RecoveryAction
        → RecoveryCase
        → PaymentAttempt
        → ℤ
        → Datetime
        → Result (Preparation × RecoveryTables)
    claim_action db a c p lifetime at = do
      let claimed = claimed_action platform at a
      let shapeless = not_executable_error (about a " has an invalid payment-link shape")
      amount ← present claimed.amount_minor shapeless
      currency ← present claimed.currency shapeless
      request ← make_link_request (link_request a c p amount currency lifetime at)
      db' ←
          record_event platform (save_pair platform claimed (claimed_case platform c) db) c.id
            (started_event platform claimed (reference_of uuid_hex a.id) request at)
      ok (
        prepared (record {
          action_id = a.id;
          recovery_case_id = c.id;
          provider_payment_id = p.provider_payment_id;
          customer_contact_allowed = c.customer_contact_allowed;
          attempt_number = claimed.execution_attempt_count;
          reference_id = reference_of uuid_hex a.id;
          request = request;
        }),
        db',
      )

    -- the two ends, by the outcome of the decision
    abbrev pub conclude :
        PolicyOutcome
        → RecoveryTables
        → PolicyDecision
        → RecoveryAction
        → RecoveryCase
        → PaymentAttempt
        → Option IncidentContext
        → ℤ
        → Datetime
        → Result (Preparation × RecoveryTables)
    conclude allow db decision a c p incident lifetime at = claim_action db a c p lifetime at
    conclude _ db decision a c p incident lifetime at = deny_action db decision a c incident at

    module _ (around : Surroundings) where
      -- from the rows of the case and of the payment to the end
      unfoldable pub judge_action :
          RecoveryTables
          → RecoveryAction
          → RecoveryCase
          → PaymentAttempt
          → ℤ
          → Datetime
          → Result (Preparation × RecoveryTables)
      judge_action db a c p lifetime at = do
        let incident =
            load_active_incident around.incidents around.now c.source_incident_id c.currency
              c.payment_method
        snapshot ← build_snapshot c p incident
        proposal ← make_action_proposal (proposal_of a)
        decision ← evaluate_recovery_proposal default_recovery_policy snapshot proposal at
        checks ← build_recovery_policy_checks default_recovery_policy snapshot proposal at
        conclude decision.outcome db decision (judge platform a decision checks lifetime at) c p
            incident lifetime at

      unfoldable pub start_action :
          RecoveryTables
          → RecoveryAction
          → Bounds
          → Datetime
          → Result (Preparation × RecoveryTables)
      start_action db a bounds at = do
        check_claim a bounds at
        c ← present (find (λ c. c.id) a.recovery_case_id db.cases) (
            lookup_error (
              Str.◌++◌ "Recovery case "
                (Str.◌++◌ (platform.uuid_text a.recovery_case_id) " does not exist")))
        p ← present (find (λ p. p.id) c.payment_attempt_id around.attempts) (
            lookup_error (
              Str.◌++◌ "Payment attempt "
                (Str.◌++◌ (platform.uuid_text c.payment_attempt_id) " does not exist")))
        judge_action db a c p bounds.link_lifetime at

      -- an action that has succeeded is not started again
      abbrev pub start_unless_done :
          Bool
          → RecoveryTables
          → RecoveryAction
          → Bounds
          → Datetime
          → Result (Preparation × RecoveryTables)
      start_unless_done false db a bounds at = start_action db a bounds at
      start_unless_done true db a bounds at = ok (
        terminal (record {
          action_id = a.id;
          recovery_case_id = a.recovery_case_id;
          disposition = already_succeeded;
          payment_link = none;
          recovered_existing_link = false;
        }),
        db,
      )

      unfoldable pub prepare_action :
          RecoveryTables → ℕ → Bounds → Datetime → Result (Preparation × RecoveryTables)
      prepare_action db id bounds at = do
        check_bounds bounds at
        a ← present (find (λ a. a.id) id db.actions) (
            lookup_error
              (Str.◌++◌ "Recovery action " (Str.◌++◌ (platform.uuid_text id) " does not exist")))
        raise_if (not (is_link a.action_type))
            (not_executable_error (about a " is not a payment-link action"))
        start_unless_done (is_succeeded a.status) db a bounds at
