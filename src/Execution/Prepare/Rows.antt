-- ===== src/Execution/Prepare/Rows.antt =====
-- The rows and the events that a preparation writes.
use Prim.Native.String as Str
use reclaim_rail.Base.{
  ℕ, ◌+◌, ◌/◌, ℤ, pos, pos_part, String, Bool, false, not, Option, none, some, List, [], ◌∷◌, ◌++◌,
  map, filter, Datetime, shift, decimal, str_eq, if◌then◌else◌,
}
use reclaim_rail.Base.Rows.{put}
use reclaim_rail.Incidents.{severity_value}
use reclaim_rail.Incidents.Active.{IncidentContext}
use reclaim_rail.Recovery.Models.{
  CaseStatus, Guardrail, PolicyOutcome, PolicyDecision, guardrail_value, outcome_value,
  action_type_value,
}
use reclaim_rail.Recovery.Policy.Checks.{PolicyCheck}
use reclaim_rail.Recovery.Policy.Texts.{as_dict, check_fields}
use reclaim_rail.Audit.Values.{
  Value, null, text, int, mapping, sequence, Fields, end, field, Items, nil, cons,
}
use reclaim_rail.Audit.Chain.{Platform}
use reclaim_rail.Audit.Store.{policy, worker, AppendRequest}
use reclaim_rail.Links.{LinkRequest}
use reclaim_rail.Storage.{ActionStatus, RecoveryCase, RecoveryAction, RecoveryTables}
use reclaim_rail.Execution.{policy_status}

-- `check.get("code") == code`
abbrev pub is_text : String → Value → Bool
is_text code (text s) = str_eq s code
is_text code _ = false

abbrev pub has_code : String → Fields → Bool
has_code code end = false
has_code code (field none v rest) = has_code code rest
has_code code (field (some key) v rest) =
    let later = has_code code rest in if str_eq key "code" then is_text code v else later

abbrev pub guardrails_value : List Guardrail → Items
guardrails_value [] = nil
guardrails_value (g ∷ gs) = cons (text (guardrail_value g)) (guardrails_value gs)

abbrev pub checks_value : List Fields → Items
checks_value [] = nil
checks_value (c ∷ cs) = cons (mapping c) (checks_value cs)

-- `executed_at + payment_link_lifetime` in hours, and the check that is appended
abbrev pub whole_hours : ℤ → ℕ
whole_hours lifetime = pos_part lifetime / 3_600_000_000

module _ (platform : Platform) where
  abbrev pub expiry_check : ℤ → Datetime → Fields
  expiry_check lifetime at =
      check_fields "payment_link_expiry_window" "Recovery payment-link expiry"
        (Str.◌++◌ (decimal (whole_hours lifetime))
          (Str.◌++◌ " hours; expires " (platform.isoformat (shift at lifetime))))
        "Recovery payment links use the configured bounded expiry window" "passed"

  -- the action with the policy's columns, which both branches write
  abbrev pub judge :
      RecoveryAction → PolicyDecision → List PolicyCheck → ℤ → Datetime → RecoveryAction
  judge a decision checks lifetime at = record a {
    policy_outcome = decision.outcome;
    policy_guardrails = decision.guardrails;
    policy_check_results =
        filter (λ c. not (has_code "payment_link_expiry_window" c))
          (map (as_dict platform.isoformat) checks
            ++ filter (has_code "human_approval_boundary") a.policy_check_results)
        ++ (expiry_check lifetime at ∷ []);
    policy_explanation = decision.explanation;
    policy_evaluated_at = decision.evaluated_at;
  }

  abbrev pub incident_value : Option IncidentContext → Value
  incident_value none = null
  incident_value (some i) = mapping (
      field (some "incident_id") (text (platform.uuid_text i.incident_id)) (
        field (some "scope") (text i.scope) (
          field (some "dimension_value") (text i.dimension_value)
            (field (some "severity") (text (severity_value i.severity)) end))))

  abbrev pub denied_event :
      PolicyDecision → RecoveryAction → Option IncidentContext → Datetime → AppendRequest
  denied_event decision a incident at = record {
    event_type = "action.execution.denied";
    actor_type = policy;
    event_data = field (some "action_type") (text (action_type_value a.action_type)) (
        field (some "policy_outcome") (text (outcome_value decision.outcome)) (
          field (some "guardrails") (sequence (guardrails_value decision.guardrails)) (
            field (some "policy_check_results") (sequence (checks_value a.policy_check_results)) (
              field (some "policy_version") (text a.policy_version)
                (field (some "active_incident") (incident_value incident) end)))));
    occurred_at = at;
    agent_run_id = some a.agent_run_id;
    recovery_action_id = some a.id;
  }

  abbrev pub started_event : RecoveryAction → String → LinkRequest → Datetime → AppendRequest
  started_event a reference request at = record {
    event_type = "action.payment_link.started";
    actor_type = worker;
    event_data = field (some "attempt_number") (int (pos a.execution_attempt_count)) (
        field (some "reference_id") (text reference) (
          field (some "amount_minor") (int request.amount_minor)
            (field (some "currency") (text request.currency) end)));
    occurred_at = at;
    agent_run_id = some a.agent_run_id;
    recovery_action_id = some a.id;
  }

  -- the rows of an action and of its case, flushed
  abbrev pub save_pair : RecoveryAction → RecoveryCase → RecoveryTables → RecoveryTables
  save_pair a c db = record db {
    actions = put (λ a. a.id) a db.actions;
    cases = put (λ c. c.id) c db.cases;
  }

  abbrev pub denied_action : PolicyOutcome → Datetime → RecoveryAction → RecoveryAction
  denied_action outcome at a = record a { status = policy_status outcome; completed_at = some at }

  abbrev pub claimed_action : Datetime → RecoveryAction → RecoveryAction
  claimed_action at a = record a {
    status = ActionStatus.executing;
    execution_attempt_count = a.execution_attempt_count + 1;
    started_at = some at;
    completed_at = none;
    last_error = none;
  }

  abbrev pub claimed_case : RecoveryCase → RecoveryCase
  claimed_case c = record c {
    status = CaseStatus.executing;
    next_action_at = none;
    version = c.version + 1;
  }
