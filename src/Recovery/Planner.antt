-- ===== src/Recovery/Planner.antt =====
-- apps/api/app/domain/recovery/planner.py: the deterministic recovery plan.
pub mod Planned
pub mod Total
pub mod Agreed
mod Tests
use Prim.Native.String as Str
use reclaim_rail.Base.{
  show_ℤ, show_bool, ℤ, pos, pos_part, neg_part, leb_ℤ, ltb_ℤ, String, Bool, true, false, not, ◌&&◌,
  ◌||◌, Option, none, some, is_some, List, [], ◌∷◌, ◌++◌, length, take, nonempty, filter_map,
  from_keys, map_ok, Result, ok, value_error, ◌>>=◌, ◌>>◌, raise_if, Datetime, before, shift,
  require_timezone_aware, strip, casefold, decimal, is_empty, str_eq, if◌then◌else◌, leb,
}
use reclaim_rail.Payments.State.{value, stops_recovery}
use reclaim_rail.Incidents.{IncidentSeverity, high, critical, severity_value}
use reclaim_rail.Recovery.Models.{
  CaseSnapshot, Channel, email, sms, whatsapp, ActionType, create_payment_link,
  send_recovery_message, offer_alternate_method, wait, escalate_human, stop_recovery,
  ActionProposal, make_action_proposal, is_escalated, folded, text_or_none,
}
use reclaim_rail.Recovery.Policy.{is_terminal}
use reclaim_rail.Recovery.Plans.{
  PlanDecision, recover, hold, escalate, stop, FailureEvidence, make_failure_evidence,
  PlanningContext, same_channel, folded_method, make_planning_context, PlannerPolicy,
  make_planner_policy, default_planner_policy, RecoveryPlan, visible_code, make_recovery_plan,
}

-- `severity in CIRCUIT_BREAKER_SEVERITIES`
abbrev pub is_degraded : Option IncidentSeverity → Bool
is_degraded (some high) = true
is_degraded (some critical) = true
is_degraded _ = false

-- `if value is not None: evidence.append(f"{label}:{value}")`
abbrev labelled : String → Option String → List String
labelled label none = []
labelled label (some value) = Str.◌++◌ label value ∷ []

abbrev incident_text : Option IncidentSeverity → Option String
incident_text none = none
incident_text (some s) = some (severity_value s)

unfoldable pub build_recovery_evidence_codes : PlanningContext → List String
build_recovery_evidence_codes x =
    Str.◌++◌ "payment_state:" (value x.case.payment_state)
    ∷ Str.◌++◌ "failure_count:" (show_ℤ x.failure.failure_count)
    ∷ Str.◌++◌ "contact_consent:" (show_bool x.case.customer_contact_allowed)
    ∷ (labelled "error_code:" x.failure.error_code
        ++ (labelled "error_reason:" x.failure.error_reason
            ++ (labelled "incident:" (incident_text x.case.active_incident_severity)
                ++ (if is_some x.case.active_payment_link_id
                    then "active_payment_link:true" ∷ []
                    else []))))

-- a proposal with the defaults of its optional arguments
abbrev pub propose : ActionType → String → ActionProposal
propose action_type reason = record {
  action_type = action_type;
  reason = reason;
  amount_minor = none;
  currency = none;
  channel = none;
  target_payment_method = none;
  execute_after = none;
}

-- `_bounded_plan`, with the construction of the proposals that it is given
unfoldable pub bounded_plan :
    PlanDecision
    → String
    → List ActionProposal
    → PlanningContext
    → PlannerPolicy
    → Result RecoveryPlan
unfolding build_recovery_evidence_codes
bounded_plan decision reasoning_summary drafts x policy = do
  proposals ← map_ok make_action_proposal drafts
  make_recovery_plan (record {
    decision = decision;
    reasoning_summary = reasoning_summary;
    proposals = take (pos_part policy.maximum_plan_actions) proposals;
    evidence_codes = build_recovery_evidence_codes x;
    generated_at = x.planned_at;
    planner_version = "deterministic-v1";
  })

-- `channels[0] if channels else None`
abbrev pub preferred_channel : List Channel → Option Channel
preferred_channel [] = none
preferred_channel (c ∷ cs) = some c

-- `next((m for m in methods if m != payment_method), None)`
abbrev pub is_method : Option String → String → Bool
is_method none m = false
is_method (some used) m = str_eq m used

abbrev pub alternate_method : Option String → List String → Option String
alternate_method used [] = none
alternate_method used (m ∷ ms) =
    let rest = alternate_method used ms in if is_method used m then rest else some m

abbrev pub wait_draft : String → PlanningContext → PlannerPolicy → ActionProposal
wait_draft reason x policy = record (propose wait reason) {
  execute_after = some (shift x.planned_at policy.incident_recheck_delay);
}

abbrev pub link_draft : CaseSnapshot → ActionProposal
link_draft case =
    record (propose create_payment_link
      "Create one idempotent payment link for the original amount") {
        amount_minor = some case.amount_minor;
        currency = some case.currency;
      }

-- the message and the offer, where there is consent, a channel and another method
abbrev pub offers : Bool → Option Channel → Option String → List ActionProposal
offers true (some channel) (some method) =
    record (propose offer_alternate_method
      "Offer one alternate payment method after the original failure") {
        channel = some channel;
        target_payment_method = some method;
      }
    ∷ []
offers _ _ _ = []

abbrev pub messages : Bool → Option Channel → String → List ActionProposal
messages true (some channel) reason =
    record (propose send_recovery_message reason) { channel = some channel } ∷ []
messages _ _ reason = []

-- the choice of the plan: its decision, its summary and the drafts of its proposals
unfoldable pub draft_plan :
    PlanningContext → PlannerPolicy → PlanDecision × String × List ActionProposal
draft_plan x policy =
    let case = x.case in
    let channel = preferred_channel x.available_channels in
    let reminders =
      messages case.customer_contact_allowed channel
        "Send the existing recovery link through an approved channel" in
    if is_terminal case.status
      || stops_recovery case.payment_state
      || is_some case.late_authorization_detected_at
    then (
      stop,
      "Payment or recovery case is already terminal; stop intervention",
      propose stop_recovery "Stop recovery because terminal payment evidence is present" ∷ [],
    )
    else if is_escalated case.status
        || leb_ℤ policy.maximum_recovery_attempts case.recovery_attempt_count
        || ltb_ℤ policy.automatic_amount_limit_minor case.amount_minor
    then (
      escalate,
      "Automation boundary reached; require human review",
      propose escalate_human "Escalate because bounded automation limits were reached" ∷ [],
    )
    else if is_degraded case.active_incident_severity
    then (
      hold,
      "Payment rail is degraded; pause customer intervention",
      wait_draft "Wait for the active payment incident to recover" x policy ∷ [],
    )
    else if is_some case.active_payment_link_id
    then (if nonempty reminders
        then (recover, "Reuse the existing payment link and send one bounded reminder", reminders)
        else (
          hold,
          "A payment link exists but no approved contact channel is available",
          wait_draft "Wait for an approved customer recovery channel" x policy ∷ [],
        ))
    else (
      recover,
      "Payment remains failed and is eligible for bounded recovery",
      link_draft case
          ∷ (offers case.customer_contact_allowed channel
                (alternate_method case.payment_method x.alternate_payment_methods)
              ++ messages case.customer_contact_allowed channel
                  "Send one recovery message through an approved channel"),
    )

unfoldable pub build_deterministic_recovery_plan :
    PlanningContext → PlannerPolicy → Result RecoveryPlan
build_deterministic_recovery_plan x policy =
    let (decision, summary, drafts) = draft_plan x policy in
    bounded_plan decision summary drafts x policy
