-- ===== src/Recovery/Planner/Tests.antt =====
-- The plan of one open case, and the policy on its payment link.
use mathlib.Core.List.{Memᴰ}
use reclaim_rail.Base.{
  pos, ◌≡◌, refl, true, none, some, [], ◌∷◌, ok, Datetime, strip, lstrip, rstrip, is_space, upper,
  decimal, casefold,
}
use reclaim_rail.Payments.State.{failed}
use reclaim_rail.Incidents.{low}
use reclaim_rail.Recovery.Models.{
  CaseSnapshot, make_case_snapshot, currency_code, ready, email, ActionProposal,
  make_action_proposal, create_payment_link, offer_alternate_method, send_recovery_message,
  PolicyDecision, allow, make_policy_decision,
}
use reclaim_rail.Recovery.Policy.{
  default_recovery_policy, verdict, stop_guardrails, block_guardrails, escalate_guardrails,
  evaluate_recovery_proposal, build_decision,
}
use reclaim_rail.Recovery.Plans.{
  FailureEvidence, PlanningContext, RecoveryPlan, recover, default_planner_policy,
  make_planning_context, make_planner_policy, make_recovery_plan,
}
use reclaim_rail.Recovery.Planner.{
  build_recovery_evidence_codes, bounded_plan, draft_plan, build_deterministic_recovery_plan,
}
use reclaim_rail.Recovery.Planner.Agreed.{plan_link-allowed}

abbrev noon : Datetime
noon = record { instant = pos 43_200_000_000; tz_aware = true }

abbrev failed_case : CaseSnapshot
failed_case = record {
  case_id = 1;
  payment_attempt_id = 1;
  provider_payment_id = "pay_1";
  payment_state = failed;
  amount_minor = pos 49900;
  currency = "INR";
  payment_method = some "upi";
  status = ready;
  recovery_attempt_count = pos 1;
  customer_contact_allowed = true;
  last_customer_contact_at = none;
  active_payment_link_id = none;
  active_incident_severity = some low;
  late_authorization_detected_at = none;
  recovered_at = none;
}

abbrev failure : FailureEvidence
failure = record {
  error_code = some "gateway_error";
  error_source = none;
  error_step = none;
  error_reason = none;
  failure_count = pos 1;
  first_failed_at = noon;
  last_failed_at = noon;
}

abbrev context : PlanningContext
context = record {
  case = failed_case;
  failure = failure;
  available_channels = email ∷ [];
  alternate_payment_methods = "upi" ∷ "card" ∷ [];
  planned_at = noon;
}

make-failed_case : make_case_snapshot failed_case ≡ ok failed_case
unfolding make_case_snapshot currency_code strip lstrip rstrip is_space upper casefold
make-failed_case = refl

make-context : make_planning_context context ≡ ok context
unfolding make_planning_context strip lstrip rstrip is_space casefold
make-context = refl

make-default : make_planner_policy default_planner_policy ≡ ok default_planner_policy
unfolding make_planner_policy
make-default = refl

abbrev link : ActionProposal
link = record {
  action_type = create_payment_link;
  reason = "Create one idempotent payment link for the original amount";
  amount_minor = some (pos 49900);
  currency = some "INR";
  channel = none;
  target_payment_method = none;
  execute_after = none;
}

abbrev plan : RecoveryPlan
plan = record {
  decision = recover;
  reasoning_summary = "Payment remains failed and is eligible for bounded recovery";
  proposals =
      link
      ∷ record {
        action_type = offer_alternate_method;
        reason = "Offer one alternate payment method after the original failure";
        amount_minor = none;
        currency = none;
        channel = some email;
        target_payment_method = some "card";
        execute_after = none;
      }
      ∷ record {
        action_type = send_recovery_message;
        reason = "Send one recovery message through an approved channel";
        amount_minor = none;
        currency = none;
        channel = some email;
        target_payment_method = none;
        execute_after = none;
      }
      ∷ [];
  evidence_codes =
      "payment_state:failed" ∷ "failure_count:1" ∷ "contact_consent:true"
      ∷ "error_code:gateway_error" ∷ "incident:low" ∷ [];
  generated_at = noon;
  planner_version = "deterministic-v1";
}

build-plan : build_deterministic_recovery_plan context default_planner_policy ≡ ok plan
unfolding build_deterministic_recovery_plan draft_plan bounded_plan make_recovery_plan
    build_recovery_evidence_codes make_action_proposal currency_code strip lstrip rstrip is_space
    upper casefold decimal
build-plan = refl

abbrev allowed_link : PolicyDecision
allowed_link = record {
  outcome = allow;
  guardrails = [];
  explanation = "All deterministic recovery guardrails passed";
  evaluated_at = noon;
}

evaluate-planned_link :
    evaluate_recovery_proposal default_recovery_policy failed_case link noon ≡ ok allowed_link
unfolding evaluate_recovery_proposal verdict stop_guardrails block_guardrails escalate_guardrails
    build_decision make_policy_decision strip lstrip rstrip is_space
evaluate-planned_link = refl

plan_link-allowed_example : allowed_link.outcome ≡ allow
plan_link-allowed_example =
    plan_link-allowed failed_case context default_planner_policy plan link default_recovery_policy
      noon allowed_link make-failed_case build-plan (Memᴰ.head refl) refl refl refl refl
      evaluate-planned_link
