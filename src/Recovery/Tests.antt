-- ===== src/Recovery/Tests.antt =====
-- One case with a payment link proposed for it, and one paid link, through the recovery domain.
use reclaim_rail.Base.{
  pos, ◌≤ℤ◌, ◌<ℤ◌, ◌≡◌, ◌≢◌, ◌↔◌, refl, ◌⊎◌, true, false, none, some, List, [], ◌∷◌, any, ok,
  Datetime, ◌++◌, strip, lstrip, rstrip, is_space, upper,
}
use reclaim_rail.Payments.State.{failed}
use reclaim_rail.Incidents.{low}
use reclaim_rail.Recovery.Models.{
  CaseSnapshot, ActionProposal, PolicyDecision, ready, create_payment_link, allow, stop, escalated,
  stop_recovery, escalate_human, late_authorization_detected, make_policy_decision, currency_code,
}
use reclaim_rail.Recovery.Policy.{
  default_recovery_policy, verdict, stop_guardrails, block_guardrails, escalate_guardrails,
  evaluate_recovery_proposal, build_decision,
}
use reclaim_rail.Recovery.Policy.Allowed.{IsOpen, IsFitting, evaluate-allow}
use reclaim_rail.Recovery.Policy.Checks.{
  PolicyCheck, build_recovery_policy_checks, case_checks, incident_checks, link_checks,
  contact_checks,
}
use reclaim_rail.Recovery.Policy.Agreement.{checks-agree, is_failed_check}
use reclaim_rail.Recovery.Outcomes.{
  OutcomeProof, recovered, make_outcome_proof, check_status, check_amounts, net_recovered_minor,
  has_recovered_revenue, direct_payment_link,
}
use reclaim_rail.Recovery.Outcomes.Classifier.{
  ReconciliationInput, paid, make_reconciliation_input, check_link_amounts, classify,
  reconcile_recovery_outcome,
}
use reclaim_rail.Recovery.Outcomes.Classifier as Classifier
use reclaim_rail.Recovery.Outcomes.Money.{proof_amounts}
use reclaim_rail.Recovery.Outcomes.Reconciled.{reconcile-total, reconcile-revenue}

abbrev noon : Datetime
noon = record { instant = pos 43_200_000_000; tz_aware = true }

-- a failed payment of 499 rupees
abbrev open_case : CaseSnapshot
open_case = record {
  case_id = 1;
  payment_attempt_id = 1;
  provider_payment_id = "pay_1";
  payment_state = failed;
  amount_minor = pos 49900;
  currency = "INR";
  payment_method = some "upi";
  status = ready;
  recovery_attempt_count = pos 1;
  customer_contact_allowed = true;
  last_customer_contact_at = none;
  active_payment_link_id = none;
  active_incident_severity = some low;
  late_authorization_detected_at = none;
  recovered_at = none;
}

abbrev late_case : CaseSnapshot
late_case = record open_case { late_authorization_detected_at = some noon }

abbrev link_proposal : ActionProposal
link_proposal = record {
  action_type = create_payment_link;
  reason = "Retry the payment";
  amount_minor = some (pos 49900);
  currency = some "INR";
  channel = none;
  target_payment_method = none;
  execute_after = none;
}

abbrev allowed_link : PolicyDecision
allowed_link = record {
  outcome = allow;
  guardrails = [];
  explanation = "All deterministic recovery guardrails passed";
  evaluated_at = noon;
}

abbrev stopped_link : PolicyDecision
stopped_link = record {
  outcome = stop;
  guardrails = late_authorization_detected ∷ [];
  explanation = "Stopped by deterministic guardrails: late_authorization_detected";
  evaluated_at = noon;
}

evaluate-link :
    evaluate_recovery_proposal default_recovery_policy open_case link_proposal noon
    ≡ ok allowed_link
unfolding evaluate_recovery_proposal verdict stop_guardrails block_guardrails escalate_guardrails
    build_decision make_policy_decision strip lstrip rstrip is_space
evaluate-link = refl

evaluate-late :
    evaluate_recovery_proposal default_recovery_policy late_case link_proposal noon
    ≡ ok stopped_link
unfolding evaluate_recovery_proposal verdict stop_guardrails block_guardrails escalate_guardrails
    build_decision make_policy_decision strip lstrip rstrip is_space
evaluate-late = refl

evaluate-allow_example : (allowed_link.outcome ≡ allow) ↔ (
    IsOpen default_recovery_policy open_case link_proposal noon
    × IsFitting default_recovery_policy open_case link_proposal noon)
evaluate-allow_example =
    evaluate-allow default_recovery_policy open_case link_proposal noon allowed_link evaluate-link

-- the checks of the payment link
abbrev link_case_checks : List PolicyCheck
link_case_checks =
    case_checks default_recovery_policy open_case
    ++ (incident_checks default_recovery_policy open_case link_proposal
        ++ (link_checks default_recovery_policy open_case link_proposal
            ++ contact_checks default_recovery_policy open_case link_proposal noon))

build-link_checks :
    build_recovery_policy_checks default_recovery_policy open_case link_proposal noon
    ≡ ok link_case_checks
unfolding build_recovery_policy_checks
build-link_checks = refl

checks-agree_example : (allowed_link.outcome ≡ allow) ↔ (
    (any is_failed_check link_case_checks ≡ false)
    × (create_payment_link ≢ stop_recovery)
    × (create_payment_link ≢ escalate_human)
    × (ready ≢ escalated))
checks-agree_example =
    checks-agree default_recovery_policy open_case link_proposal noon allowed_link evaluate-link
      link_case_checks build-link_checks

-- a payment link of 499 rupees, paid in full
abbrev raw_input : ReconciliationInput
raw_input = record {
  recovery_case_id = 1;
  payment_attempt_id = 1;
  recovery_action_id = 2;
  provider_payment_id = " pay_1";
  payment_link_id = "plink_1";
  original_amount_minor = pos 49900;
  currency = "inr";
  payment_link_state = paid;
  observed_at = noon;
  evidence_event_ids = "evt_9" ∷ [];
  payment_link_paid_amount_minor = pos 49900;
  payment_link_reversed_minor = pos 0;
  late_authorization_detected_at = none;
}

abbrev paid_input : ReconciliationInput
paid_input = record raw_input { provider_payment_id = "pay_1"; currency = "INR" }

make-paid_input : make_reconciliation_input raw_input ≡ ok paid_input
unfolding make_reconciliation_input check_link_amounts currency_code strip lstrip rstrip is_space
    upper
make-paid_input = refl

abbrev paid_proof : OutcomeProof
paid_proof = record {
  recovery_case_id = 1;
  payment_attempt_id = 1;
  provider_payment_id = "pay_1";
  status = recovered;
  attribution = direct_payment_link;
  occurred_at = noon;
  original_amount_minor = pos 49900;
  currency = "INR";
  recovery_action_id = some 2;
  payment_link_id = some "plink_1";
  provider_outcome_id = none;
  gross_recovered_minor = pos 49900;
  reversed_minor = pos 0;
  duplicate_collection_prevented_minor = pos 0;
  evidence_event_ids = "evt_9" ∷ [];
}

make-paid_proof : make_outcome_proof paid_proof ≡ ok paid_proof
unfolding make_outcome_proof check_amounts check_status currency_code strip lstrip rstrip is_space
    upper
make-paid_proof = refl

proof_amounts_example :
    (pos 0 ≤ℤ paid_proof.reversed_minor)
    × (paid_proof.reversed_minor ≤ℤ paid_proof.gross_recovered_minor)
    × (paid_proof.gross_recovered_minor ≤ℤ paid_proof.original_amount_minor)
    × (pos 0 ≤ℤ paid_proof.duplicate_collection_prevented_minor)
    × (paid_proof.duplicate_collection_prevented_minor ≤ℤ paid_proof.original_amount_minor)
    × (pos 0 ≤ℤ net_recovered_minor paid_proof)
    × (net_recovered_minor paid_proof ≤ℤ paid_proof.original_amount_minor)
proof_amounts_example = proof_amounts paid_proof paid_proof make-paid_proof

reconcile-total_example : reconcile_recovery_outcome paid_input ≡ ok (classify paid_input)
reconcile-total_example = reconcile-total raw_input paid_input make-paid_input

reconcile-paid : reconcile_recovery_outcome paid_input ≡ ok paid_proof
unfolding reconcile_recovery_outcome classify make_outcome_proof check_amounts check_status
    currency_code strip lstrip rstrip is_space upper
reconcile-paid = refl

reconcile-revenue_example : (has_recovered_revenue paid_proof ≡ true) ↔ (
    (paid_input.late_authorization_detected_at ≡ none)
    × ((paid_input.payment_link_state ≡ paid)
        ⊎ (paid_input.payment_link_state ≡ Classifier.reversed)
          × (paid_input.payment_link_reversed_minor <ℤ paid_input.payment_link_paid_amount_minor)))
reconcile-revenue_example =
    reconcile-revenue raw_input paid_input paid_proof make-paid_input reconcile-paid
