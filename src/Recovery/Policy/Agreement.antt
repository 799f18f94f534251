-- ===== src/Recovery/Policy/Agreement.antt =====
-- The checks that are shown agree with the decision that is made.
use reclaim_rail.Base.{
  ◌≡◌, ◌≢◌, ◌↔◌, Bool, true, false, ◌||◌, List, ◌++◌, any, any-append, ok, Datetime, arith,
  nonempty, leb_ℤ,
}
use reclaim_rail.Recovery.Models.{
  CaseSnapshot, ActionProposal, allow, stop_recovery, escalate_human, escalated, PolicyDecision,
}
use reclaim_rail.Recovery.Policy.{
  RecoveryPolicy, evaluate_recovery_proposal, stop_guardrails, block_guardrails,
  escalate_guardrails, verdict,
}
use reclaim_rail.Recovery.Policy.Allowed.{outcome_verdict}
use reclaim_rail.Recovery.Policy.Checks.{
  PolicyCheck, CheckResult, failed, build_recovery_policy_checks, case_checks, incident_checks,
  link_checks, contact_checks,
}

abbrev is_failed : CheckResult → Bool
is_failed failed = true
is_failed _ = false

abbrev pub is_failed_check : PolicyCheck → Bool
is_failed_check k = is_failed k.result

module _ (policy : RecoveryPolicy) (c : CaseSnapshot) (p : ActionProposal) (t : Datetime) where
  case_checks_agree : any is_failed_check (case_checks policy c) ≡ (
      nonempty (stop_guardrails c)
      || leb_ℤ policy.maximum_recovery_attempts c.recovery_attempt_count)
  unfolding case_checks stop_guardrails
  case_checks_agree = ground arith

  action_checks_agree :
      (any is_failed_check (incident_checks policy c p)
        || (any is_failed_check (link_checks policy c p)
            || any is_failed_check (contact_checks policy c p t)))
      ≡ (nonempty (block_guardrails policy c p t) || nonempty (escalate_guardrails policy p))
  unfolding incident_checks link_checks contact_checks block_guardrails escalate_guardrails
  action_checks_agree = ground arith

  module _ (d : PolicyDecision) (evaluated : evaluate_recovery_proposal policy c p t ≡ ok d)
      (checks : List PolicyCheck)
      (described : build_recovery_policy_checks policy c p t ≡ ok checks) where
    checks_listed :
        checks
        ≡ case_checks policy c
          ++ (incident_checks policy c p ++ (link_checks policy c p ++ contact_checks policy c p t))
    unfolding build_recovery_policy_checks
    checks_listed = ground arith

    checks_failed : any is_failed_check checks ≡ (
        nonempty (stop_guardrails c)
        || leb_ℤ policy.maximum_recovery_attempts c.recovery_attempt_count
        || nonempty (block_guardrails policy c p t)
        || nonempty (escalate_guardrails policy p))
    checks_failed =
        let k = case_checks policy c in
        let i = incident_checks policy c p in
        let l = link_checks policy c p in
        let m = contact_checks policy c p t in
        rw checks_listed (
          ground (
            arith,
            any-append is_failed_check k (i ++ (l ++ m)),
            any-append is_failed_check i (l ++ m),
            any-append is_failed_check l m,
            case_checks_agree,
            action_checks_agree,
          ))

    -- When the evaluation and the description of the checks both return, the proposal is
    -- allowed exactly when no described check fails, the proposal neither stops nor escalates,
    -- and the case is not already escalated.
    pub checks-agree : (d.outcome ≡ allow) ↔ (
        (any is_failed_check checks ≡ false)
        × (p.action_type ≢ stop_recovery)
        × (p.action_type ≢ escalate_human)
        × (c.status ≢ escalated))
    unfolding verdict
    checks-agree =
        let o = outcome_verdict policy c p t d evaluated in
        (
          λ h. (
            ground (arith, checks_failed),
            λ e. ground arith,
            λ e. ground arith,
            λ e. ground arith,
          ),
          λ (f, s, e, x). ground (arith, checks_failed),
        )
