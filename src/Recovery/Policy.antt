-- ===== src/Recovery/Policy.antt =====
-- apps/api/app/domain/recovery/policy.py: the decision of the deterministic policy over a proposal.
pub mod Decided
pub mod Allowed
pub mod Checks
pub mod Agreement
pub mod Texts
use Prim.Native.String as Str
use reclaim_rail.Base.{
  ℤ, pos, leb_ℤ, ltb_ℤ, eqb_ℤ, String, Bool, true, false, not, ◌&&◌, ◌||◌, Option, none, some,
  is_some, List, [], ◌∷◌, ◌++◌, map, nonempty, any, from_keys, join, Result, ok, err, value_error,
  ◌>>=◌, ◌>>◌, raise_if, Datetime, before, shift, require_timezone_aware, str_eq, if◌then◌else◌,
}
use reclaim_rail.Payments.State.{stops_recovery}
use reclaim_rail.Incidents.{IncidentSeverity, low, medium, high, critical, severity_value}
use reclaim_rail.Recovery.Models.{
  CaseSnapshot, CaseStatus, recovered, exhausted, cancelled, ActionType, create_payment_link,
  ActionProposal, PolicyOutcome, allow, block, escalate, stop, Guardrail, guardrail_value,
  PolicyDecision, make_policy_decision, is_allow, is_escalated, is_link, is_stop, is_escalation,
  contacts_customer, send_recovery_message, offer_alternate_method, payment_already_completed,
  late_authorization_detected, case_terminal, case_already_escalated, max_attempts_reached,
  quiet_period_active, incident_circuit_breaker, duplicate_payment_link, contact_consent_missing,
  amount_mismatch, currency_mismatch, automatic_amount_limit, agent_requested_escalation,
  agent_requested_stop,
}

-- `status in TERMINAL_CASE_STATUSES`
abbrev pub is_terminal : CaseStatus → Bool
is_terminal recovered = true
is_terminal exhausted = true
is_terminal cancelled = true
is_terminal _ = false

-- `action in AUTOMATED_INTERVENTION_ACTIONS`
abbrev pub is_automated : ActionType → Bool
is_automated create_payment_link = true
is_automated send_recovery_message = true
is_automated offer_alternate_method = true
is_automated _ = false

pub record RecoveryPolicy : Type 0 where
  pub maximum_recovery_attempts : ℤ
  pub customer_quiet_period : ℤ
  pub automatic_amount_limit_minor : ℤ
  pub circuit_breaker_severities : List IncidentSeverity

-- `RecoveryPolicy.__post_init__`
unfoldable pub make_recovery_policy : RecoveryPolicy → Result RecoveryPolicy
make_recovery_policy p = do
  raise_if (ltb_ℤ p.maximum_recovery_attempts (pos 1))
      (value_error "Maximum recovery attempts must be positive")
  raise_if (ltb_ℤ p.customer_quiet_period (pos 0))
      (value_error "Customer quiet period cannot be negative")
  raise_if (ltb_ℤ p.automatic_amount_limit_minor (pos 1))
      (value_error "Automatic amount limit must be positive")
  raise_if (not (nonempty p.circuit_breaker_severities))
      (value_error "Circuit breaker must include at least one severity")
  ok p

-- three attempts, four hours, 50,000 rupees, high or critical incidents
abbrev pub default_recovery_policy : RecoveryPolicy
default_recovery_policy = record {
  maximum_recovery_attempts = pos 3;
  customer_quiet_period = pos 14_400_000_000;
  automatic_amount_limit_minor = pos 5_000_000;
  circuit_breaker_severities = high ∷ critical ∷ [];
}

-- `severity in policy.circuit_breaker_severities`
abbrev pub same_severity : IncidentSeverity → IncidentSeverity → Bool
same_severity low low = true
same_severity medium medium = true
same_severity high high = true
same_severity critical critical = true
same_severity _ _ = false

abbrev pub breaks_circuit : List IncidentSeverity → Option IncidentSeverity → Bool
breaks_circuit severities none = false
breaks_circuit severities (some s) = any (same_severity s) severities

-- `amount != case.amount_minor` and `currency != case.currency`
abbrev pub differs_amount : Option ℤ → ℤ → Bool
differs_amount none amount = true
differs_amount (some a) amount = not (eqb_ℤ a amount)

abbrev pub differs_currency : Option String → String → Bool
differs_currency none currency = true
differs_currency (some c) currency = not (str_eq c currency)

-- `amount is not None and amount > limit`
abbrev pub exceeds : Option ℤ → ℤ → Bool
exceeds none limit = false
exceeds (some a) limit = ltb_ℤ limit a

-- `last is not None and evaluated_at < last + quiet_period`
abbrev pub in_quiet_period : Option Datetime → ℤ → Datetime → Bool
in_quiet_period none quiet evaluated_at = false
in_quiet_period (some last) quiet evaluated_at = before evaluated_at (shift last quiet)

-- `if c: guardrails.append(g)`
abbrev pub guard : Bool → Guardrail → List Guardrail
guard true g = g ∷ []
guard false g = []

-- `tuple(dict.fromkeys(guardrails))`
abbrev pub ordered_unique_guardrails : List Guardrail → List Guardrail
ordered_unique_guardrails = from_keys (λ a b. str_eq (guardrail_value a) (guardrail_value b))

abbrev outcome_label : PolicyOutcome → String
outcome_label allow = ""
outcome_label block = "Blocked"
outcome_label escalate = "Escalated"
outcome_label stop = "Stopped"

abbrev pub explanation_of : PolicyOutcome → List Guardrail → String
explanation_of allow guardrails = "All deterministic recovery guardrails passed"
explanation_of outcome guardrails =
    Str.◌++◌ (outcome_label outcome)
      (Str.◌++◌ " by deterministic guardrails: " (join ", " (map guardrail_value guardrails)))

unfoldable pub build_decision : PolicyOutcome → List Guardrail → Datetime → Result PolicyDecision
unfolding make_policy_decision
build_decision outcome guardrails evaluated_at =
    let ordered = ordered_unique_guardrails guardrails in
    make_policy_decision (record {
      outcome = outcome;
      guardrails = ordered;
      explanation = explanation_of outcome ordered;
      evaluated_at = evaluated_at;
    })

-- the three lists that `evaluate_recovery_proposal` collects
unfoldable pub stop_guardrails : CaseSnapshot → List Guardrail
stop_guardrails c =
    guard (is_terminal c.status) case_terminal
    ++ (guard (stops_recovery c.payment_state) payment_already_completed
        ++ guard (is_some c.late_authorization_detected_at) late_authorization_detected)

unfoldable pub block_guardrails :
    RecoveryPolicy → CaseSnapshot → ActionProposal → Datetime → List Guardrail
block_guardrails policy c p evaluated_at =
    guard
      (is_automated p.action_type
        && breaks_circuit policy.circuit_breaker_severities c.active_incident_severity)
      incident_circuit_breaker
    ++ (guard (is_link p.action_type && is_some c.active_payment_link_id) duplicate_payment_link
        ++ (guard (is_link p.action_type && differs_amount p.amount_minor c.amount_minor)
              amount_mismatch
            ++ (guard (is_link p.action_type && differs_currency p.currency c.currency)
                  currency_mismatch
                ++ (guard (contacts_customer p.action_type && not c.customer_contact_allowed)
                      contact_consent_missing
                    ++ guard
                        (contacts_customer p.action_type
                          && in_quiet_period c.last_customer_contact_at policy.customer_quiet_period
                              evaluated_at)
                        quiet_period_active))))

unfoldable pub escalate_guardrails : RecoveryPolicy → ActionProposal → List Guardrail
escalate_guardrails policy p =
    guard (is_link p.action_type && exceeds p.amount_minor policy.automatic_amount_limit_minor)
      automatic_amount_limit

-- the choice of the outcome, with its guardrails
unfoldable pub verdict :
    RecoveryPolicy → CaseSnapshot → ActionProposal → Datetime → PolicyOutcome × List Guardrail
verdict policy c p evaluated_at =
    let stops = stop_guardrails c in
    let blocks = block_guardrails policy c p evaluated_at in
    let escalates = escalate_guardrails policy p in
    if nonempty stops
    then (stop, stops)
    else if is_stop p.action_type
    then (stop, agent_requested_stop ∷ [])
    else if is_escalated c.status
    then (escalate, case_already_escalated ∷ [])
    else if is_escalation p.action_type
    then (escalate, agent_requested_escalation ∷ [])
    else if leb_ℤ policy.maximum_recovery_attempts c.recovery_attempt_count
    then (stop, max_attempts_reached ∷ [])
    else if nonempty blocks
    then (block, blocks ++ escalates)
    else if nonempty escalates
    then (escalate, escalates)
    else (allow, [])

unfoldable pub evaluate_recovery_proposal :
    RecoveryPolicy → CaseSnapshot → ActionProposal → Datetime → Result PolicyDecision
evaluate_recovery_proposal policy c p evaluated_at = do
  require_timezone_aware evaluated_at (value_error "Policy evaluation time must be timezone-aware")
  build_decision (verdict policy c p evaluated_at).0 (verdict policy c p evaluated_at).1
      evaluated_at
