-- ===== src/Recovery/Policy/Checks.antt =====
-- `build_recovery_policy_checks` of apps/api/app/domain/recovery/policy.py: the description of every
-- check for one proposal. The values that the display formats are kept as values.
use reclaim_rail.Base.{
  ℤ, leb_ℤ, ltb_ℤ, eqb_ℤ, String, Bool, true, false, not, Option, none, some, is_some, List, [],
  ◌∷◌, ◌++◌, Result, ok, value_error, ◌>>◌, Datetime, before, not_after, shift,
  require_timezone_aware, str_eq, if◌then◌else◌,
}
use reclaim_rail.Payments.State.{PaymentState, stops_recovery}
use reclaim_rail.Incidents.{IncidentSeverity}
use reclaim_rail.Recovery.Models.{
  CaseSnapshot, CaseStatus, ActionProposal, is_link, contacts_customer,
}
use reclaim_rail.Recovery.Policy.{RecoveryPolicy, is_terminal, is_automated, breaks_circuit}

-- `passed`, `failed` and `not_applicable`
pub data CheckResult : Type 0 where
  passed failed not_applicable : CheckResult

-- what a check shows, before it is formatted
pub data Shown : Type 0 where
  text : String → Shown
  status_shown : CaseStatus → Shown
  payment_shown : PaymentState → Shown
  attempts_shown : ℤ → ℤ → Shown
  maximum_shown : ℤ → Shown
  incident_shown : IncidentSeverity → Shown
  amounts_shown : Option ℤ → ℤ → Shown
  limit_shown : Option ℤ → ℤ → Shown
  currencies_shown : Option String → String → Shown
  active_until_shown : Datetime → Shown

pub record PolicyCheck : Type 0 where
  pub code : String
  pub label : String
  pub actual_value : Shown
  pub rule : Shown
  pub result : CheckResult

abbrev append : String → String → Shown → Shown → Bool → PolicyCheck
append code label actual_value rule ok? = record {
  code = code;
  label = label;
  actual_value = actual_value;
  rule = rule;
  result = if ok? then passed else failed;
}

abbrev inapplicable : String → String → String → PolicyCheck
inapplicable code label rule = record {
  code = code;
  label = label;
  actual_value = text "Not applicable to this action";
  rule = text rule;
  result = not_applicable;
}

abbrev show_incident : Option IncidentSeverity → Shown
show_incident none = text "No active incident"
show_incident (some s) = incident_shown s

-- `amount is not None and amount <= limit`
abbrev pub within_limit : Option ℤ → ℤ → Bool
within_limit none limit = false
within_limit (some a) limit = leb_ℤ a limit

-- `amount == case.amount_minor` and `currency == case.currency`
abbrev pub equals_amount : Option ℤ → ℤ → Bool
equals_amount none amount = false
equals_amount (some a) amount = eqb_ℤ a amount

abbrev pub equals_currency : Option String → String → Bool
equals_currency none currency = false
equals_currency (some s) currency = str_eq s currency

-- `last_customer_contact_at + customer_quiet_period`, if there was a contact
abbrev pub quiet_until : Option Datetime → ℤ → Option Datetime
quiet_until none quiet = none
quiet_until (some last) quiet = some (shift last quiet)

-- `quiet_until is None or evaluated_at >= quiet_until`
abbrev pub quiet_elapsed : Option Datetime → Datetime → Bool
quiet_elapsed none evaluated_at = true
quiet_elapsed (some until) evaluated_at = not_after until evaluated_at

abbrev show_quiet : Option Datetime → Datetime → Shown
show_quiet none evaluated_at = text "No previous customer contact"
show_quiet (some until) evaluated_at =
    if before evaluated_at until then active_until_shown until else text "Elapsed"

-- the four checks of the case
unfoldable pub case_checks : RecoveryPolicy → CaseSnapshot → List PolicyCheck
case_checks policy c =
    append "case_not_terminal" "Case remains recoverable" (status_shown c.status)
      (text "Terminal or cancelled cases stop recovery") (not (is_terminal c.status))
    ∷ append "payment_not_completed" "Original payment is not completed"
        (payment_shown c.payment_state) (text "Completed payment evidence stops recovery")
        (not (stops_recovery c.payment_state))
    ∷ append "late_authorization_absent" "No late authorization detected"
        (text (if is_some c.late_authorization_detected_at then "Detected" else "Not detected"))
        (text "Late authorization stops unsafe recovery")
        (not (is_some c.late_authorization_detected_at))
    ∷ append "attempt_limit" "Recovery attempt limit"
        (attempts_shown c.recovery_attempt_count policy.maximum_recovery_attempts)
        (maximum_shown policy.maximum_recovery_attempts)
        (ltb_ℤ c.recovery_attempt_count policy.maximum_recovery_attempts)
    ∷ []

unfoldable pub incident_checks : RecoveryPolicy → CaseSnapshot → ActionProposal → List PolicyCheck
incident_checks policy c p =
    (if is_automated p.action_type
      then append "incident_circuit_breaker" "Payment-rail incident circuit breaker"
          (show_incident c.active_incident_severity)
          (text "High or critical rail incidents block automated recovery")
          (not (breaks_circuit policy.circuit_breaker_severities c.active_incident_severity))
      else inapplicable "incident_circuit_breaker" "Payment-rail incident circuit breaker"
          "Applies to automated provider or customer interventions")
    ∷ []

unfoldable pub link_checks : RecoveryPolicy → CaseSnapshot → ActionProposal → List PolicyCheck
link_checks policy c p =
    if is_link p.action_type
    then append "no_duplicate_payment_link" "No existing payment link"
        (text (if is_some c.active_payment_link_id then "Active link exists" else "No active link"))
        (text "Only one active recovery payment link is permitted")
        (not (is_some c.active_payment_link_id))
      ∷ append "amount_matches_original" "Recovery amount matches original payment"
          (amounts_shown p.amount_minor c.amount_minor)
          (text "Payment-link amount must exactly match the original payment")
          (equals_amount p.amount_minor c.amount_minor)
      ∷ append "currency_matches_original" "Recovery currency matches original payment"
          (currencies_shown p.currency c.currency)
          (text "Payment-link currency must exactly match the original payment")
          (equals_currency p.currency c.currency)
      ∷ append "automatic_amount_limit" "Automatic amount boundary"
          (limit_shown p.amount_minor policy.automatic_amount_limit_minor)
          (text "Amounts above the hard automatic limit require escalation")
          (within_limit p.amount_minor policy.automatic_amount_limit_minor)
      ∷ []
    else inapplicable "no_duplicate_payment_link" "No existing payment link"
        "Applies only when creating a payment link"
      ∷ inapplicable "amount_matches_original" "Recovery amount matches original payment"
          "Applies only when creating a payment link"
      ∷ inapplicable "currency_matches_original" "Recovery currency matches original payment"
          "Applies only when creating a payment link"
      ∷ inapplicable "automatic_amount_limit" "Automatic amount boundary"
          "Applies only when creating a payment link"
      ∷ []

unfoldable pub contact_checks :
    RecoveryPolicy → CaseSnapshot → ActionProposal → Datetime → List PolicyCheck
contact_checks policy c p evaluated_at =
    let until = quiet_until c.last_customer_contact_at policy.customer_quiet_period in
    if contacts_customer p.action_type
    then append "customer_contact_consent" "Customer contact consent"
        (text (if c.customer_contact_allowed then "Granted" else "Not granted"))
        (text "Customer-contact actions require recorded consent") c.customer_contact_allowed
      ∷ append "customer_quiet_period" "Customer contact quiet period"
          (show_quiet until evaluated_at)
          (text "Wait four hours after the most recent customer contact")
          (quiet_elapsed until evaluated_at)
      ∷ []
    else inapplicable "customer_contact_consent" "Customer contact consent"
        "This action does not contact the customer"
      ∷ inapplicable "customer_quiet_period" "Customer contact quiet period"
          "This action does not contact the customer"
      ∷ []

unfoldable pub build_recovery_policy_checks :
    RecoveryPolicy → CaseSnapshot → ActionProposal → Datetime → Result (List PolicyCheck)
build_recovery_policy_checks policy c p evaluated_at = do
  require_timezone_aware evaluated_at (value_error "Policy evaluation time must be timezone-aware")
  ok (
      case_checks policy c
      ++ (incident_checks policy c p
          ++ (link_checks policy c p ++ contact_checks policy c p evaluated_at)))
