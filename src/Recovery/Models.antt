-- ===== src/Recovery/Models.antt =====
-- apps/api/app/domain/recovery/models.py. A constructor takes the values that the caller passes and
-- answers the record that `__post_init__` leaves, or the error that it raises.
use Prim.Native.String.{count}
use reclaim_rail.Base.{
  ℕ, ◌==◌, ℤ, pos, leb_ℤ, ltb_ℤ, String, Bool, true, false, not, ◌&&◌, ◌||◌, Option, none, some,
  is_some, List, nonempty, Result, ok, value_error, ◌>>=◌, ◌>>◌, raise_if, Datetime,
  require_timezone_aware, require_optional_aware, strip, casefold, upper, is_empty, if◌then◌else◌,
}
use reclaim_rail.Payments.State.{PaymentState}
use reclaim_rail.Incidents.{IncidentSeverity}

pub data CaseStatus : Type 0 where
  opened planning ready awaiting_approval executing waiting : CaseStatus
  recovered exhausted cancelled escalated : CaseStatus

pub data ActionType : Type 0 where
  create_payment_link send_recovery_message offer_alternate_method : ActionType
  wait escalate_human stop_recovery : ActionType

pub data Channel : Type 0 where
  email sms whatsapp : Channel

pub data PolicyOutcome : Type 0 where
  allow block escalate stop : PolicyOutcome

pub data Guardrail : Type 0 where
  payment_already_completed late_authorization_detected case_terminal : Guardrail
  case_already_escalated max_attempts_reached quiet_period_active : Guardrail
  incident_circuit_breaker duplicate_payment_link contact_consent_missing : Guardrail
  amount_mismatch currency_mismatch automatic_amount_limit : Guardrail
  agent_requested_escalation agent_requested_stop : Guardrail

-- `RecoveryGuardrail.value`
abbrev pub guardrail_value : Guardrail → String
guardrail_value payment_already_completed = "payment_already_completed"
guardrail_value late_authorization_detected = "late_authorization_detected"
guardrail_value case_terminal = "case_terminal"
guardrail_value case_already_escalated = "case_already_escalated"
guardrail_value max_attempts_reached = "max_attempts_reached"
guardrail_value quiet_period_active = "quiet_period_active"
guardrail_value incident_circuit_breaker = "incident_circuit_breaker"
guardrail_value duplicate_payment_link = "duplicate_payment_link"
guardrail_value contact_consent_missing = "contact_consent_missing"
guardrail_value amount_mismatch = "amount_mismatch"
guardrail_value currency_mismatch = "currency_mismatch"
guardrail_value automatic_amount_limit = "automatic_amount_limit"
guardrail_value agent_requested_escalation = "agent_requested_escalation"
guardrail_value agent_requested_stop = "agent_requested_stop"

-- the texts of the other enumerations
abbrev pub status_value : CaseStatus → String
status_value opened = "open"
status_value planning = "planning"
status_value ready = "ready"
status_value awaiting_approval = "awaiting_approval"
status_value executing = "executing"
status_value waiting = "waiting"
status_value recovered = "recovered"
status_value exhausted = "exhausted"
status_value cancelled = "cancelled"
status_value escalated = "escalated"

abbrev pub action_type_value : ActionType → String
action_type_value create_payment_link = "create_payment_link"
action_type_value send_recovery_message = "send_recovery_message"
action_type_value offer_alternate_method = "offer_alternate_method"
action_type_value wait = "wait"
action_type_value escalate_human = "escalate_human"
action_type_value stop_recovery = "stop_recovery"

abbrev pub outcome_value : PolicyOutcome → String
outcome_value allow = "allow"
outcome_value block = "block"
outcome_value escalate = "escalate"
outcome_value stop = "stop"

-- `a is b`, for the members that the code compares with
abbrev pub is_recovered : CaseStatus → Bool
is_recovered recovered = true
is_recovered _ = false

abbrev pub is_escalated : CaseStatus → Bool
is_escalated escalated = true
is_escalated _ = false

abbrev pub is_link : ActionType → Bool
is_link create_payment_link = true
is_link _ = false

abbrev pub is_wait : ActionType → Bool
is_wait wait = true
is_wait _ = false

abbrev pub is_stop : ActionType → Bool
is_stop stop_recovery = true
is_stop _ = false

abbrev pub is_escalation : ActionType → Bool
is_escalation escalate_human = true
is_escalation _ = false

abbrev pub is_allow : PolicyOutcome → Bool
is_allow allow = true
is_allow _ = false

-- `action in CUSTOMER_CONTACT_ACTIONS`
abbrev pub contacts_customer : ActionType → Bool
contacts_customer send_recovery_message = true
contacts_customer offer_alternate_method = true
contacts_customer _ = false

-- `_normalize_required_text`, with the whole message
abbrev pub required_text : String → String → Result String
required_text value message = do
  raise_if (is_empty (strip value)) (value_error message)
  ok (strip value)

-- `value or None`
abbrev pub text_or_none : String → Option String
text_or_none s = if is_empty s then none else some s

-- `currency.strip().upper()` of three letters
unfoldable pub currency_code : String → Result String
currency_code currency = do
  let code = upper (strip currency)
  raise_if (not (count code == 3)) (value_error "Currency must be a three-letter code")
  ok code

abbrev pub optional_currency : Option String → Result (Option String)
optional_currency none = ok none
optional_currency (some currency) = do code ← currency_code currency; ok (some code)

-- `value.strip()` and `value.strip().casefold()` of an optional text
abbrev pub stripped : Option String → Option String
stripped none = none
stripped (some s) = text_or_none (strip s)

abbrev pub folded : Option String → Option String
folded none = none
folded (some s) = text_or_none (casefold (strip s))

pub record CaseSnapshot : Type 0 where
  pub case_id : ℕ
  pub payment_attempt_id : ℕ
  pub provider_payment_id : String
  pub payment_state : PaymentState
  pub amount_minor : ℤ
  pub currency : String
  pub payment_method : Option String
  pub status : CaseStatus
  pub recovery_attempt_count : ℤ
  pub customer_contact_allowed : Bool
  pub last_customer_contact_at : Option Datetime
  pub active_payment_link_id : Option String
  pub active_incident_severity : Option IncidentSeverity
  pub late_authorization_detected_at : Option Datetime
  pub recovered_at : Option Datetime

-- `RecoveryCaseSnapshot.__post_init__`
unfoldable pub make_case_snapshot : CaseSnapshot → Result CaseSnapshot
make_case_snapshot c = do
  payment_id ← required_text c.provider_payment_id "Provider payment ID cannot be empty"
  raise_if (leb_ℤ c.amount_minor (pos 0)) (value_error "Payment amount must be positive")
  currency ← currency_code c.currency
  raise_if (ltb_ℤ c.recovery_attempt_count (pos 0))
      (value_error "Recovery attempt count cannot be negative")
  require_optional_aware c.last_customer_contact_at
      (value_error "Last customer contact must be timezone-aware")
  require_optional_aware c.late_authorization_detected_at
      (value_error "Late authorization detection must be timezone-aware")
  require_optional_aware c.recovered_at (value_error "Recovery timestamp must be timezone-aware")
  raise_if (is_recovered c.status && not (is_some c.recovered_at))
      (value_error "Recovered case requires recovery timestamp")
  ok (record c {
    provider_payment_id = payment_id;
    currency = currency;
    payment_method = folded c.payment_method;
    active_payment_link_id = stripped c.active_payment_link_id;
  })

pub record ActionProposal : Type 0 where
  pub action_type : ActionType
  pub reason : String
  pub amount_minor : Option ℤ
  pub currency : Option String
  pub channel : Option Channel
  pub target_payment_method : Option String
  pub execute_after : Option Datetime

-- `amount is not None and amount <= 0`
abbrev pub is_not_positive : Option ℤ → Bool
is_not_positive none = false
is_not_positive (some amount) = leb_ℤ amount (pos 0)

-- `RecoveryActionProposal.__post_init__`
unfoldable pub make_action_proposal : ActionProposal → Result ActionProposal
make_action_proposal p = do
  reason ← required_text p.reason "Proposal reason cannot be empty"
  raise_if (is_not_positive p.amount_minor) (value_error "Proposed amount must be positive")
  currency ← optional_currency p.currency
  require_optional_aware p.execute_after (value_error "Execution time must be timezone-aware")
  raise_if (is_link p.action_type && (not (is_some p.amount_minor) || not (is_some currency)))
      (value_error "Payment-link proposal requires amount and currency")
  raise_if (contacts_customer p.action_type && not (is_some p.channel))
      (value_error "Customer-contact proposal requires a channel")
  raise_if (is_wait p.action_type && not (is_some p.execute_after))
      (value_error "Wait proposal requires execution time")
  ok (record p {
    reason = reason;
    currency = currency;
    target_payment_method = folded p.target_payment_method;
  })

pub record PolicyDecision : Type 0 where
  pub outcome : PolicyOutcome
  pub guardrails : List Guardrail
  pub explanation : String
  pub evaluated_at : Datetime

-- `RecoveryPolicyDecision.__post_init__`
unfoldable pub make_policy_decision : PolicyDecision → Result PolicyDecision
make_policy_decision d = do
  explanation ← required_text d.explanation "Policy explanation cannot be empty"
  require_timezone_aware d.evaluated_at
      (value_error "Policy evaluation time must be timezone-aware")
  raise_if (is_allow d.outcome && nonempty d.guardrails)
      (value_error "Allowed decision cannot contain guardrail violations")
  raise_if (not (is_allow d.outcome) && not (nonempty d.guardrails))
      (value_error "Non-allowed decision requires guardrail evidence")
  ok (record d { explanation = explanation })
