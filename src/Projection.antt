-- ===== src/Projection.antt =====
-- apps/api/app/services/payment_projector.py: how a payment event changes the stored projection of
-- its payment, and the audit row that it leaves. `Store` holds the two tables.
pub mod Applied
pub mod Store
mod Tests
use Prim.Native.String as Str
use reclaim_rail.Base.{
  ℕ, ◌+◌, ℤ, String, Bool, true, false, not, ◌&&◌, ◌||◌, Option, none, some, is_some, Result, ok,
  err, value_error, projection_conflict, ◌>>=◌, ◌>>◌, raise_if, Datetime, before, str_eq, eqb_ℤ,
  is_empty, if◌then◌else◌,
}
use reclaim_rail.Payments.State.{
  PaymentState, failed, TransitionOutcome, TransitionReason, Decision, value, parse, is_applied,
  same, decide_payment_transition,
}
use reclaim_rail.Payments.Reliability.{
  DeliveryClassification, classify_payment_event_reliability, default_delay_threshold,
}
use reclaim_rail.Payments.Truth.{PaymentEvidenceSource, source_value}

-- apps/api/app/domain/payments/events.py; identifiers of rows are numbers
pub record LifecycleEvent : Type 0 where
  pub webhook_event_id : ℕ
  pub provider_event_id : String
  pub provider : String
  pub account_id : Option String
  pub event_type : String
  pub payment_id : String
  pub order_id : Option String
  pub state : PaymentState
  pub amount_minor : ℤ
  pub currency : String
  pub method : Option String
  pub event_created_at : Datetime
  pub payment_created_at : Datetime
  pub error_code : Option String
  pub error_description : Option String
  pub error_source : Option String
  pub error_step : Option String
  pub error_reason : Option String

-- a row of `payment_attempts`
pub record PaymentAttempt : Type 0 where
  pub id : ℕ
  pub provider : String
  pub provider_payment_id : String
  pub account_id : Option String
  pub provider_order_id : Option String
  pub amount_minor : ℤ
  pub currency : String
  pub method : Option String
  pub payment_created_at : Datetime
  pub current_state : String
  pub state_version : ℕ
  pub state_provider_event_id : String
  pub state_webhook_event_id : ℕ
  pub state_event_created_at : Datetime
  pub error_code : Option String
  pub error_description : Option String
  pub error_source : Option String
  pub error_step : Option String
  pub error_reason : Option String
  pub recovery_eligible : Bool
  pub recovery_stopped_at : Option Datetime
  pub recovery_stop_reason : Option String
  pub late_authorization_detected_at : Option Datetime
  pub created_at : Datetime
  pub updated_at : Datetime

-- a row of `payment_state_transitions`; the enumerations stand for their texts
pub record StateTransition : Type 0 where
  pub payment_attempt_id : ℕ
  pub webhook_event_id : ℕ
  pub provider_event_id : String
  pub event_type : String
  pub previous_state : PaymentState
  pub incoming_state : PaymentState
  pub resulting_state : PaymentState
  pub resulting_version : ℕ
  pub outcome : TransitionOutcome
  pub reason : TransitionReason
  pub evidence_source : String
  pub delivery_classification : DeliveryClassification
  pub delivery_latency_ms : ℤ
  pub late_authorization : Bool
  pub stop_recovery : Bool
  pub event_created_at : Datetime
  pub processed_at : Datetime

-- two values that are both there and differ
abbrev pub disagree : Option String → Option String → Bool
disagree (some a) (some b) = not (str_eq a b)
disagree _ _ = false

unfoldable pub validate_payment_identity : PaymentAttempt → LifecycleEvent → Result (Unit {0})
validate_payment_identity attempt event = do
  raise_if (not (str_eq attempt.provider event.provider))
      (projection_conflict "Payment provider does not match the existing projection")
  raise_if (not (str_eq attempt.provider_payment_id event.payment_id))
      (projection_conflict "Payment identifier does not match the existing projection")
  raise_if (not (eqb_ℤ attempt.amount_minor event.amount_minor))
      (projection_conflict "Payment amount does not match the existing projection")
  raise_if (not (str_eq attempt.currency event.currency))
      (projection_conflict "Payment currency does not match the existing projection")
  raise_if (disagree attempt.account_id event.account_id)
      (projection_conflict "Payment account does not match the existing projection")
  raise_if (disagree attempt.provider_order_id event.order_id)
      (projection_conflict "Payment order does not match the existing projection")

unfoldable pub determine_recovery_stop_reason : Decision → Option String
determine_recovery_stop_reason d =
    if not d.stop_recovery
    then none
    else if d.late
    then some "late_authorization"
    else some (Str.◌++◌ "state_" (value d.next_state))

-- `a or b` on two optional texts: an empty text counts as missing
abbrev pub text_or : Option String → Option String → Option String
text_or none b = b
text_or (some a) b = if is_empty a then b else some a

-- `min(a, b)` on two times
abbrev pub earlier : Datetime → Datetime → Datetime
earlier a b = if before b a then b else a

-- what every applied transition writes
abbrev applied_common : PaymentAttempt → LifecycleEvent → Decision → Datetime → PaymentAttempt
applied_common attempt event d processed_at = record attempt {
  account_id = text_or event.account_id attempt.account_id;
  provider_order_id = text_or event.order_id attempt.provider_order_id;
  method = text_or event.method attempt.method;
  payment_created_at = earlier attempt.payment_created_at event.payment_created_at;
  current_state = value d.next_state;
  state_version = attempt.state_version + 1;
  state_provider_event_id = event.provider_event_id;
  state_webhook_event_id = event.webhook_event_id;
  state_event_created_at = event.event_created_at;
  updated_at = processed_at;
}

-- `if attempt.recovery_stopped_at is None: ... = processed_at`
abbrev stopped_since : Option Datetime → Datetime → Option Datetime
stopped_since none now = some now
stopped_since (some since) now = some since

unfoldable pub apply_applied_transition :
    PaymentAttempt → LifecycleEvent → Decision → Datetime → PaymentAttempt
unfolding determine_recovery_stop_reason
apply_applied_transition attempt event d processed_at =
    let a = applied_common attempt event d processed_at in
    if same d.next_state failed
    then record a {
      error_code = event.error_code;
      error_description = event.error_description;
      error_source = event.error_source;
      error_step = event.error_step;
      error_reason = event.error_reason;
      recovery_eligible = true;
      recovery_stopped_at = none;
      recovery_stop_reason = none;
    }
    else record a {
      error_code = none;
      error_description = none;
      error_source = none;
      error_step = none;
      error_reason = none;
      recovery_eligible = false;
      recovery_stopped_at =
          if d.stop_recovery
          then stopped_since attempt.recovery_stopped_at processed_at
          else attempt.recovery_stopped_at;
      recovery_stop_reason =
          if d.stop_recovery && (not (is_some attempt.recovery_stop_reason) || d.late)
          then determine_recovery_stop_reason d
          else attempt.recovery_stop_reason;
      late_authorization_detected_at =
          if d.late then some event.event_created_at else attempt.late_authorization_detected_at;
    }

-- `PaymentState(attempt.current_state)`
abbrev parse_state : Option PaymentState → Result PaymentState
parse_state none = err (projection_conflict "Existing payment projection contains an invalid state")
parse_state (some s) = ok s

-- The attempt as the event leaves it, and the audit row.
unfoldable pub apply_payment_event_to_projection :
    (ℤ → ℤ)
    → PaymentAttempt
    → LifecycleEvent
    → Datetime
    → PaymentEvidenceSource
    → Result (PaymentAttempt × StateTransition)
apply_payment_event_to_projection to_ms attempt event processed_at source = do
  validate_payment_identity attempt event
  current ← parse_state (parse attempt.current_state)
  let d = decide_payment_transition current event.state
  reliability ←
      classify_payment_event_reliability to_ms (source_value source) d.reason event.event_created_at
        processed_at default_delay_threshold
  let attempt' =
      if is_applied d.outcome
      then apply_applied_transition attempt event d processed_at
      else attempt
  ok (
    attempt',
    record {
      payment_attempt_id = attempt'.id;
      webhook_event_id = event.webhook_event_id;
      provider_event_id = event.provider_event_id;
      event_type = event.event_type;
      previous_state = d.previous_state;
      incoming_state = event.state;
      resulting_state = d.next_state;
      resulting_version = attempt'.state_version;
      outcome = d.outcome;
      reason = d.reason;
      evidence_source = reliability.evidence_source;
      delivery_classification = reliability.classification;
      delivery_latency_ms = reliability.delivery_latency_ms;
      late_authorization = d.late;
      stop_recovery = d.stop_recovery;
      event_created_at = event.event_created_at;
      processed_at = processed_at;
    },
  )
