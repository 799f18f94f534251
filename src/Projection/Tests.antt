-- ===== src/Projection/Tests.antt =====
-- One failed payment and the event that captures it, through the projector.
use reclaim_rail.Base.{
  pos, ◌≡◌, refl, true, false, none, some, [], ◌∷◌, ok, Datetime, arith, ◌-ℤ◌, strip, lstrip,
  rstrip, is_space,
}
use reclaim_rail.Payments.State.{
  failed, captured, parse, applied, late_authorization, decide_payment_transition,
}
use reclaim_rail.Payments.Reliability.{on_time, classify_payment_event_reliability}
use reclaim_rail.Payments.Truth.{verified_webhook, payment_confirmed}
use reclaim_rail.Projection.{
  LifecycleEvent, PaymentAttempt, StateTransition, validate_payment_identity,
  determine_recovery_stop_reason, apply_applied_transition, apply_payment_event_to_projection,
}
use reclaim_rail.Projection.Applied.{IsConsistent, apply-IsConsistent}
use reclaim_rail.Projection.Store.{
  Tables, TruthRecorder, ProjectionResult, result_from_transition, find_existing_transition,
  is_row_of, lock_payment_attempt, new_attempt, create_payment_attempt_if_missing, save_attempt,
  project_payment_lifecycle_event,
}
use reclaim_rail.Projection.Store.Once.{count_event, as_duplicate, project-count}

abbrev noon : Datetime
noon = record { instant = pos 43_200_000_000; tz_aware = true }

-- one minute later
abbrev received : Datetime
received = record { instant = pos 43_260_000_000; tz_aware = true }

-- the payment is captured
abbrev capture : LifecycleEvent
capture = record {
  webhook_event_id = 7;
  provider_event_id = "evt_7";
  provider = "razorpay";
  account_id = some "acc_1";
  event_type = "payment.captured";
  payment_id = "pay_1";
  order_id = none;
  state = captured;
  amount_minor = pos 49900;
  currency = "INR";
  method = some "upi";
  event_created_at = noon;
  payment_created_at = noon;
  error_code = none;
  error_description = none;
  error_source = none;
  error_step = none;
  error_reason = none;
}

-- the row of the payment, which has failed
abbrev failed_row : PaymentAttempt
failed_row = record {
  id = 1;
  provider = "razorpay";
  provider_payment_id = "pay_1";
  account_id = none;
  provider_order_id = some "order_1";
  amount_minor = pos 49900;
  currency = "INR";
  method = some "upi";
  payment_created_at = noon;
  current_state = "failed";
  state_version = 2;
  state_provider_event_id = "evt_6";
  state_webhook_event_id = 6;
  state_event_created_at = noon;
  error_code = some "BAD_REQUEST_ERROR";
  error_description = none;
  error_source = none;
  error_step = none;
  error_reason = none;
  recovery_eligible = true;
  recovery_stopped_at = none;
  recovery_stop_reason = none;
  late_authorization_detected_at = none;
  created_at = noon;
  updated_at = noon;
}

abbrev captured_row : PaymentAttempt
captured_row = record failed_row {
  account_id = some "acc_1";
  current_state = "captured";
  state_version = 3;
  state_provider_event_id = "evt_7";
  state_webhook_event_id = 7;
  error_code = none;
  recovery_eligible = false;
  recovery_stopped_at = some received;
  recovery_stop_reason = some "late_authorization";
  late_authorization_detected_at = some noon;
  updated_at = received;
}

abbrev captured_transition : StateTransition
captured_transition = record {
  payment_attempt_id = 1;
  webhook_event_id = 7;
  provider_event_id = "evt_7";
  event_type = "payment.captured";
  previous_state = failed;
  incoming_state = captured;
  resulting_state = captured;
  resulting_version = 3;
  outcome = applied;
  reason = late_authorization;
  evidence_source = "verified_webhook";
  delivery_classification = on_time;
  delivery_latency_ms = pos 60_000_000;
  late_authorization = true;
  stop_recovery = true;
  event_created_at = noon;
  processed_at = received;
}

apply-capture :
    apply_payment_event_to_projection
      (λ latency. latency)
      failed_row
      capture
      received
      verified_webhook
    ≡ ok (captured_row, captured_transition)
unfolding apply_payment_event_to_projection validate_payment_identity determine_recovery_stop_reason
    apply_applied_transition decide_payment_transition parse classify_payment_event_reliability ◌-ℤ◌
    strip lstrip rstrip is_space
apply-capture = refl

failed_row-IsConsistent : IsConsistent failed_row
unfolding parse
failed_row-IsConsistent = record {
  known = refl;
  stopped = λ h. cc;
  eligible_failed = λ h. refl;
  eligible_open = λ h. refl;
}

apply-IsConsistent_example : IsConsistent captured_row
apply-IsConsistent_example =
    apply-IsConsistent (λ latency. latency) failed_row capture received verified_webhook
      captured_row captured_transition apply-capture failed_row-IsConsistent

abbrev before_capture : Tables
before_capture = record { attempts = failed_row ∷ []; transitions = [] }

abbrev after_capture : Tables
after_capture = record { attempts = captured_row ∷ []; transitions = captured_transition ∷ [] }

abbrev projected : ProjectionResult
projected = record {
  payment_attempt_id = 1;
  webhook_event_id = 7;
  state = captured;
  state_version = 3;
  outcome = applied;
  reason = late_authorization;
  duplicate = false;
  truth_state = some payment_confirmed;
  truth_version = some 1;
}

-- the first snapshot of the truth of the payment
abbrev first_snapshot : TruthRecorder
first_snapshot db attempt t = ok (payment_confirmed, 1)

-- Another worker projects the event between the insert and the lock.
abbrev another_worker : Tables → Tables
another_worker db = after_capture

project-race :
    project_payment_lifecycle_event
      (λ latency. latency)
      first_snapshot
      2
      another_worker
      capture
      received
      verified_webhook
      before_capture
    ≡ ok (as_duplicate projected, after_capture)
unfolding project_payment_lifecycle_event lock_payment_attempt is_row_of new_attempt
    find_existing_transition create_payment_attempt_if_missing save_attempt result_from_transition
project-race = refl

project-count_example : count_event 7 after_capture.transitions ≡ 1
project-count_example =
    project-count (λ latency. latency) first_snapshot 2 another_worker capture received
      verified_webhook before_capture (as_duplicate projected) after_capture project-race
      (omega arith) (λ db h. omega arith)
