-- ===== src/Projection/Store.antt =====
-- The two tables of apps/api/app/services/payment_projector.py and the statements on them:
-- `payment_attempts` with its unique constraint on the provider and the provider's payment
-- identifier, and `payment_state_transitions` with its unique webhook event. A run that raises
-- leaves no table behind, as the caller rolls its transaction back.
pub mod Once
use reclaim_rail.Base.{
  ℕ, ◌==◌, ℤ, String, Bool, true, false, ◌&&◌, Option, none, some, List, [], ◌∷◌, ◌++◌, Result, ok,
  err, no_result, ◌>>=◌, ◌>>◌, Datetime, str_eq, if◌then◌else◌,
}
use reclaim_rail.Payments.State.{PaymentState, unknown, value, TransitionOutcome, TransitionReason}
use reclaim_rail.Payments.Truth.{PaymentEvidenceSource, PaymentTruthState}
use reclaim_rail.Projection.{
  LifecycleEvent, PaymentAttempt, StateTransition, apply_payment_event_to_projection,
}

pub record Tables : Type 0 where
  pub attempts : List PaymentAttempt
  pub transitions : List StateTransition

pub record ProjectionResult : Type 0 where
  pub payment_attempt_id : ℕ
  pub webhook_event_id : ℕ
  pub state : PaymentState
  pub state_version : ℕ
  pub outcome : TransitionOutcome
  pub reason : TransitionReason
  pub duplicate : Bool
  pub truth_state : Option PaymentTruthState
  pub truth_version : Option ℕ

unfoldable pub result_from_transition : StateTransition → Bool → ProjectionResult
result_from_transition t duplicate = record {
  payment_attempt_id = t.payment_attempt_id;
  webhook_event_id = t.webhook_event_id;
  state = t.resulting_state;
  state_version = t.resulting_version;
  outcome = t.outcome;
  reason = t.reason;
  duplicate = duplicate;
  truth_state = none;
  truth_version = none;
}

unfoldable pub find_existing_transition : List StateTransition → ℕ → Option StateTransition
find_existing_transition [] id = none
find_existing_transition (t ∷ ts) id =
    if t.webhook_event_id == id then some t else find_existing_transition ts id

-- the row's provider and payment are the event's
unfoldable pub is_row_of : LifecycleEvent → PaymentAttempt → Bool
is_row_of event a =
    str_eq a.provider event.provider && str_eq a.provider_payment_id event.payment_id

unfoldable pub lock_payment_attempt : List PaymentAttempt → LifecycleEvent → Option PaymentAttempt
lock_payment_attempt [] event = none
lock_payment_attempt (a ∷ as') event =
    if is_row_of event a then some a else lock_payment_attempt as' event

-- the row that an event of an unknown payment starts
unfoldable pub new_attempt : ℕ → LifecycleEvent → Datetime → PaymentAttempt
new_attempt fresh_id event processed_at = record {
  id = fresh_id;
  provider = event.provider;
  provider_payment_id = event.payment_id;
  account_id = event.account_id;
  provider_order_id = event.order_id;
  amount_minor = event.amount_minor;
  currency = event.currency;
  method = event.method;
  payment_created_at = event.payment_created_at;
  current_state = value unknown;
  state_version = 0;
  state_provider_event_id = event.provider_event_id;
  state_webhook_event_id = event.webhook_event_id;
  state_event_created_at = event.event_created_at;
  error_code = none;
  error_description = none;
  error_source = none;
  error_step = none;
  error_reason = none;
  recovery_eligible = false;
  recovery_stopped_at = none;
  recovery_stop_reason = none;
  late_authorization_detected_at = none;
  created_at = processed_at;
  updated_at = processed_at;
}

-- `insert ... on conflict do nothing`
unfoldable pub create_payment_attempt_if_missing :
    ℕ → LifecycleEvent → Datetime → List PaymentAttempt → List PaymentAttempt
unfolding lock_payment_attempt is_row_of new_attempt
create_payment_attempt_if_missing fresh_id event processed_at attempts =
    elim (lock_payment_attempt attempts event) [
      | none ↦ attempts ++ (new_attempt fresh_id event processed_at ∷ [])
      | some _ ↦ attempts
    ]

-- the changed row is written back where it was locked
unfoldable pub save_attempt :
    LifecycleEvent → PaymentAttempt → List PaymentAttempt → List PaymentAttempt
save_attempt event a [] = []
save_attempt event a (b ∷ bs) = if is_row_of event b then a ∷ bs else b ∷ save_attempt event a bs

abbrev locked : Option PaymentAttempt → Result PaymentAttempt
locked none = err no_result
locked (some a) = ok a

-- what `record_webhook_transition_truth` answers on the tables, the row and its transition: the state
-- and the version of the snapshot that it keeps in tables of its own, or what it raises
abbrev pub TruthRecorder : Type 0
TruthRecorder = Tables → PaymentAttempt → StateTransition → Result (PaymentTruthState × ℕ)

-- below the second look: apply the event, keep both rows and record the truth
abbrev write_projection :
    (ℤ → ℤ)
    → TruthRecorder
    → LifecycleEvent
    → Datetime
    → PaymentEvidenceSource
    → Tables
    → PaymentAttempt
    → Result (ProjectionResult × Tables)
write_projection to_ms record_truth event processed_at source db attempt = do
  (attempt', t) ← apply_payment_event_to_projection to_ms attempt event processed_at source
  let db' = record db {
    attempts = save_attempt event attempt' db.attempts;
    transitions = db.transitions ++ (t ∷ []);
  }
  (state, version) ← record_truth db' attempt' t
  ok (
    record (result_from_transition t false) {
      truth_state = some state;
      truth_version = some version;
    },
    db',
  )

-- `project_payment_lifecycle_event`. `others` is what other transactions commit before this one holds
-- the lock of the row.
unfoldable pub project_payment_lifecycle_event :
    (ℤ → ℤ)
    → TruthRecorder
    → ℕ
    → (Tables → Tables)
    → LifecycleEvent
    → Datetime
    → PaymentEvidenceSource
    → Tables
    → Result (ProjectionResult × Tables)
unfolding find_existing_transition create_payment_attempt_if_missing save_attempt
    result_from_transition
project_payment_lifecycle_event to_ms record_truth fresh_id others event processed_at source db =
    elim (find_existing_transition db.transitions event.webhook_event_id) [
      | some t ↦ ok (result_from_transition t true, db)
      | none ↦
          let db' = others (record db {
            attempts = create_payment_attempt_if_missing fresh_id event processed_at db.attempts;
          }) in
          do
            attempt ← locked (lock_payment_attempt db'.attempts event)
            elim (find_existing_transition db'.transitions event.webhook_event_id) [
              | some t ↦ ok (result_from_transition t true, db')
              | none ↦ write_projection to_ms record_truth event processed_at source db' attempt
            ]
    ]
