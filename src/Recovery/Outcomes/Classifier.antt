-- ===== src/Recovery/Outcomes/Classifier.antt =====
-- apps/api/app/domain/recovery/outcome_classifier.py
use reclaim_rail.Base.{
  ℕ, ℤ, pos, leb_ℤ, ltb_ℤ, eqb_ℤ, String, Bool, true, false, not, ◌&&◌, ◌||◌, Option, none, some,
  is_some, List, nonempty, map_ok, Result, ok, value_error, ◌>>=◌, ◌>>◌, raise_if, Datetime,
  require_timezone_aware, require_optional_aware, if◌then◌else◌,
}
use reclaim_rail.Recovery.Models.{required_text, currency_code}
use reclaim_rail.Recovery.Outcomes.{
  OutcomeStatus, payment_link_pending, recovered, payment_link_expired, payment_link_cancelled,
  duplicate_collection_prevented, unresolved, Attribution, direct_payment_link,
  late_authorization_safety, no_attribution, OutcomeProof, make_outcome_proof, evidence_id,
  has_repeats,
}
use reclaim_rail.Recovery.Outcomes as Outcomes

pub data LinkState : Type 0 where
  pending paid expired cancelled reversed : LinkState

abbrev pub is_cancelled : LinkState → Bool
is_cancelled cancelled = true
is_cancelled _ = false

abbrev pub is_paid : LinkState → Bool
is_paid paid = true
is_paid _ = false

abbrev pub is_reversed : LinkState → Bool
is_reversed reversed = true
is_reversed _ = false

-- `state in ZERO_AMOUNT_LINK_STATES`
abbrev pub has_zero_amount : LinkState → Bool
has_zero_amount pending = true
has_zero_amount expired = true
has_zero_amount cancelled = true
has_zero_amount _ = false

pub record ReconciliationInput : Type 0 where
  pub recovery_case_id : ℕ
  pub payment_attempt_id : ℕ
  pub recovery_action_id : ℕ
  pub provider_payment_id : String
  pub payment_link_id : String
  pub original_amount_minor : ℤ
  pub currency : String
  pub payment_link_state : LinkState
  pub observed_at : Datetime
  pub evidence_event_ids : List String
  pub payment_link_paid_amount_minor : ℤ
  pub payment_link_reversed_minor : ℤ
  pub late_authorization_detected_at : Option Datetime

-- the demands on the amounts
unfoldable pub check_link_amounts : ReconciliationInput → Result (Unit {0})
check_link_amounts v = do
  raise_if (ltb_ℤ v.payment_link_paid_amount_minor (pos 0))
      (value_error "Payment Link paid amount cannot be negative")
  raise_if (ltb_ℤ v.payment_link_reversed_minor (pos 0))
      (value_error "Payment Link reversed amount cannot be negative")
  raise_if (ltb_ℤ v.original_amount_minor v.payment_link_paid_amount_minor)
      (value_error "Payment Link paid amount cannot exceed original payment amount")
  raise_if (ltb_ℤ v.payment_link_paid_amount_minor v.payment_link_reversed_minor)
      (value_error "Payment Link reversed amount cannot exceed Payment Link paid amount")
  raise_if
      (has_zero_amount v.payment_link_state
        && (not (eqb_ℤ v.payment_link_paid_amount_minor (pos 0))
            || not (eqb_ℤ v.payment_link_reversed_minor (pos 0))))
      (value_error "Unpaid Payment Link state cannot contain paid amounts")
  raise_if (is_paid v.payment_link_state && leb_ℤ v.payment_link_paid_amount_minor (pos 0))
      (value_error "Paid Payment Link state requires a positive paid amount")
  raise_if
      (is_reversed v.payment_link_state
        && (leb_ℤ v.payment_link_paid_amount_minor (pos 0)
            || leb_ℤ v.payment_link_reversed_minor (pos 0)))
      (value_error "Reversed Payment Link state requires paid and reversed amounts")

-- `RecoveryOutcomeReconciliationInput.__post_init__`
unfoldable pub make_reconciliation_input : ReconciliationInput → Result ReconciliationInput
make_reconciliation_input v = do
  payment_id ← required_text v.provider_payment_id "Provider payment ID cannot be empty"
  link_id ← required_text v.payment_link_id "Payment Link ID cannot be empty"
  raise_if (leb_ℤ v.original_amount_minor (pos 0))
      (value_error "Original payment amount must be positive")
  currency ← currency_code v.currency
  require_timezone_aware v.observed_at
      (value_error "Outcome observation time must be timezone-aware")
  require_optional_aware v.late_authorization_detected_at
      (value_error "Late authorization detection time must be timezone-aware")
  ids ← map_ok evidence_id v.evidence_event_ids
  raise_if (not (nonempty ids)) (value_error "Outcome reconciliation requires evidence event IDs")
  raise_if (has_repeats ids) (value_error "Evidence event IDs must be unique")
  check_link_amounts v
  ok (record v {
    provider_payment_id = payment_id;
    payment_link_id = link_id;
    currency = currency;
    evidence_event_ids = ids;
  })

-- the arguments that every proof of the classifier has, with the amounts left at 0
abbrev pub proof_from : ReconciliationInput → OutcomeStatus → Attribution → OutcomeProof
proof_from v status attribution = record {
  recovery_case_id = v.recovery_case_id;
  payment_attempt_id = v.payment_attempt_id;
  provider_payment_id = v.provider_payment_id;
  status = status;
  attribution = attribution;
  occurred_at = v.observed_at;
  original_amount_minor = v.original_amount_minor;
  currency = v.currency;
  recovery_action_id = some v.recovery_action_id;
  payment_link_id = some v.payment_link_id;
  provider_outcome_id = none;
  gross_recovered_minor = pos 0;
  reversed_minor = pos 0;
  duplicate_collection_prevented_minor = pos 0;
  evidence_event_ids = v.evidence_event_ids;
}

abbrev unpaid_status : LinkState → OutcomeStatus
unpaid_status expired = payment_link_expired
unpaid_status cancelled = payment_link_cancelled
unpaid_status _ = payment_link_pending

-- the arguments of the proof that `reconcile_recovery_outcome` returns
unfoldable pub classify : ReconciliationInput → OutcomeProof
classify v =
    if is_some v.late_authorization_detected_at
    then (if is_cancelled v.payment_link_state
        then record (proof_from v duplicate_collection_prevented late_authorization_safety) {
          duplicate_collection_prevented_minor = v.original_amount_minor;
        }
        else proof_from v unresolved no_attribution)
    else if is_reversed v.payment_link_state
    then record (proof_from v Outcomes.reversed direct_payment_link) {
      gross_recovered_minor = v.payment_link_paid_amount_minor;
      reversed_minor = v.payment_link_reversed_minor;
    }
    else if is_paid v.payment_link_state
    then record (proof_from v recovered direct_payment_link) {
      gross_recovered_minor = v.payment_link_paid_amount_minor;
    }
    else proof_from v (unpaid_status v.payment_link_state) no_attribution

unfoldable pub reconcile_recovery_outcome : ReconciliationInput → Result OutcomeProof
unfolding classify
reconcile_recovery_outcome v = make_outcome_proof (classify v)
