-- ===== src/Recovery/Outcomes.antt =====
-- apps/api/app/domain/recovery/outcomes.py: the proof of a financial outcome and what its
-- constructor demands.
pub mod Classifier
pub mod Money
pub mod Reconciled
use reclaim_rail.Base.{
  ℕ, ◌==◌, ℤ, pos, ◌-ℤ◌, leb_ℤ, ltb_ℤ, eqb_ℤ, String, Bool, true, false, not, ◌&&◌, ◌||◌, Option,
  none, some, is_some, List, [], ◌∷◌, length, nonempty, from_keys, map_ok, Result, ok, err,
  value_error, ◌>>=◌, ◌>>◌, raise_if, Datetime, require_timezone_aware, strip, str_eq,
  if◌then◌else◌,
}
use reclaim_rail.Recovery.Models.{required_text, currency_code, stripped}

pub data OutcomeStatus : Type 0 where
  payment_link_pending recovered payment_link_expired payment_link_cancelled : OutcomeStatus
  duplicate_collection_prevented reversed unresolved : OutcomeStatus

pub data Attribution : Type 0 where
  direct_payment_link late_authorization_safety no_attribution : Attribution

abbrev pub is_recovered_outcome : OutcomeStatus → Bool
is_recovered_outcome recovered = true
is_recovered_outcome _ = false

abbrev pub is_reversed_outcome : OutcomeStatus → Bool
is_reversed_outcome reversed = true
is_reversed_outcome _ = false

abbrev pub is_prevented_outcome : OutcomeStatus → Bool
is_prevented_outcome duplicate_collection_prevented = true
is_prevented_outcome _ = false

-- `status in ZERO_IMPACT_OUTCOMES`
abbrev pub has_zero_impact : OutcomeStatus → Bool
has_zero_impact payment_link_pending = true
has_zero_impact payment_link_expired = true
has_zero_impact payment_link_cancelled = true
has_zero_impact unresolved = true
has_zero_impact _ = false

abbrev pub is_direct : Attribution → Bool
is_direct direct_payment_link = true
is_direct _ = false

abbrev pub is_safety : Attribution → Bool
is_safety late_authorization_safety = true
is_safety _ = false

abbrev pub is_no_attribution : Attribution → Bool
is_no_attribution no_attribution = true
is_no_attribution _ = false

pub record OutcomeProof : Type 0 where
  pub recovery_case_id : ℕ
  pub payment_attempt_id : ℕ
  pub provider_payment_id : String
  pub status : OutcomeStatus
  pub attribution : Attribution
  pub occurred_at : Datetime
  pub original_amount_minor : ℤ
  pub currency : String
  pub recovery_action_id : Option ℕ
  pub payment_link_id : Option String
  pub provider_outcome_id : Option String
  pub gross_recovered_minor : ℤ
  pub reversed_minor : ℤ
  pub duplicate_collection_prevented_minor : ℤ
  pub evidence_event_ids : List String

abbrev pub evidence_id : String → Result String
evidence_id id = required_text id "Evidence event ID cannot be empty"

-- `len(set(ids)) != len(ids)`
abbrev pub has_repeats : List String → Bool
has_repeats ids = not (length (from_keys str_eq ids) == length ids)

abbrev is_negative : ℤ → Bool
is_negative amount = ltb_ℤ amount (pos 0)

abbrev not_positive : ℤ → Bool
not_positive amount = leb_ℤ amount (pos 0)

-- the demands of the statuses, on the proof as it is normalised
unfoldable pub check_status : OutcomeProof → Result (Unit {0})
check_status p = do
  raise_if (is_recovered_outcome p.status && not_positive p.gross_recovered_minor)
      (value_error "Recovered outcome requires a positive recovered amount")
  raise_if (is_recovered_outcome p.status && not (is_direct p.attribution))
      (value_error "Recovered outcome requires direct Payment Link attribution")
  raise_if
      (is_recovered_outcome p.status
        && (not (is_some p.recovery_action_id)
            || not (is_some p.payment_link_id)
            || not (nonempty p.evidence_event_ids)))
      (value_error "Recovered outcome requires action, Payment Link, and evidence")
  raise_if
      (is_reversed_outcome p.status
        && (not_positive p.gross_recovered_minor || not_positive p.reversed_minor))
      (value_error "Reversed outcome requires recovered and reversed amounts")
  raise_if (is_reversed_outcome p.status && not (nonempty p.evidence_event_ids))
      (value_error "Reversed outcome requires evidence")
  raise_if (is_prevented_outcome p.status && not_positive p.duplicate_collection_prevented_minor)
      (value_error "Duplicate-prevention outcome requires a positive protected amount")
  raise_if (is_prevented_outcome p.status && not (is_safety p.attribution))
      (value_error "Duplicate-prevention outcome requires late-authorization safety attribution")
  raise_if (is_prevented_outcome p.status && not (nonempty p.evidence_event_ids))
      (value_error "Duplicate-prevention outcome requires evidence")
  raise_if
      (has_zero_impact p.status
        && (not (eqb_ℤ p.gross_recovered_minor (pos 0))
            || not (eqb_ℤ p.reversed_minor (pos 0))
            || not (eqb_ℤ p.duplicate_collection_prevented_minor (pos 0))))
      (value_error "Zero-impact outcome cannot contain financial impact amounts")
  raise_if (has_zero_impact p.status && not (is_no_attribution p.attribution))
      (value_error "Zero-impact outcome requires no revenue attribution")

-- the demands on the amounts of every proof
unfoldable pub check_amounts : OutcomeProof → Result (Unit {0})
check_amounts p = do
  raise_if (is_negative p.gross_recovered_minor)
      (value_error "Gross recovered amount cannot be negative")
  raise_if (is_negative p.reversed_minor) (value_error "Reversed amount cannot be negative")
  raise_if (is_negative p.duplicate_collection_prevented_minor)
      (value_error "Duplicate collection prevented amount cannot be negative")
  raise_if (ltb_ℤ p.original_amount_minor p.gross_recovered_minor)
      (value_error "Recovered amount cannot exceed original payment amount")
  raise_if (ltb_ℤ p.gross_recovered_minor p.reversed_minor)
      (value_error "Reversed amount cannot exceed recovered amount")
  raise_if (ltb_ℤ p.original_amount_minor p.duplicate_collection_prevented_minor)
      (value_error "Duplicate collection prevented amount cannot exceed original payment amount")

-- `RecoveryOutcomeProof.__post_init__`
unfoldable pub make_outcome_proof : OutcomeProof → Result OutcomeProof
make_outcome_proof p = do
  payment_id ← required_text p.provider_payment_id "Provider payment ID cannot be empty"
  raise_if (not_positive p.original_amount_minor)
      (value_error "Original payment amount must be positive")
  currency ← currency_code p.currency
  require_timezone_aware p.occurred_at (value_error "Outcome timestamp must be timezone-aware")
  ids ← map_ok evidence_id p.evidence_event_ids
  raise_if (has_repeats ids) (value_error "Evidence event IDs must be unique")
  let normal = record p {
    provider_payment_id = payment_id;
    currency = currency;
    payment_link_id = stripped p.payment_link_id;
    provider_outcome_id = stripped p.provider_outcome_id;
    evidence_event_ids = ids;
  }
  check_amounts normal
  check_status normal
  ok normal

-- `net_recovered_minor` and `has_recovered_revenue`
unfoldable pub net_recovered_minor : OutcomeProof → ℤ
net_recovered_minor p = p.gross_recovered_minor -ℤ p.reversed_minor

unfoldable pub has_recovered_revenue : OutcomeProof → Bool
unfolding net_recovered_minor
has_recovered_revenue p = ltb_ℤ (pos 0) (net_recovered_minor p)
