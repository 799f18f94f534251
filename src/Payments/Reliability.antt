-- ===== src/Payments/Reliability.antt =====
-- apps/api/app/domain/payments/reliability.py
pub mod Classes
use reclaim_rail.Base.{
  ℤ, pos, ◌-ℤ◌, leb_ℤ, ltb_ℤ, max_ℤ, String, Bool, true, false, ◌||◌, not, Result, ok, err,
  value_error, ◌>>=◌, ◌>>◌, raise_if, Datetime, require_timezone_aware, strip, is_empty, str_eq,
  if◌then◌else◌,
}
use reclaim_rail.Payments.State.{TransitionReason, regression_blocked, terminal_state}

pub data DeliveryClassification : Type 0 where
  on_time delayed reordered provider_reconciled stale : DeliveryClassification

pub record EventReliability : Type 0 where
  pub evidence_source : String
  pub classification : DeliveryClassification
  pub delivery_latency_ms : ℤ

-- `timedelta(minutes=2)` and `timedelta(days=7)`
abbrev pub default_delay_threshold : ℤ
default_delay_threshold = pos 120_000_000

abbrev pub max_event_age : ℤ
max_event_age = pos 604_800_000_000

-- `reason in {REGRESSION_BLOCKED, TERMINAL_STATE}`
abbrev pub is_reordered : TransitionReason → Bool
is_reordered regression_blocked = true
is_reordered terminal_state = true
is_reordered _ = false

-- `max(processed_at - event_created_at, timedelta(0))`
abbrev pub delivery_latency : Datetime → Datetime → ℤ
delivery_latency event_created_at processed_at =
    max_ℤ (processed_at.instant -ℤ event_created_at.instant) (pos 0)

-- `to_ms` is `int(latency.total_seconds() * 1000)`, which the floats of the platform compute.
unfoldable pub classify_payment_event_reliability :
    (ℤ → ℤ) → String → TransitionReason → Datetime → Datetime → ℤ → Result EventReliability
classify_payment_event_reliability to_ms evidence_source reason event_created_at processed_at
      delay_threshold =
    do
      require_timezone_aware event_created_at
          (value_error "event_created_at must be timezone-aware")
      require_timezone_aware processed_at (value_error "processed_at must be timezone-aware")
      raise_if (leb_ℤ delay_threshold (pos 0)) (value_error "delay_threshold must be positive")
      let latency = delivery_latency event_created_at processed_at
      let normalized_source = strip evidence_source
      raise_if (is_empty normalized_source) (value_error "evidence_source cannot be empty")
      ok (record {
        evidence_source = normalized_source;
        classification =
            if ltb_ℤ max_event_age latency
            then stale
            else if is_reordered reason
            then reordered
            else if str_eq normalized_source "provider_payment_api"
            then provider_reconciled
            else if ltb_ℤ delay_threshold latency
            then delayed
            else on_time;
        delivery_latency_ms = to_ms latency;
      })
