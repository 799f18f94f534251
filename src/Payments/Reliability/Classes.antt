-- ===== src/Payments/Reliability/Classes.antt =====
-- What each class of delivery says of the times, the transition and the source of an event.
use reclaim_rail.Base.{
  ℤ, pos, ◌-ℤ◌, ◌≤ℤ◌, ◌<ℤ◌, ◌≡◌, ◌≢◌, ◌↔◌, ◌⊎◌, String, true, ok, eq_iff, strip, Datetime, arith,
}
use reclaim_rail.Payments.State.{TransitionReason, regression_blocked, terminal_state}
use reclaim_rail.Payments.Reliability.{
  EventReliability, stale, reordered, provider_reconciled, delayed, on_time, is_reordered,
  classify_payment_event_reliability,
}

is_reordered_iff :
    (t : TransitionReason)
    → (is_reordered t ≡ true) ↔ ((t ≡ regression_blocked) ⊎ (t ≡ terminal_state))
is_reordered_iff regression_blocked = ground arith
is_reordered_iff terminal_state = ground arith
is_reordered_iff _ = ground arith

module _ (to_ms : ℤ → ℤ) (source : String) (reason : TransitionReason)
    (created processed : Datetime) (threshold : ℤ) (r : EventReliability)
    (classified : classify_payment_event_reliability to_ms source reason created processed threshold
      ≡ ok r) where
  -- Whenever the classification returns, both times carry a zone, the threshold is positive, and,
  -- with the latency of the time from the creation of the event to its processing, in microseconds:
  -- a delivery of more than seven days is stale; of the others, one whose transition was blocked as
  -- a regression or by a terminal state is reordered; of the rest, one from the provider's payment
  -- interface is reconciled; and of what is left, one above the threshold is delayed, and one within
  -- it is on time. Each holds in both directions.
  pub classify-classes :
      (created.tz_aware ≡ true)
      × (processed.tz_aware ≡ true)
      × (pos 1 ≤ℤ threshold)
      × ((r.classification ≡ stale) ↔ (pos 604_800_000_000 <ℤ processed.instant -ℤ created.instant))
      × ((r.classification ≡ reordered) ↔ (
          (processed.instant -ℤ created.instant ≤ℤ pos 604_800_000_000)
          × ((reason ≡ regression_blocked) ⊎ (reason ≡ terminal_state))))
      × ((r.classification ≡ provider_reconciled) ↔ (
          (processed.instant -ℤ created.instant ≤ℤ pos 604_800_000_000)
          × (reason ≢ regression_blocked)
          × (reason ≢ terminal_state)
          × (strip source ≡ "provider_payment_api")))
      × ((r.classification ≡ delayed) ↔ (
          (processed.instant -ℤ created.instant ≤ℤ pos 604_800_000_000)
          × (reason ≢ regression_blocked)
          × (reason ≢ terminal_state)
          × (strip source ≢ "provider_payment_api")
          × (threshold <ℤ processed.instant -ℤ created.instant)))
      × ((r.classification ≡ on_time) ↔ (
          (processed.instant -ℤ created.instant ≤ℤ pos 604_800_000_000)
          × (reason ≢ regression_blocked)
          × (reason ≢ terminal_state)
          × (strip source ≢ "provider_payment_api")
          × (processed.instant -ℤ created.instant ≤ℤ threshold)))
  unfolding classify_payment_event_reliability
  classify-classes =
      ground (arith, is_reordered_iff reason, eq_iff (strip source) "provider_payment_api")
