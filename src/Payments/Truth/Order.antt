-- ===== src/Payments/Truth/Order.antt =====
-- The resolution of truth against the order of the evidence.
use mathlib.Core.List.{Permᴰ}
use reclaim_rail.Base.{◌≡◌, List, Datetime, arith}
use reclaim_rail.Base.Perm.{any-permᴰ, filter-permᴰ, filter_map-permᴰ, nonempty-permᴰ, map-permᴰ}
use reclaim_rail.Base.TextOrder.{sorted_set-permᴰ}
use reclaim_rail.Payments.Truth.{
  EvidenceFact, resolve_usable, resolve_payment_truth, is_usable, says_payment_status,
  says_recovery_status, says_late_authorization, says_provider_missing, identity_mismatch,
  is_confirmed_status, is_failed_status, is_pending_status, is_active_recovery_status,
  is_confirmed_recovery_status, is_unavailable,
}
use reclaim_rail.Base.{str_eq}

resolve_usable-permᴰ :
    {xs ys : List EvidenceFact} → Permᴰ xs ys → resolve_usable xs ≡ resolve_usable ys
unfolding resolve_usable
resolve_usable-permᴰ d = rw (
  any-permᴰ (λ f. is_unavailable f.unavailable_reason) d,
  any-permᴰ says_provider_missing d,
  any-permᴰ says_late_authorization d,
  any-permᴰ (says_payment_status is_confirmed_status) d,
  any-permᴰ (says_payment_status (λ s. str_eq s "authorized")) d,
  any-permᴰ (says_payment_status is_failed_status) d,
  any-permᴰ (says_payment_status is_pending_status) d,
  any-permᴰ (says_recovery_status is_active_recovery_status) d,
  any-permᴰ (says_recovery_status is_confirmed_recovery_status) d,
  sorted_set-permᴰ (filter_map-permᴰ identity_mismatch d),
  sorted_set-permᴰ (map-permᴰ (λ f. f.evidence_id) d),
)

-- The order in which the evidence is given changes nothing of the decision: neither the state, nor
-- the references, nor the conflict codes, nor whether it raises.
pub resolve-perm :
    (xs ys : List EvidenceFact) (t : Datetime)
    → Permᴰ xs ys
    → resolve_payment_truth xs t ≡ resolve_payment_truth ys t
unfolding resolve_payment_truth
resolve-perm xs ys t d = ground (
  arith,
  nonempty-permᴰ (filter-permᴰ (is_usable t) d),
  resolve_usable-permᴰ (filter-permᴰ (is_usable t) d),
)
