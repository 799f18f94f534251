-- ===== src/Execution/Counted.antt =====
-- What the batch discovers below the limit can be claimed.
use reclaim_rail.Base.{
  ◌≡◌, refl, ℤ, pos, leb_ℤ, ltb_ℤ, int_laws, true, false, not, ◌&&◌, Option, none, some, ok,
  Datetime, arith,
}
use reclaim_rail.Audit.Chain.{Platform}
use reclaim_rail.Storage.{ActionStatus, RecoveryAction}
use reclaim_rail.Execution.{
  Bounds, is_scheduled, is_executing, may_start, lies_after, claimed_within,
}
use reclaim_rail.Execution.Prepare.{check_claim}
use reclaim_rail.Execution.Batch.{reached, stale_before, is_ready, is_executable}

-- what the query's tests of times say of the claim's
reached-lies_after :
    (o : Option Datetime) (at : Datetime) → reached false o at ≡ true → lies_after o at ≡ false
reached-lies_after none at h = refl
reached-lies_after (some t) at h = ground arith

stale-claimed_within :
    (o : Option Datetime) (timeout : ℤ) (at : Datetime)
    → reached true o (stale_before at timeout) ≡ true
    → claimed_within o timeout at ≡ false
stale-claimed_within none timeout at h = refl
stale-claimed_within (some t) timeout at h = grind int_laws

ready_guards :
    (a : RecoveryAction) (timeout : ℤ) (at : Datetime) (s : ActionStatus)
    → is_ready a timeout at s ≡ true
    → ((is_scheduled s && lies_after a.execute_after at) ≡ false)
      × ((is_executing s && claimed_within a.started_at timeout at) ≡ false)
      × ((not (is_executing s) && not (may_start s)) ≡ false)
ready_guards a timeout at ActionStatus.allowed h = (refl, refl, refl)
ready_guards a timeout at ActionStatus.failed h = (refl, refl, refl)
ready_guards a timeout at ActionStatus.scheduled h =
    (reached-lies_after a.execute_after at h, refl, refl)
ready_guards a timeout at ActionStatus.executing h =
    (refl, stale-claimed_within a.started_at timeout at h, refl)
ready_guards a timeout at _ h = absurd (ground arith)

module _ (platform : Platform) where
  -- An action that the batch's query selects and that is below the limit passes every test of a claim
  -- at the same time and with the same bounds: it is due, in a status that may start, and its claim, if
  -- it has one, is stale.
  pub is_executable-check_claim :
      (a : RecoveryAction) (bounds : Bounds) (at : Datetime)
      → is_executable bounds.claim_timeout bounds.maximum_attempts at a ≡ true
      → ltb_ℤ (pos a.execution_attempt_count) bounds.maximum_attempts ≡ true
      → check_claim platform a bounds at ≡ ok tt
  unfolding check_claim
  is_executable-check_claim a bounds at h below =
      let ready : is_ready a bounds.claim_timeout at a.status ≡ true = ground arith in
      let (due, stale, may) = ready_guards a bounds.claim_timeout at a.status ready in
      let left : leb_ℤ bounds.maximum_attempts (pos a.execution_attempt_count) ≡ false =
        ground arith in
      simp (due, stale, may, left)
