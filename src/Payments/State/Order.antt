-- ===== src/Payments/State/Order.antt =====
-- The lifecycle against an independent order of the states: how far a payment has come.
use reclaim_rail.Base.{ℕ, ◌<◌, ◌≡◌, refl, ◌↔◌, ◌⊎◌, ◌||◌, true, arith, ltb, if◌then◌else◌}
use reclaim_rail.Payments.State.{
  PaymentState, unknown, created, failed, authorized, captured, refunded, ignored,
  late_authorization, decide_payment_transition, stops_recovery, value, parse, is_applied,
  regression_blocked, terminal_state, duplicate_state, invalid_target,
}
use reclaim_rail.Base.{some}

abbrev pub rank : PaymentState → ℕ
rank unknown = 0
rank created = 1
rank failed = 2
rank authorized = 3
rank captured = 4
rank refunded = 5

pub rank_inj : (a b : PaymentState) → rank a ≡ rank b → a ≡ b
rank_inj a b h = ground arith

-- An incoming state is applied exactly when it lies strictly further along the lifecycle; then it
-- is the next state, and otherwise the state stays as it is.
pub decide-rank :
    (c i : PaymentState)
    → let d = decide_payment_transition c i in
      (is_applied d.outcome ≡ ltb (rank c) (rank i))
      × (d.next_state ≡ (if ltb (rank c) (rank i) then i else c))
      × (d.previous_state ≡ c)
unfolding decide_payment_transition
decide-rank c i = ground arith

-- Recovery is reported as stopped exactly when the payment was in a stop state or the state after
-- the decision is one, and from a stop state every event leads to a stop state.
pub decide-stop :
    (c i : PaymentState)
    → let d = decide_payment_transition c i in
      (d.stop_recovery ≡ (stops_recovery c || stops_recovery d.next_state))
      × (d.stop_recovery ≡ stops_recovery d.next_state)
unfolding decide_payment_transition
decide-stop c i = ground arith

-- A late authorization is reported exactly for a failed payment that an authorized or captured
-- event reaches, and exactly then it is the reason of the decision.
pub decide-late :
    (c i : PaymentState)
    → let d = decide_payment_transition c i in
      ((d.late ≡ true) ↔ ((c ≡ failed) × ((i ≡ authorized) ⊎ (i ≡ captured))))
      × ((d.late ≡ true) ↔ (d.reason ≡ late_authorization))
unfolding decide_payment_transition
decide-late c i = ground arith

-- An event that is not applied names why: no target, the same state again, the end of the
-- lifecycle, or a step back.
pub decide-ignored :
    (c i : PaymentState)
    → (decide_payment_transition c i).outcome ≡ ignored
    → let r = (decide_payment_transition c i).reason in
      ((r ≡ invalid_target) × (i ≡ unknown))
      ⊎ (r ≡ duplicate_state) × (i ≡ c)
      ⊎ (r ≡ terminal_state) × (c ≡ refunded)
      ⊎ (r ≡ regression_blocked) × (rank i < rank c)
unfolding decide_payment_transition
decide-ignored c i h = ground arith

-- The text of a state reads back as that state.
pub parse-value : (s : PaymentState) → parse (value s) ≡ some s
unfolding parse
parse-value unknown = refl
parse-value created = refl
parse-value failed = refl
parse-value authorized = refl
parse-value captured = refl
parse-value refunded = refl
