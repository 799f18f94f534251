-- ===== src/Projection/Applied.antt =====
-- What applying one event does to the row of its payment.
use reclaim_rail.Base.{
  ◌+◌, ℤ, ◌≡◌, refl, sym, subst, ◌⊎◌, inl, inr, Bool, true, false, Option, none, some, is_some, ok,
  Datetime, arith, if◌then◌else◌, eq_iff, eq_of_parts, Option-cases, Bool-cases,
}
use reclaim_rail.Payments.State.{
  PaymentState, failed, value, parse, same, stops_recovery, decide_payment_transition,
  TransitionOutcome, Decision, is_applied, applied, ignored,
}
use reclaim_rail.Payments.State.Order.{decide-rank, decide-stop, parse-value}
use reclaim_rail.Payments.Truth.{PaymentEvidenceSource}
use reclaim_rail.Projection.{
  LifecycleEvent, PaymentAttempt, StateTransition, validate_payment_identity,
  apply_applied_transition, apply_payment_event_to_projection,
}

abbrev pub stops : Option PaymentState → Bool
stops none = false
stops (some s) = stops_recovery s

-- The state is one of the lifecycle's; a payment in a stop state is marked as stopped; and recovery
-- is offered for failed payments that are not stopped only.
pub record IsConsistent (a : PaymentAttempt) : Type 0 where
  pub known : is_some (parse a.current_state) ≡ true
  pub stopped : stops (parse a.current_state) ≡ true → is_some a.recovery_stopped_at ≡ true
  pub eligible_failed : a.recovery_eligible ≡ true → parse a.current_state ≡ some failed
  pub eligible_open : a.recovery_eligible ≡ true → a.recovery_stopped_at ≡ none

Outcome-cases : (o : TransitionOutcome) → (o ≡ applied) ⊎ (o ≡ ignored)
Outcome-cases applied = inl refl
Outcome-cases ignored = inr refl

applied_fields :
    (a : PaymentAttempt) (e : LifecycleEvent) (d : Decision) (now : Datetime)
    → let a' = apply_applied_transition a e d now in
      (a'.state_version ≡ a.state_version + 1) × (a'.current_state ≡ value d.next_state)
unfolding apply_applied_transition
applied_fields a e d now = ground arith

applied-IsConsistent :
    (a : PaymentAttempt) (e : LifecycleEvent) (d : Decision) (now : Datetime)
    → d.stop_recovery ≡ stops_recovery d.next_state
    → IsConsistent (apply_applied_transition a e d now)
unfolding apply_applied_transition
applied-IsConsistent a e d now stop = elim (Bool-cases (same d.next_state failed)) [
  | inl f ↦ record {
    known = ground (arith, parse-value d.next_state);
    stopped = ground (arith, parse-value d.next_state);
    eligible_failed = ground (arith, parse-value d.next_state);
    eligible_open = ground arith;
  }
  | inr g ↦ record {
    known = ground (arith, parse-value d.next_state);
    stopped = ground (arith, parse-value d.next_state);
    eligible_failed = ground arith;
    eligible_open = ground arith;
  }
]

module _ (to_ms : ℤ → ℤ) (a : PaymentAttempt) (e : LifecycleEvent) (now : Datetime)
    (source : PaymentEvidenceSource) (a' : PaymentAttempt) (t : StateTransition)
    (projected : apply_payment_event_to_projection to_ms a e now source ≡ ok (a', t)) where
  -- When applying an event returns, the event agrees with the row on provider, payment, amount
  -- and currency, and the row keeps these, its identifier and its time of creation.
  pub apply-identity :
      (a.provider ≡ e.provider)
      × (a.provider_payment_id ≡ e.payment_id)
      × (a.amount_minor ≡ e.amount_minor)
      × (a.currency ≡ e.currency)
      × (a'.id ≡ a.id)
      × (a'.provider ≡ a.provider)
      × (a'.provider_payment_id ≡ a.provider_payment_id)
      × (a'.amount_minor ≡ a.amount_minor)
      × (a'.currency ≡ a.currency)
      × (a'.created_at ≡ a.created_at)
  unfolding apply_payment_event_to_projection validate_payment_identity apply_applied_transition
  apply-identity = ground (
    arith,
    eq_iff a.provider e.provider,
    eq_iff a.provider_payment_id e.payment_id,
    eq_iff a.currency e.currency,
    eq_of_parts a.amount_minor e.amount_minor,
  )

  -- The decision behind a projection that returned.
  apply-inversion :
      (s : PaymentState) × (parse a.current_state ≡ some s)
      × (a' ≡ (
          if is_applied (decide_payment_transition s e.state).outcome
          then apply_applied_transition a e (decide_payment_transition s e.state) now
          else a))
      × (t.outcome ≡ (decide_payment_transition s e.state).outcome)
      × (t.previous_state ≡ (decide_payment_transition s e.state).previous_state)
      × (t.resulting_state ≡ (decide_payment_transition s e.state).next_state)
      × (t.resulting_version ≡ a'.state_version)
  unfolding apply_payment_event_to_projection
  apply-inversion = elim (Option-cases (parse a.current_state)) [
    | inl e ↦ absurd (ground arith)
    | inr (s, p) ↦ (s, p, ground arith, ground arith, ground arith, ground arith, ground arith)
  ]

  -- When applying an event returns, the version of the row grows by one exactly when the
  -- transition is applied, and the row is otherwise left as it was; the audit row carries the
  -- version and the states of the row before and after.
  pub apply-version :
      (((t.outcome ≡ applied) × (a'.state_version ≡ a.state_version + 1))
        ⊎ (t.outcome ≡ ignored) × (a' ≡ a))
      × (t.resulting_version ≡ a'.state_version)
      × (parse a'.current_state ≡ some t.resulting_state)
      × (parse a.current_state ≡ some t.previous_state)
  apply-version =
      let (s, p, eq_a, eq_o, eq_p, eq_r, eq_v) = apply-inversion in
      let d = decide_payment_transition s e.state in
      ground (
        arith,
        applied_fields a e d now,
        parse-value d.next_state,
        decide-rank s e.state,
        Outcome-cases d.outcome,
      )

  -- When applying an event to a consistent row returns, the row stays consistent.
  pub apply-IsConsistent : IsConsistent a → IsConsistent a'
  apply-IsConsistent c =
      let (s, p, eq_a, eq_o, eq_p, eq_r, eq_v) = apply-inversion in
      let d = decide_payment_transition s e.state in
      elim (Outcome-cases d.outcome) [
        | inl on ↦
            subst IsConsistent (sym (ground arith))
              (applied-IsConsistent a e d now (decide-stop s e.state).1)
        | inr off ↦ subst IsConsistent (sym (ground arith)) c
      ]
