-- ===== src/Recovery/Policy/Allowed.antt =====
-- When the policy allows a proposal, against a list of conditions that names no guardrail.
use reclaim_rail.Base.{
  ℤ, ◌≤ℤ◌, ◌<ℤ◌, ◌≡◌, ◌≢◌, ◌↔◌, ◌⊎◌, inl, inr, true, false, Option, none, some, is_some, nonempty,
  Result, ok, err, ap, sym, ◌∙◌, String, Datetime, arith, eq_of_parts, eq_iff, Bool-cases,
}
use reclaim_rail.Payments.State.{stops_recovery}
use reclaim_rail.Recovery.Models.{
  CaseSnapshot, ActionProposal, PolicyOutcome, allow, block, stop, create_payment_link,
  stop_recovery, escalate_human, escalated, PolicyDecision, is_link, contacts_customer,
}
use reclaim_rail.Recovery.Policy.{
  RecoveryPolicy, verdict, evaluate_recovery_proposal, is_terminal, is_automated, breaks_circuit,
  in_quiet_period, stop_guardrails, block_guardrails, escalate_guardrails, differs_amount,
  differs_currency,
}
use reclaim_rail.Recovery.Policy.Decided.{evaluate-total}

pub differs_amount_iff : (o : Option ℤ) (a : ℤ) → (differs_amount o a ≡ false) ↔ (o ≡ some a)
differs_amount_iff none a = ground arith
differs_amount_iff (some b) a = ground (arith, eq_of_parts b a)

pub differs_currency_iff :
    (o : Option String) (s : String) → (differs_currency o s ≡ false) ↔ (o ≡ some s)
differs_currency_iff none s = ground arith
differs_currency_iff (some r) s = ground (arith, eq_iff r s)

abbrev outcome_of : Result PolicyDecision → PolicyOutcome
outcome_of (ok d) = d.outcome
outcome_of (err _) = block

module _ (policy : RecoveryPolicy) (c : CaseSnapshot) (p : ActionProposal) (t : Datetime) where
  -- the case is open to automation
  pub record IsOpen : Type 0 where
    pub running : is_terminal c.status ≡ false
    pub unpaid : stops_recovery c.payment_state ≡ false
    pub not_late : c.late_authorization_detected_at ≡ none
    pub not_escalated : c.status ≢ escalated
    pub attempts_left : c.recovery_attempt_count <ℤ policy.maximum_recovery_attempts

  -- the action fits the case
  pub record IsFitting : Type 0 where
    pub acts : (p.action_type ≢ stop_recovery) × (p.action_type ≢ escalate_human)
    pub rail_up :
        (is_automated p.action_type ≡ false)
        ⊎ (breaks_circuit policy.circuit_breaker_severities c.active_incident_severity ≡ false)
    pub link_exact :
        (p.action_type ≢ create_payment_link)
        ⊎ (c.active_payment_link_id ≡ none)
          × (p.amount_minor ≡ some c.amount_minor)
          × (p.currency ≡ some c.currency)
          × (c.amount_minor ≤ℤ policy.automatic_amount_limit_minor)
    pub contact_due :
        (contacts_customer p.action_type ≡ false)
        ⊎ (c.customer_contact_allowed ≡ true)
          × (in_quiet_period c.last_customer_contact_at policy.customer_quiet_period t ≡ false)

  stops_iff : (nonempty (stop_guardrails c) ≡ false) ↔ (
      (is_terminal c.status ≡ false)
      × (stops_recovery c.payment_state ≡ false)
      × (c.late_authorization_detected_at ≡ none))
  unfolding stop_guardrails
  stops_iff = ground arith

  unraised_fitting :
      nonempty (block_guardrails policy c p t) ≡ false
      → nonempty (escalate_guardrails policy p) ≡ false
      → p.action_type ≢ stop_recovery
      → p.action_type ≢ escalate_human
      → IsFitting
  unfolding block_guardrails escalate_guardrails
  unraised_fitting b e s h = record {
    acts = (s, h);
    rail_up = ground arith;
    link_exact = elim (Bool-cases (is_link p.action_type)) [
      | inl link ↦ inr (
        ground arith,
        ground (arith, differs_amount_iff p.amount_minor c.amount_minor),
        ground (arith, differs_currency_iff p.currency c.currency),
        ground (arith, differs_amount_iff p.amount_minor c.amount_minor),
      )
      | inr other ↦ inl (λ q. ground arith)
    ];
    contact_due = ground arith;
  }

  fitting_unraised :
      IsFitting
      → (nonempty (block_guardrails policy c p t) ≡ false)
        × (nonempty (escalate_guardrails policy p) ≡ false)
  unfolding block_guardrails escalate_guardrails
  fitting_unraised f = ground (
    arith,
    differs_amount_iff p.amount_minor c.amount_minor,
    differs_currency_iff p.currency c.currency,
  )

  verdict_allow_open : (verdict policy c p t).0 ≡ allow → IsOpen
  unfolding verdict
  verdict_allow_open h = record {
    running = ground (arith, stops_iff);
    unpaid = ground (arith, stops_iff);
    not_late = ground (arith, stops_iff);
    not_escalated = λ e. ground arith;
    attempts_left = ground arith;
  }

  verdict_allow_fitting : (verdict policy c p t).0 ≡ allow → IsFitting
  unfolding verdict
  verdict_allow_fitting h =
      unraised_fitting (ground arith) (ground arith) (λ e. ground arith) (λ e. ground arith)

  allow_verdict : IsOpen → IsFitting → (verdict policy c p t).0 ≡ allow
  unfolding verdict
  allow_verdict o f = ground (arith, stops_iff, fitting_unraised f)

  pub aware_of_evaluated :
      {d : PolicyDecision} → evaluate_recovery_proposal policy c p t ≡ ok d → t.tz_aware ≡ true
  unfolding evaluate_recovery_proposal
  aware_of_evaluated h = ground arith

  stopped_verdict :
      ((is_terminal c.status ≡ true)
        ⊎ (stops_recovery c.payment_state ≡ true)
        ⊎ (is_some c.late_authorization_detected_at ≡ true))
      → (verdict policy c p t).0 ≡ stop
  unfolding verdict stop_guardrails
  stopped_verdict h = ground arith

  module _ (d : PolicyDecision) (evaluated : evaluate_recovery_proposal policy c p t ≡ ok d) where
    pub outcome_verdict : d.outcome ≡ (verdict policy c p t).0
    outcome_verdict =
        ap (λ r. outcome_of r)
          (sym evaluated ∙ evaluate-total policy c p t (aware_of_evaluated evaluated))

    -- When the evaluation returns a decision, it allows the proposal exactly when the case is
    -- open to automation (running, unpaid, without a late authorization, not escalated, with
    -- attempts left) and the action fits it: it neither stops nor escalates, no incident
    -- breaks the circuit for it, a payment link is the only one and carries the amount and the
    -- currency of the payment within the automatic limit, and a contact has consent and lies
    -- outside the quiet period.
    pub evaluate-allow : (d.outcome ≡ allow) ↔ (IsOpen × IsFitting)
    evaluate-allow = (
      λ h.
          let v : (verdict policy c p t).0 ≡ allow = sym outcome_verdict ∙ h in
          (verdict_allow_open v, verdict_allow_fitting v),
      λ h. outcome_verdict ∙ allow_verdict h.0 h.1,
    )

    -- When the evaluation returns a decision, a case that has ended, a payment that has come
    -- through and a late authorization make it stop recovery, whatever is proposed.
    pub evaluate-stop :
        ((is_terminal c.status ≡ true)
          ⊎ (stops_recovery c.payment_state ≡ true)
          ⊎ (is_some c.late_authorization_detected_at ≡ true))
        → d.outcome ≡ stop
    evaluate-stop h = outcome_verdict ∙ stopped_verdict h
