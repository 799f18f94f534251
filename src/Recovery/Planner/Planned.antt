-- ===== src/Recovery/Planner/Planned.antt =====
-- What a plan of the deterministic planner may hold, and that every case gets one.
use reclaim_rail.Base.{
  ◌≡◌, ◌≢◌, ◌↔◌, ◌⊎◌, ◌≤ℤ◌, ◌<ℤ◌, Bool, true, false, none, List, [], ◌∷◌, any, take, nonempty, ok,
  map_ok, map_ok-cons, Result-cases, inl, inr, sym, zero, suc, ℕ, arith, pos_part,
}
use reclaim_rail.Payments.State.{stops_recovery}
use reclaim_rail.Recovery.Models.{
  ActionType, ActionProposal, escalated, make_action_proposal, contacts_customer, is_link,
}
use reclaim_rail.Recovery.Policy.{is_terminal}
use reclaim_rail.Recovery.Plans.{
  PlanningContext, PlannerPolicy, RecoveryPlan, recover, escalate, stop, make_recovery_plan,
}
use reclaim_rail.Recovery.Planner.{
  is_degraded, bounded_plan, draft_plan, build_deterministic_recovery_plan,
}

-- a proposal of the list passes a test of its action
abbrev pub proposes : (ActionType → Bool) → List ActionProposal → Bool
proposes test = any (λ q. test q.action_type)

pub proposes-take :
    (test : ActionType → Bool) (n : ℕ) (qs : List ActionProposal)
    → proposes test (take n qs) ≡ true
    → proposes test qs ≡ true
proposes-take test zero qs h = cc
proposes-take test (suc n) [] h = cc
proposes-take test (suc n) (q ∷ qs) h = ground (arith, proposes-take test n qs)

make_action : (d q : ActionProposal) → make_action_proposal d ≡ ok q → q.action_type ≡ d.action_type
unfolding make_action_proposal
make_action d q h = ground arith

proposes-map_ok :
    (test : ActionType → Bool) (ds qs : List ActionProposal)
    → map_ok make_action_proposal ds ≡ ok qs
    → proposes test qs ≡ proposes test ds
proposes-map_ok test [] qs h = ground arith
proposes-map_ok test (d ∷ ds) qs h =
    let (y, ys, p, q, e) = map_ok-cons make_action_proposal d ds qs h in
    rw (e, make_action d y p, proposes-map_ok test ds ys q)

module _ (x : PlanningContext) (policy : PlannerPolicy) (p : RecoveryPlan)
    (planned : build_deterministic_recovery_plan x policy ≡ ok p) where
  decision_draft : p.decision ≡ (draft_plan x policy).0
  unfolding build_deterministic_recovery_plan bounded_plan make_recovery_plan
  decision_draft = ground arith

  -- When a plan is returned, it stops exactly for a case that has ended, a completed payment and
  -- a late authorization, and escalates exactly when it does not stop and the case is escalated,
  -- has no attempt left, or is above the automatic limit.
  pub plan-decision :
      ((p.decision ≡ stop) ↔ (
        (is_terminal x.case.status ≡ true)
        ⊎ (stops_recovery x.case.payment_state ≡ true)
        ⊎ (x.case.late_authorization_detected_at ≢ none)))
      × ((p.decision ≡ escalate) ↔ (
          (p.decision ≢ stop)
          × ((x.case.status ≡ escalated)
              ⊎ (policy.maximum_recovery_attempts ≤ℤ x.case.recovery_attempt_count)
              ⊎ (policy.automatic_amount_limit_minor <ℤ x.case.amount_minor))))
  unfolding draft_plan
  plan-decision = ground (arith, decision_draft)

  pub proposals_drafted :
      (test : ActionType → Bool)
      → proposes test p.proposals ≡ true
      → proposes test (draft_plan x policy).2 ≡ true
  unfolding build_deterministic_recovery_plan bounded_plan make_recovery_plan
  proposals_drafted test h =
      elim (Result-cases (map_ok make_action_proposal (draft_plan x policy).2)) [
        | inl (e, r) ↦ absurd (ground arith)
        | inr (qs, r) ↦
            (let taken : p.proposals ≡ take (pos_part policy.maximum_plan_actions) qs =
                ground arith in
              ground (
                arith,
                proposes-map_ok test (draft_plan x policy).2 qs r,
                proposes-take test (pos_part policy.maximum_plan_actions) qs (rw (sym taken) h),
              ))
      ]

  -- When a plan that contacts the customer is returned, the case has the consent for it and no
  -- incident that pauses intervention, there is a channel to use, and the decision is to
  -- recover.
  pub plan-contact :
      proposes contacts_customer p.proposals ≡ true
      → (x.case.customer_contact_allowed ≡ true)
        × (nonempty x.available_channels ≡ true)
        × (is_degraded x.case.active_incident_severity ≡ false)
        × (p.decision ≡ recover)
  unfolding draft_plan
  plan-contact h = ground (arith, decision_draft, proposals_drafted contacts_customer h)

  -- When a plan that creates a payment link is returned, the case has no link and no incident
  -- that pauses intervention, and the decision is to recover.
  plan-link :
      proposes is_link p.proposals ≡ true
      → (x.case.active_payment_link_id ≡ none)
        × (is_degraded x.case.active_incident_severity ≡ false)
        × (p.decision ≡ recover)
  unfolding draft_plan
  plan-link h = ground (arith, decision_draft, proposals_drafted is_link h)
