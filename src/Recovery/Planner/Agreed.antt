-- ===== src/Recovery/Planner/Agreed.antt =====
-- The payment link of a plan against the policy that decides it.
use mathlib.Core.List.{Memᴰ}
use reclaim_rail.Base.{
  ◌≡◌, ◌≢◌, refl, sym, subst, ◌≤ℤ◌, ◌<ℤ◌, ℕ, zero, suc, Bool, true, false, not, ◌&&◌, ◌||◌, Option,
  none, List, [], ◌∷◌, ◌++◌, String, all, take, ok, map_ok, map_ok-cons, Result-cases, inl, inr,
  arith, pos_part, eq_refl, Datetime,
}
use reclaim_rail.Payments.State.{stops_recovery}
use reclaim_rail.Incidents.{IncidentSeverity, high, critical}
use reclaim_rail.Recovery.Models.{
  CaseSnapshot, make_case_snapshot, ActionProposal, make_action_proposal, currency_code, is_link,
  create_payment_link, escalated, allow, PolicyDecision,
}
use reclaim_rail.Recovery.Normal.{currency_code_again}
use reclaim_rail.Recovery.Policy.{
  RecoveryPolicy, is_terminal, breaks_circuit, differs_amount, differs_currency,
  evaluate_recovery_proposal,
}
use reclaim_rail.Recovery.Policy.Allowed.{evaluate-allow, differs_amount_iff, differs_currency_iff}
use reclaim_rail.Recovery.Plans.{PlanningContext, PlannerPolicy, RecoveryPlan, make_recovery_plan}
use reclaim_rail.Recovery.Planner.{
  is_degraded, bounded_plan, draft_plan, build_deterministic_recovery_plan, messages, offers,
  preferred_channel, alternate_method,
}
use reclaim_rail.Recovery.Planner.Planned.{proposes, proposals_drafted}

-- a payment link carries the amount and the currency of the case
abbrev exact : CaseSnapshot → ActionProposal → Bool
exact c q =
    not (is_link q.action_type)
    || (not (differs_amount q.amount_minor c.amount_minor)
        && not (differs_currency q.currency c.currency))

all-take {ℓ} :
    {A : Type ℓ} (t : A → Bool) (n : ℕ) (xs : List A) → all t xs ≡ true → all t (take n xs) ≡ true
all-take t zero xs h = refl
all-take t (suc n) [] h = refl
all-take t (suc n) (x ∷ xs) h = ground (arith, all-take t n xs)

all-mem {ℓ} :
    {A : Type ℓ} (t : A → Bool) {a : A} {xs : List A} → all t xs ≡ true → Memᴰ a xs → t a ≡ true
all-mem t {a} {xs = []} h m = elim m [ ]
all-mem t {a} {xs = x ∷ xs} h (Memᴰ.head e) = subst (λ y. t y ≡ true) (sym e) (ground arith)
all-mem t {a} {xs = x ∷ xs} h (Memᴰ.tail m) = all-mem t (ground arith) m

proposes-mem :
    {q : ActionProposal} {qs : List ActionProposal}
    → Memᴰ q qs
    → is_link q.action_type ≡ true
    → proposes is_link qs ≡ true
proposes-mem {q} {qs = []} m h = elim m [ ]
proposes-mem {q} {qs = r ∷ qs} (Memᴰ.head e) h =
    ground (arith, subst (λ y. is_link y.action_type ≡ true) e h)
proposes-mem {q} {qs = r ∷ qs} (Memᴰ.tail m) h = ground (arith, proposes-mem m h)

module _ (c : CaseSnapshot) (normal : currency_code c.currency ≡ ok c.currency) where
  exact-make :
      (d q : ActionProposal) → make_action_proposal d ≡ ok q → exact c d ≡ true → exact c q ≡ true
  unfolding make_action_proposal
  exact-make d q h e = ground (
    arith,
    normal,
    differs_currency_iff d.currency c.currency,
    differs_currency_iff q.currency c.currency,
  )

  exact-map_ok :
      (ds qs : List ActionProposal)
      → map_ok make_action_proposal ds ≡ ok qs
      → all (exact c) ds ≡ true
      → all (exact c) qs ≡ true
  exact-map_ok [] qs h e = ground arith
  exact-map_ok (d ∷ ds) qs h e =
      let (y, ys, p, q, r) = map_ok-cons make_action_proposal d ds qs h in
      rw r (ground (arith, exact-make d y p, exact-map_ok ds ys q))

module _ (x : PlanningContext) (policy : PlannerPolicy) where
  exact-offers-messages :
      (r : String)
      → let b = x.case.customer_contact_allowed in
        let o = preferred_channel x.available_channels in
        let m = alternate_method x.case.payment_method x.alternate_payment_methods in
        (all (exact x.case) (messages b o r) ≡ true)
        × (all (exact x.case) (offers b o m ++ messages b o r) ≡ true)
  exact-offers-messages r = ground arith

  exact-drafts : all (exact x.case) (draft_plan x policy).2 ≡ true
  unfolding draft_plan
  exact-drafts = ground (
    arith,
    eq_refl x.case.currency,
    exact-offers-messages "Send the existing recovery link through an approved channel",
    exact-offers-messages "Send one recovery message through an approved channel",
  )

  link_drafted :
      proposes is_link (draft_plan x policy).2 ≡ true
      → (is_terminal x.case.status ≡ false)
        × (stops_recovery x.case.payment_state ≡ false)
        × (x.case.late_authorization_detected_at ≡ none)
        × (x.case.status ≢ escalated)
        × (x.case.recovery_attempt_count <ℤ policy.maximum_recovery_attempts)
        × (x.case.amount_minor ≤ℤ policy.automatic_amount_limit_minor)
        × (is_degraded x.case.active_incident_severity ≡ false)
        × (x.case.active_payment_link_id ≡ none)
  unfolding draft_plan
  link_drafted h = ground arith

  proposals_exact :
      (p : RecoveryPlan)
      → build_deterministic_recovery_plan x policy ≡ ok p
      → currency_code x.case.currency ≡ ok x.case.currency
      → all (exact x.case) p.proposals ≡ true
  unfolding build_deterministic_recovery_plan bounded_plan make_recovery_plan
  proposals_exact p planned normal =
      elim (Result-cases (map_ok make_action_proposal (draft_plan x policy).2)) [
        | inl (e, r) ↦ absurd (ground arith)
        | inr (qs, r) ↦
            (let taken : p.proposals ≡ take (pos_part policy.maximum_plan_actions) qs =
                ground arith in
              rw taken (
                all-take (exact x.case) (pos_part policy.maximum_plan_actions) qs
                  (exact-map_ok x.case normal (draft_plan x policy).2 qs r exact-drafts)))
      ]

degraded_breaks :
    (o : Option IncidentSeverity) → breaks_circuit (high ∷ critical ∷ []) o ≡ is_degraded o
degraded_breaks o = ground arith

-- For a case that its constructor accepts and a policy with the planner's limits that breaks the
-- circuit for high and critical incidents, every payment link of a plan is a proposal that the
-- policy allows, whenever it decides.
pub plan_link-allowed :
    (rc : CaseSnapshot) (x : PlanningContext) (policy : PlannerPolicy) (p : RecoveryPlan)
    (q : ActionProposal) (rules : RecoveryPolicy) (t : Datetime) (d : PolicyDecision)
    → make_case_snapshot rc ≡ ok x.case
    → build_deterministic_recovery_plan x policy ≡ ok p
    → Memᴰ q p.proposals
    → q.action_type ≡ create_payment_link
    → rules.maximum_recovery_attempts ≡ policy.maximum_recovery_attempts
    → rules.automatic_amount_limit_minor ≡ policy.automatic_amount_limit_minor
    → rules.circuit_breaker_severities ≡ high ∷ critical ∷ []
    → evaluate_recovery_proposal rules x.case q t ≡ ok d
    → d.outcome ≡ allow
unfolding make_case_snapshot
plan_link-allowed rc x policy p q rules t d made planned m link attempts limit severities decided =
    let c : currency_code rc.currency ≡ ok x.case.currency = ground arith in
    let exact_q =
      all-mem (exact x.case)
        (proposals_exact x policy p planned (currency_code_again rc.currency c)) m in
    let (run, unpaid, late, unescalated, left, within, up, single) =
      link_drafted x policy
        (proposals_drafted x policy p planned is_link (proposes-mem m (ground arith))) in
    (evaluate-allow rules x.case q t d decided).1 (
      record {
        running = run;
        unpaid = unpaid;
        not_late = late;
        not_escalated = unescalated;
        attempts_left = rw attempts left;
      },
      record {
        acts = (λ e. ground arith, λ e. ground arith);
        rail_up =
            inr (rw severities (ground (arith, degraded_breaks x.case.active_incident_severity)));
        link_exact = inr (
          single,
          ground (arith, differs_amount_iff q.amount_minor x.case.amount_minor),
          ground (arith, differs_currency_iff q.currency x.case.currency),
          rw limit within,
        );
        contact_due = inl (ground arith);
      },
    )
