-- ===== src/Recovery/Planner/Total.antt =====
-- Every case that its constructor accepts gets a plan.
use reclaim_rail.Base.{
  ◌≡◌, refl, ℕ, zero, suc, ◌≤◌, Bool, true, false, ◌&&◌, leb_ℤ, pos, pos_part, Option, List, [],
  ◌∷◌, ◌++◌, all, take, nonempty, length, ok, is_ok, map_ok, Result-cases, inl, inr, arith, strip,
  lstrip, rstrip, is_space, if◌then◌else◌, is_empty, String,
}
use reclaim_rail.Recovery.Models.{
  CaseSnapshot, make_case_snapshot, ActionProposal, make_action_proposal, currency_code, Channel,
  stop_recovery, escalate_human,
}
use reclaim_rail.Recovery.Normal.{currency_code_again}
use reclaim_rail.Recovery.Plans.{
  PlanDecision, PlanningContext, PlannerPolicy, RecoveryPlan, make_planning_context,
  make_planner_policy, make_recovery_plan,
}
use reclaim_rail.Recovery.Planner.{
  build_recovery_evidence_codes, bounded_plan, draft_plan, build_deterministic_recovery_plan,
  link_draft, propose, preferred_channel, alternate_method, wait_draft, messages, offers,
}

-- the code of a proposal or an error
abbrev makes : ActionProposal → Bool
makes d = is_ok (make_action_proposal d)

map_ok-makes :
    (ds : List ActionProposal) → all makes ds ≡ true → is_ok (map_ok make_action_proposal ds) ≡ true
map_ok-makes [] h = refl
map_ok-makes (d ∷ ds) h = ground (arith, map_ok-makes ds)

nonempty-map_ok :
    (ds qs : List ActionProposal)
    → map_ok make_action_proposal ds ≡ ok qs
    → nonempty qs ≡ nonempty ds
nonempty-map_ok [] qs h = ground arith
nonempty-map_ok (d ∷ ds) qs h = ground arith

length-take_le {ℓ} : {A : Type ℓ} (n : ℕ) (xs : List A) → length (take n xs) ≤ n
length-take_le zero xs = omega arith
length-take_le (suc n) [] = omega arith
length-take_le (suc n) (x ∷ xs) = omega (arith, length-take_le n xs)

nonempty-take {ℓ} : {A : Type ℓ} (n : ℕ) (xs : List A) → 1 ≤ n → nonempty (take n xs) ≡ nonempty xs
nonempty-take zero xs h = absurd (omega arith)
nonempty-take (suc n) [] h = refl
nonempty-take (suc n) (x ∷ xs) h = refl

pub all-append {ℓ} :
    {A : Type ℓ} (t : A → Bool) (xs ys : List A) → all t (xs ++ ys) ≡ (all t xs && all t ys)
all-append t [] ys = refl
all-append t (x ∷ xs) ys = ground (arith, all-append t xs ys)

-- the texts of the planner are not blank
visible_1 : is_empty (strip "Wait for the active payment incident to recover") ≡ false
unfolding strip lstrip rstrip is_space
visible_1 = refl

visible_2 : is_empty (strip "Wait for an approved customer recovery channel") ≡ false
unfolding strip lstrip rstrip is_space
visible_2 = refl

visible_3 : is_empty (strip "Send the existing recovery link through an approved channel") ≡ false
unfolding strip lstrip rstrip is_space
visible_3 = refl

visible_4 : is_empty (strip "Send one recovery message through an approved channel") ≡ false
unfolding strip lstrip rstrip is_space
visible_4 = refl

makes-stop :
    makes (propose stop_recovery "Stop recovery because terminal payment evidence is present")
    ≡ true
unfolding make_action_proposal strip lstrip rstrip is_space
makes-stop = refl

makes-escalate :
    makes (propose escalate_human "Escalate because bounded automation limits were reached") ≡ true
unfolding make_action_proposal strip lstrip rstrip is_space
makes-escalate = refl

visible-version : is_empty (strip "deterministic-v1") ≡ false
unfolding strip lstrip rstrip is_space
visible-version = refl

visible-if :
    (b : Bool) (d e : PlanDecision × String × List ActionProposal)
    → is_empty (strip d.1) ≡ false
    → is_empty (strip e.1) ≡ false
    → is_empty (strip (if b then d else e).1) ≡ false
visible-if true d e h k = h
visible-if false d e h k = k

visible_summaries :
    (is_empty (strip "Payment or recovery case is already terminal; stop intervention") ≡ false)
    × (is_empty (strip "Automation boundary reached; require human review") ≡ false)
    × (is_empty (strip "Payment rail is degraded; pause customer intervention") ≡ false)
    × (is_empty (strip "Reuse the existing payment link and send one bounded reminder") ≡ false)
    × (is_empty (strip "A payment link exists but no approved contact channel is available")
        ≡ false)
    × (is_empty (strip "Payment remains failed and is eligible for bounded recovery") ≡ false)
unfolding strip lstrip rstrip is_space
visible_summaries = (refl, refl, refl, refl, refl, refl)

module _ (x : PlanningContext) (policy : PlannerPolicy) where
  makes-link_draft :
      leb_ℤ x.case.amount_minor (pos 0) ≡ false
      → currency_code x.case.currency ≡ ok x.case.currency
      → makes (link_draft x.case) ≡ true
  unfolding make_action_proposal strip lstrip rstrip is_space
  makes-link_draft a c = ground arith

  makes-wait_draft :
      x.planned_at.tz_aware ≡ true
      → (r : String) → is_empty (strip r) ≡ false
      → makes (wait_draft r x policy) ≡ true
  unfolding make_action_proposal
  makes-wait_draft a r h = ground arith

  makes-messages :
      (b : Bool) (o : Option Channel) (r : String)
      → is_empty (strip r) ≡ false
      → all makes (messages b o r) ≡ true
  unfolding make_action_proposal
  makes-messages b o r h = ground arith

  makes-offers :
      (b : Bool) (o : Option Channel) (m : Option String) → all makes (offers b o m) ≡ true
  unfolding make_action_proposal strip lstrip rstrip is_space
  makes-offers b o m = ground arith

  -- every draft of the plan becomes a proposal
  makes-drafts :
      leb_ℤ x.case.amount_minor (pos 0) ≡ false
      → currency_code x.case.currency ≡ ok x.case.currency
      → x.planned_at.tz_aware ≡ true
      → (all makes (draft_plan x policy).2 ≡ true) × (nonempty (draft_plan x policy).2 ≡ true)
  unfolding draft_plan
  makes-drafts a c t = ground (
    arith,
    makes-link_draft a c,
    makes-wait_draft t "Wait for the active payment incident to recover" visible_1,
    makes-wait_draft t "Wait for an approved customer recovery channel" visible_2,
    makes-messages x.case.customer_contact_allowed (preferred_channel x.available_channels)
        "Send the existing recovery link through an approved channel" visible_3,
    all-append makes
        (offers x.case.customer_contact_allowed (preferred_channel x.available_channels)
          (alternate_method x.case.payment_method x.alternate_payment_methods))
        (messages x.case.customer_contact_allowed (preferred_channel x.available_channels)
          "Send one recovery message through an approved channel"),
    makes-offers x.case.customer_contact_allowed (preferred_channel x.available_channels)
        (alternate_method x.case.payment_method x.alternate_payment_methods),
    makes-messages x.case.customer_contact_allowed (preferred_channel x.available_channels)
        "Send one recovery message through an approved channel" visible_4,
    makes-stop,
    makes-escalate,
  )

  visible-summary : is_empty (strip (draft_plan x policy).1) ≡ false
  unfolding draft_plan
  visible-summary = let (v, w, y, z, r, q) = visible_summaries in search visible-if

  -- a plan of made proposals is accepted
  bounded-total :
      (ds : List ActionProposal)
      → all makes ds ≡ true
      → nonempty ds ≡ true
      → x.planned_at.tz_aware ≡ true
      → (leb_ℤ (pos 1) policy.maximum_plan_actions && leb_ℤ policy.maximum_plan_actions (pos 3))
        ≡ true
      → is_ok (bounded_plan (draft_plan x policy).0 (draft_plan x policy).1 ds x policy) ≡ true
  unfolding bounded_plan make_recovery_plan build_recovery_evidence_codes
  bounded-total ds m n t l = elim (Result-cases (map_ok make_action_proposal ds)) [
    | inl (e, r) ↦ absurd (ground (arith, map_ok-makes ds m))
    | inr (qs, r) ↦ ground (
      arith,
      visible-summary,
      visible-version,
      nonempty-map_ok ds qs r,
      nonempty-take (pos_part policy.maximum_plan_actions) qs,
      length-take_le (pos_part policy.maximum_plan_actions) qs,
    )
  ]

-- A case, a context and limits that their constructors accept get a plan, where no time is too
-- late to be a date.
pub plan-total :
    (rc : CaseSnapshot) (rx x : PlanningContext) (rp policy : PlannerPolicy)
    → make_case_snapshot rc ≡ ok x.case
    → make_planning_context rx ≡ ok x
    → make_planner_policy rp ≡ ok policy
    → (p : RecoveryPlan) × (build_deterministic_recovery_plan x policy ≡ ok p)
unfolding make_case_snapshot make_planning_context make_planner_policy
    build_deterministic_recovery_plan
plan-total rc rx x rp policy hc hx hp =
    let c : currency_code rc.currency ≡ ok x.case.currency = ground arith in
    let a : leb_ℤ x.case.amount_minor (pos 0) ≡ false = ground arith in
    let t : x.planned_at.tz_aware ≡ true = ground arith in
    let l : (leb_ℤ (pos 1) policy.maximum_plan_actions && leb_ℤ policy.maximum_plan_actions (pos 3))
        ≡ true =
      ground arith in
    let (m, n) = makes-drafts x policy a (currency_code_again rc.currency c) t in
    elim (Result-cases (build_deterministic_recovery_plan x policy)) [
      | inr (p, r) ↦ (p, r)
      | inl (e, r) ↦ absurd (ground (arith, bounded-total x policy (draft_plan x policy).2 m n t l))
    ]
