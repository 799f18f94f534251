-- ===== src/Execution/Kept.antt =====
-- What one move of the executor keeps: the keys of the rows, the limit on the attempts, the check
-- constraints of the action and the lifecycle constraint of an open case.
use reclaim_rail.Base.{
  ℕ, ◌+◌, ◌≡◌, ◌≢◌, refl, sym, ◌∙◌, ap, subst, ℤ, pos, leb_ℤ, Bool, true, false, not, ◌&&◌, none,
  some, is_some, nonempty, ok, ok_inj, Datetime, shift, arith,
}
use reclaim_rail.Recovery.Models.{
  CaseSnapshot, ActionProposal, PolicyDecision, PolicyOutcome, allow, block, escalate, stop,
  is_allow,
}
use reclaim_rail.Recovery.Policy.{
  RecoveryPolicy, default_recovery_policy, verdict, evaluate_recovery_proposal,
}
use reclaim_rail.Recovery.Policy.Allowed.{aware_of_evaluated}
use reclaim_rail.Recovery.Policy.Decided.{evaluate-total, verdict_guardrails, nonempty-from_keys}
use reclaim_rail.Audit.Chain.{Platform}
use reclaim_rail.Storage.{ActionStatus, RecoveryCase, RecoveryAction, case_lifecycle}
use reclaim_rail.Storage.Checks.{
  action_checks, shape_checks, outcome_checks, fits_outcome, completion_shape,
}
use reclaim_rail.Execution.{is_executing, deny_case, policy_status}
use reclaim_rail.Execution.Finish.{delay_after}
use reclaim_rail.Execution.Moves.{startable, Move, denies, claims, completes, fails}

-- a decision has guardrails exactly when it does not allow
guardrails_allow :
    (policy : RecoveryPolicy) (s : CaseSnapshot) (q : ActionProposal) (t : Datetime)
    (d : PolicyDecision)
    → evaluate_recovery_proposal policy s q t ≡ ok d
    → nonempty d.guardrails ≡ not (is_allow d.outcome)
guardrails_allow policy s q t d h =
    let total = sym (evaluate-total policy s q t (aware_of_evaluated policy s q t h)) ∙ h in
    subst (λ e. nonempty e.guardrails ≡ not (is_allow e.outcome)) (ok_inj _ _ total)
      (nonempty-from_keys (verdict policy s q t).1 ∙ verdict_guardrails policy s q t)

deny_case-id : (o : PolicyOutcome) (at : Datetime) (c : RecoveryCase) → (deny_case o at c).id ≡ c.id
deny_case-id allow at c = refl
deny_case-id block at c = refl
deny_case-id escalate at c = refl
deny_case-id stop at c = refl

deny_case-lifecycle :
    (o : PolicyOutcome) (at : Datetime) (c : RecoveryCase)
    → c.recovered_at ≡ none
    → c.closed_at ≡ none
    → case_lifecycle (deny_case o at c) ≡ true
deny_case-lifecycle allow at c h k = simp (h, k)
deny_case-lifecycle block at c h k = simp (h, k)
deny_case-lifecycle escalate at c h k = simp (h, k)
deny_case-lifecycle stop at c h k = simp h

-- the constraints that a status brings
denied_checks :
    (o : PolicyOutcome) (guardrails? : Bool) (completed? error? : Bool)
    → o ≢ allow
    → guardrails? ≡ not (is_allow o)
    → (outcome_checks o guardrails? (policy_status o)
        && completion_shape (policy_status o) completed? error?)
      ≡ true
denied_checks allow g x y other h = absurd (other refl)
denied_checks block g x y other h = ground arith
denied_checks escalate g x y other h = ground arith
denied_checks stop g x y other h = ground arith

-- an action that is executed has been allowed, and may go on to any status of an allowed one
moved_status :
    (o : PolicyOutcome) (guardrails? : Bool) (s t : ActionStatus)
    → is_executing s ≡ true
    → fits_outcome allow t ≡ true
    → outcome_checks o guardrails? s ≡ true
    → outcome_checks o guardrails? t ≡ true
moved_status allow g ActionStatus.executing t r f h = ground arith
moved_status block g ActionStatus.executing t r f h = absurd (ground arith)
moved_status escalate g ActionStatus.executing t r f h = absurd (ground arith)
moved_status stop g ActionStatus.executing t r f h = absurd (ground arith)
moved_status o g _ t r f h = absurd (ground arith)

-- the check constraints of a row, apart
row_shape : (a : RecoveryAction) → action_checks a ≡ true → shape_checks a ≡ true
row_shape a h = ground arith

later_shape :
    (a : RecoveryAction) (t : Datetime)
    → action_checks a ≡ true
    → shape_checks (record a { execute_after = some t }) ≡ true
later_shape a t h = ground arith

row_moved :
    (a : RecoveryAction) (t : ActionStatus)
    → is_executing a.status ≡ true
    → fits_outcome allow t ≡ true
    → action_checks a ≡ true
    → outcome_checks a.policy_outcome (nonempty a.policy_guardrails) t ≡ true
row_moved a t r f h =
    let policy : outcome_checks a.policy_outcome (nonempty a.policy_guardrails) a.status ≡ true =
      ground arith in
    moved_status a.policy_outcome (nonempty a.policy_guardrails) a.status t r f policy

both : (x y : Bool) → x ≡ true → y ≡ true → (x && y) ≡ true
both x y h k = ground arith

grow : (maximum : ℤ) (n : ℕ) → leb_ℤ maximum (pos n) ≡ false → leb_ℤ (pos (n + 1)) maximum ≡ true
grow maximum n h = ground arith

module _ {platform : Platform} {maximum : ℤ} {a a' : RecoveryAction} {c c' : RecoveryCase} where
  pub Move-id : Move platform maximum a c a' c' → (a'.id ≡ a.id) × (c'.id ≡ c.id)
  Move-id (denies s q d checks lifetime at ready evaluated other p r) =
      (ap (λ x. x.id) p, ap (λ x. x.id) r ∙ deny_case-id d.outcome at c)
  Move-id (claims s q d checks lifetime at ready below evaluated same p r) =
      (ap (λ x. x.id) p, ap (λ x. x.id) r)
  Move-id (completes p link at running q r) = (ap (λ x. x.id) q, ap (λ x. x.id) r)
  Move-id (fails true e at running q r) = (ap (λ x. x.id) q, ap (λ x. x.id) r)
  Move-id (fails false e at running q r) = (ap (λ x. x.id) q, ap (λ x. x.id) r)

  -- the attempts of the row
  pub Move-bounded :
      Move platform maximum a c a' c'
      → leb_ℤ (pos a.execution_attempt_count) maximum ≡ true
      → leb_ℤ (pos a'.execution_attempt_count) maximum ≡ true
  Move-bounded (denies s q d checks lifetime at ready evaluated other p r) h = simp (p, h)
  Move-bounded (claims s q d checks lifetime at ready below evaluated same p r) h =
      ap (λ x. leb_ℤ (pos x.execution_attempt_count) maximum) p
      ∙ grow maximum a.execution_attempt_count below
  Move-bounded (completes p link at running q r) h = simp (q, h)
  Move-bounded (fails true e at running q r) h = simp (q, h)
  Move-bounded (fails false e at running q r) h = simp (q, h)

  -- the check constraints of the row
  pub Move-checks :
      Move platform maximum a c a' c' → action_checks a ≡ true → action_checks a' ≡ true
  Move-checks (denies s q d checks lifetime at ready evaluated other p r) h =
      ap action_checks p
      ∙ both (shape_checks a) _ (row_shape a h) (
          denied_checks d.outcome (nonempty d.guardrails) true (is_some a.last_error) other
            (guardrails_allow default_recovery_policy s q at d evaluated))
  Move-checks (claims s q d checks lifetime at ready below evaluated same p r) h =
      let none_left : nonempty d.guardrails ≡ false =
        guardrails_allow default_recovery_policy s q at d evaluated
        ∙ ap (λ o. not (is_allow o)) same in
      ap action_checks p ∙ both (shape_checks a) _ (row_shape a h) (simp (same, none_left))
  Move-checks (completes p link at running q r) h =
      ap action_checks q
      ∙ both (shape_checks a) _ (row_shape a h)
          (both _ true (row_moved a ActionStatus.succeeded running refl h) refl)
  Move-checks (fails true e at running q r) h =
      ap action_checks q
      ∙ both _ _ (later_shape a (shift at (delay_after e a.execution_attempt_count)) h)
          (both _ true (row_moved a ActionStatus.failed running refl h) refl)
  Move-checks (fails false e at running q r) h =
      ap action_checks q
      ∙ both (shape_checks a) _ (row_shape a h)
          (both _ true (row_moved a ActionStatus.failed running refl h) refl)

  -- a row that no execution starts from
  pub Move-startable : Move platform maximum a c a' c' → startable a.status ≡ true
  Move-startable (denies s q d checks lifetime at ready evaluated other p r) = ready
  Move-startable (claims s q d checks lifetime at ready below evaluated same p r) = ready
  Move-startable (completes p link at running q r) = simp running
  Move-startable (fails retryable e at running q r) = simp running

  -- the lifecycle constraint of a case that is open
  pub Move-lifecycle :
      Move platform maximum a c a' c'
      → c.recovered_at ≡ none
      → c.closed_at ≡ none
      → case_lifecycle c' ≡ true
  Move-lifecycle (denies s q d checks lifetime at ready evaluated other p r) h k =
      ap case_lifecycle r ∙ deny_case-lifecycle d.outcome at c h k
  Move-lifecycle (claims s q d checks lifetime at ready below evaluated same p r) h k =
      ap case_lifecycle r ∙ simp (h, k)
  Move-lifecycle (completes p link at running q r) h k = ap case_lifecycle r ∙ simp (h, k)
  Move-lifecycle (fails true e at running q r) h k = ap case_lifecycle r ∙ simp (h, k)
  Move-lifecycle (fails false e at running q r) h k = ap case_lifecycle r ∙ simp (h, k)
