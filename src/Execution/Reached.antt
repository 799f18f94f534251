-- ===== src/Execution/Reached.antt =====
-- The services of the executor and of its batch only take the steps of `Moves`, whatever they answer.
use reclaim_rail.Base.{
  ℕ, ◌≡◌, ◌≢◌, refl, sym, ◌∙◌, ap, subst, ℤ, pos, leb_ℤ, String, Bool, true, false, not, ◌&&◌, ◌||◌,
  Option, some, List, ok, Exn, raise_if, present, >>=-eq-ok, >>-eq-ok, ok_inj, Datetime, arith,
}
use reclaim_rail.Base.Rows.{find}
use reclaim_rail.Projection.{PaymentAttempt}
use reclaim_rail.Incidents.Active.{IncidentContext}
use reclaim_rail.Recovery.Models.{
  CaseSnapshot, ActionProposal, PolicyDecision, PolicyOutcome, allow, block, escalate, stop,
  is_allow,
}
use reclaim_rail.Recovery.Policy.{default_recovery_policy, evaluate_recovery_proposal}
use reclaim_rail.Recovery.Policy.Checks.{PolicyCheck}
use reclaim_rail.Audit.Chain.{Platform}
use reclaim_rail.Links.{make_link_request}
use reclaim_rail.Audit.Store.{AppendRequest}
use reclaim_rail.Storage.{RecoveryCase, RecoveryAction, RecoveryTables}
use reclaim_rail.Storage.Events.{record_event}
use reclaim_rail.Execution.{
  Preparation, Bounds, Surroundings, is_scheduled, is_executing, is_succeeded, may_start,
  lies_after, claimed_within, deny_case,
}
use reclaim_rail.Execution.Prepare.{
  denied_event, check_claim, judge, save_pair, denied_action, claimed_action, claimed_case,
  deny_action, claim_action, link_request, conclude, start_unless_done, prepare_action,
}
use reclaim_rail.Execution.Prepared.{incident_for, start_action-Begun, prepare_action-Found}
use reclaim_rail.Execution.Moves.{startable, denies, claims, Step, Reach, here, Step-Reach}

not_raised : (t : Bool) (e : Exn) → raise_if t e ≡ ok tt → t ≡ false
not_raised false e h = refl
not_raised true e h = absurd (ground arith)

neither : (x y : Bool) → (not x && not y) ≡ false → (x || y) ≡ true
neither x y h = ground arith

other_outcome : (o d : PolicyOutcome) → is_allow o ≡ false → d ≡ o → d ≢ allow
other_outcome o d h same e =
    let clash : is_allow allow ≡ false = subst (λ x. is_allow x ≡ false) (sym same ∙ e) h in
    absurd (ground arith)

module _ (platform : Platform) where
  -- the last two guards of a claim
  check_claim-startable :
      (a : RecoveryAction) (bounds : Bounds) (at : Datetime)
      → check_claim platform a bounds at ≡ ok tt
      → (startable a.status ≡ true)
        × (leb_ℤ bounds.maximum_attempts (pos a.execution_attempt_count) ≡ false)
  unfolding check_claim
  check_claim-startable a bounds at h =
      let (_, h₁) =
        >>-eq-ok (raise_if (is_scheduled a.status && lies_after a.execute_after at) _) _ h in
      let (_, h₂) =
        >>-eq-ok
          (raise_if (is_executing a.status && claimed_within a.started_at bounds.claim_timeout at)
            _)
          _ h₁ in
      let (h₃, h₄) =
        >>-eq-ok (raise_if (not (is_executing a.status) && not (may_start a.status)) _) _ h₂ in
      (neither (is_executing a.status) (may_start a.status) (not_raised _ _ h₃), not_raised _ _ h₄)

  -- the event of a denial and of a claim is recorded last
  pub deny_action-record_event :
      (db db' : RecoveryTables) (d : PolicyDecision) (a : RecoveryAction) (c : RecoveryCase)
      (incident : Option IncidentContext) (at : Datetime) (r : Preparation)
      → deny_action platform db d a c incident at ≡ ok (r, db')
      → record_event platform
          (save_pair platform (denied_action platform d.outcome at a) (deny_case d.outcome at c) db)
          c.id
          (denied_event platform d (denied_action platform d.outcome at a) incident at)
        ≡ ok db'
  unfolding deny_action
  deny_action-record_event db db' d a c incident at r h =
      let (db₁, h₁, h₂) = >>=-eq-ok (record_event platform _ c.id _) _ h in
      let same : db₁ ≡ db' = cc in h₁ ∙ ap (λ x. ok x) same

  claim_action-record_event :
      (uuid_hex : ℕ → String) (db db' : RecoveryTables) (a : RecoveryAction) (c : RecoveryCase)
      (payment : PaymentAttempt) (lifetime : ℤ) (at : Datetime) (r : Preparation)
      → claim_action platform uuid_hex db a c payment lifetime at ≡ ok (r, db')
      → (event : AppendRequest) × (record_event platform
            (save_pair platform (claimed_action platform at a) (claimed_case platform c) db)
            c.id
            event
          ≡ ok db')
  unfolding claim_action
  claim_action-record_event uuid_hex db db' a c payment lifetime at r h =
      let (amount, h₁, h₂) = >>=-eq-ok (present a.amount_minor _) _ h in
      let (currency, h₃, h₄) = >>=-eq-ok (present a.currency _) _ h₂ in
      let (request, h₅, h₆) =
        >>=-eq-ok
          (make_link_request
            (link_request platform uuid_hex a c payment amount currency lifetime at))
          _ h₄ in
      let (db₁, h₇, h₈) = >>=-eq-ok (record_event platform _ c.id _) _ h₆ in
      let same : db₁ ≡ db' = cc in (_, h₇ ∙ ap (λ x. ok x) same)

  denied-Step :
      (db db' : RecoveryTables) (id : ℕ) (a : RecoveryAction) (c : RecoveryCase)
      (incident : Option IncidentContext) (bounds : Bounds) (at : Datetime) (r : Preparation)
      (s : CaseSnapshot) (q : ActionProposal) (d : PolicyDecision) (checks : List PolicyCheck)
      → find (λ a. a.id) id db.actions ≡ some a
      → find (λ c. c.id) a.recovery_case_id db.cases ≡ some c
      → check_claim platform a bounds at ≡ ok tt
      → evaluate_recovery_proposal default_recovery_policy s q at ≡ ok d
      → d.outcome ≢ allow
      → deny_action platform db d (judge platform a d checks bounds.link_lifetime at) c incident at
        ≡ ok (r, db')
      → Step platform bounds.maximum_attempts db db'
  denied-Step db db' id a c incident bounds at r s q d checks row of_case guarded evaluated other
        h =
      record {
        id = id;
        action = a;
        recovery_case = c;
        new_action = _;
        new_case = _;
        event = _;
        action_row = row;
        case_row = of_case;
        move =
            denies s q d checks bounds.link_lifetime at
              (check_claim-startable a bounds at guarded).0 evaluated other refl refl;
        recorded = deny_action-record_event db db' d _ c incident at r h;
      }

  -- the two ends of a judgement
  conclude-Step :
      (uuid_hex : ℕ → String) (outcome : PolicyOutcome) (db db' : RecoveryTables) (id : ℕ)
      (a : RecoveryAction) (c : RecoveryCase) (payment : PaymentAttempt)
      (incident : Option IncidentContext) (bounds : Bounds) (at : Datetime) (r : Preparation)
      (s : CaseSnapshot) (q : ActionProposal) (d : PolicyDecision) (checks : List PolicyCheck)
      → find (λ a. a.id) id db.actions ≡ some a
      → find (λ c. c.id) a.recovery_case_id db.cases ≡ some c
      → check_claim platform a bounds at ≡ ok tt
      → evaluate_recovery_proposal default_recovery_policy s q at ≡ ok d
      → d.outcome ≡ outcome
      → conclude platform uuid_hex outcome db d
          (judge platform a d checks bounds.link_lifetime at)
          c
          payment
          incident
          bounds.link_lifetime
          at
        ≡ ok (r, db')
      → Step platform bounds.maximum_attempts db db'
  conclude-Step uuid_hex allow db db' id a c payment incident bounds at r s q d checks row of_case
        guarded evaluated same h =
      let (ready, below) = check_claim-startable a bounds at guarded in
      let (event, recorded) =
        claim_action-record_event uuid_hex db db' _ c payment bounds.link_lifetime at r h in
      record {
        id = id;
        action = a;
        recovery_case = c;
        new_action = _;
        new_case = _;
        event = event;
        action_row = row;
        case_row = of_case;
        move = claims s q d checks bounds.link_lifetime at ready below evaluated same refl refl;
        recorded = recorded;
      }
  conclude-Step uuid_hex block db db' id a c payment incident bounds at r s q d checks row of_case
        guarded evaluated same h =
      denied-Step db db' id a c incident bounds at r s q d checks row of_case guarded evaluated
        (other_outcome block d.outcome refl same) h
  conclude-Step uuid_hex escalate db db' id a c payment incident bounds at r s q d checks row
        of_case guarded evaluated same h =
      denied-Step db db' id a c incident bounds at r s q d checks row of_case guarded evaluated
        (other_outcome escalate d.outcome refl same) h
  conclude-Step uuid_hex stop db db' id a c payment incident bounds at r s q d checks row of_case
        guarded evaluated same h =
      denied-Step db db' id a c incident bounds at r s q d checks row of_case guarded evaluated
        (other_outcome stop d.outcome refl same) h

  start-Reach :
      (uuid_hex : ℕ → String) (around : Surroundings) (db db' : RecoveryTables) (id : ℕ)
      (a : RecoveryAction) (bounds : Bounds) (at : Datetime) (r : Preparation) (done : Bool)
      → find (λ a. a.id) id db.actions ≡ some a
      → start_unless_done platform uuid_hex around done db a bounds at ≡ ok (r, db')
      → Reach platform bounds.maximum_attempts db db'
  start-Reach uuid_hex around db db' id a bounds at r true row h =
      subst (Reach platform bounds.maximum_attempts db) (ap (λ x. x.1) (ok_inj _ _ h)) here
  start-Reach uuid_hex around db db' id a bounds at r false row h =
      let begun = start_action-Begun platform uuid_hex around db db' a bounds at r h in
      let judged = begun.judged in
      Step-Reach (
        conclude-Step uuid_hex judged.decision.outcome db db' id a begun.recovery_case begun.payment
          (incident_for around begun.recovery_case) bounds at r judged.snapshot judged.proposal
          judged.decision judged.checks row begun.case_row begun.may_claim judged.evaluated refl
          judged.ended)

  -- a preparation that returns has done nothing or one step
  pub prepare_action-Reach :
      (uuid_hex : ℕ → String) (around : Surroundings) (db db' : RecoveryTables) (id : ℕ)
      (bounds : Bounds) (at : Datetime) (r : Preparation)
      → prepare_action platform uuid_hex around db id bounds at ≡ ok (r, db')
      → Reach platform bounds.maximum_attempts db db'
  prepare_action-Reach uuid_hex around db db' id bounds at r h =
      let found = prepare_action-Found platform uuid_hex around db db' id bounds at r h in
      start-Reach uuid_hex around db db' id found.action bounds at r
        (is_succeeded found.action.status) found.action_row found.ended
