-- ===== src/Execution/Prepared.antt =====
-- What a preparation has gone through when it returns: the rows that it has found, and the judgement.
use reclaim_rail.Base.{
  passed_guard, ℕ, ◌≡◌, ℤ, String, true, not, Option, some, List, ok, raise_if, >>=-eq-ok, >>-eq-ok,
  present, present-some, Datetime,
}
use reclaim_rail.Base.Rows.{find}
use reclaim_rail.Projection.{PaymentAttempt}
use reclaim_rail.Incidents.Active.{IncidentContext, load_active_incident}
use reclaim_rail.Recovery.Models.{
  CaseSnapshot, ActionProposal, PolicyDecision, make_action_proposal, is_link,
}
use reclaim_rail.Recovery.Policy.{default_recovery_policy, evaluate_recovery_proposal}
use reclaim_rail.Recovery.Policy.Checks.{PolicyCheck, build_recovery_policy_checks}
use reclaim_rail.Audit.Chain.{Platform}
use reclaim_rail.Storage.{RecoveryCase, RecoveryAction, RecoveryTables}
use reclaim_rail.Execution.{
  Preparation, Bounds, Surroundings, proposal_of, build_snapshot, is_succeeded,
}
use reclaim_rail.Execution.Prepare.{
  check_bounds, check_claim, judge, conclude, judge_action, start_action, start_unless_done,
  prepare_action,
}

-- the incident that the judgement sees
abbrev pub incident_for : Surroundings → RecoveryCase → Option IncidentContext
incident_for around c =
    load_active_incident around.incidents around.now c.source_incident_id c.currency
      c.payment_method

module _ (platform : Platform) (uuid_hex : ℕ → String) (around : Surroundings) where
  pub record Judged (db : RecoveryTables) (a : RecoveryAction) (c : RecoveryCase)
      (payment : PaymentAttempt) (lifetime : ℤ) (at : Datetime) (r : Preparation)
      (db' : RecoveryTables) : Type 0 where
    pub snapshot : CaseSnapshot
    pub proposal : ActionProposal
    pub decision : PolicyDecision
    pub checks : List PolicyCheck
    pub taken : build_snapshot c payment (incident_for around c) ≡ ok snapshot
    pub proposed : make_action_proposal (proposal_of a) ≡ ok proposal
    pub evaluated :
        evaluate_recovery_proposal default_recovery_policy snapshot proposal at ≡ ok decision
    pub ended :
        conclude platform uuid_hex decision.outcome db decision
          (judge platform a decision checks lifetime at)
          c
          payment
          (incident_for around c)
          lifetime
          at
        ≡ ok (r, db')

  judge_action-Judged :
      (db db' : RecoveryTables) (a : RecoveryAction) (c : RecoveryCase) (payment : PaymentAttempt)
      (lifetime : ℤ) (at : Datetime) (r : Preparation)
      → judge_action platform uuid_hex around db a c payment lifetime at ≡ ok (r, db')
      → Judged db a c payment lifetime at r db'
  unfolding judge_action
  judge_action-Judged db db' a c payment lifetime at r h =
      let (snapshot, h₁, h₂) = >>=-eq-ok (build_snapshot c payment (incident_for around c)) _ h in
      let (proposal, h₃, h₄) = >>=-eq-ok (make_action_proposal (proposal_of a)) _ h₂ in
      let (decision, h₅, h₆) =
        >>=-eq-ok (evaluate_recovery_proposal default_recovery_policy snapshot proposal at) _ h₄ in
      let (checks, h₇, h₈) =
        >>=-eq-ok (build_recovery_policy_checks default_recovery_policy snapshot proposal at) _
          h₆ in
      record {
        snapshot = snapshot;
        proposal = proposal;
        decision = decision;
        checks = checks;
        taken = h₁;
        proposed = h₃;
        evaluated = h₅;
        ended = h₈;
      }

  pub record Begun (db : RecoveryTables) (a : RecoveryAction) (bounds : Bounds) (at : Datetime)
      (r : Preparation) (db' : RecoveryTables) : Type 0 where
    pub recovery_case : RecoveryCase
    pub payment : PaymentAttempt
    pub may_claim : check_claim platform a bounds at ≡ ok tt
    pub case_row : find (λ c. c.id) a.recovery_case_id db.cases ≡ some recovery_case
    pub payment_row :
        find (λ a. a.id) recovery_case.payment_attempt_id around.attempts ≡ some payment
    pub judged : Judged db a recovery_case payment bounds.link_lifetime at r db'

  pub start_action-Begun :
      (db db' : RecoveryTables) (a : RecoveryAction) (bounds : Bounds) (at : Datetime)
      (r : Preparation)
      → start_action platform uuid_hex around db a bounds at ≡ ok (r, db')
      → Begun db a bounds at r db'
  unfolding start_action
  start_action-Begun db db' a bounds at r h =
      let (h₁, h₂) = >>-eq-ok (check_claim platform a bounds at) _ h in
      let (c, h₃, h₄) = >>=-eq-ok (present (find (λ c. c.id) a.recovery_case_id db.cases) _) _ h₂ in
      let (payment, h₅, h₆) =
        >>=-eq-ok (present (find (λ p. p.id) c.payment_attempt_id around.attempts) _) _ h₄ in
      record {
        recovery_case = c;
        payment = payment;
        may_claim = h₁;
        case_row = present-some _ _ c h₃;
        payment_row = present-some _ _ payment h₅;
        judged = judge_action-Judged db db' a c payment bounds.link_lifetime at r h₆;
      }

  pub record Found (db : RecoveryTables) (id : ℕ) (bounds : Bounds) (at : Datetime)
      (r : Preparation) (db' : RecoveryTables) : Type 0 where
    pub action : RecoveryAction
    pub action_row : find (λ a. a.id) id db.actions ≡ some action
    pub is_payment_link : is_link action.action_type ≡ true
    pub ended :
        start_unless_done platform uuid_hex around (is_succeeded action.status) db action bounds at
        ≡ ok (r, db')

  pub prepare_action-Found :
      (db db' : RecoveryTables) (id : ℕ) (bounds : Bounds) (at : Datetime) (r : Preparation)
      → prepare_action platform uuid_hex around db id bounds at ≡ ok (r, db')
      → Found db id bounds at r db'
  unfolding prepare_action
  prepare_action-Found db db' id bounds at r h =
      let (_, h₁) = >>-eq-ok (check_bounds bounds at) _ h in
      let (a, h₂, h₃) = >>=-eq-ok (present (find (λ a. a.id) id db.actions) _) _ h₁ in
      let (linked, h₄) = >>-eq-ok (raise_if (not (is_link a.action_type)) _) _ h₃ in
      record {
        action = a;
        action_row = present-some _ _ a h₂;
        is_payment_link = passed_guard (is_link a.action_type) _ linked;
        ended = h₄;
      }
