-- ===== src/Execution/Claims.antt =====
-- What a preparation has gone through when it claims an action.
use reclaim_rail.Base.{
  ℕ, ◌+◌, ◌≡◌, ◌≢◌, refl, ℤ, String, Bool, true, false, some, List, ok, >>=-eq-ok, present,
  present-some, Datetime, arith,
}
use reclaim_rail.Base.Rows.{find}
use reclaim_rail.Projection.{PaymentAttempt}
use reclaim_rail.Recovery.Models.{
  CaseSnapshot, ActionProposal, PolicyDecision, PolicyOutcome, allow, block, escalate, stop,
  make_action_proposal, is_link,
}
use reclaim_rail.Recovery.Policy.{default_recovery_policy, evaluate_recovery_proposal}
use reclaim_rail.Recovery.Policy.Checks.{PolicyCheck}
use reclaim_rail.Audit.Chain.{Platform, ChainEntry}
use reclaim_rail.Links.{make_link_request}
use reclaim_rail.Storage.{RecoveryCase, RecoveryAction, RecoveryTables}
use reclaim_rail.Storage.Events.{record_event, record_event_frame}
use reclaim_rail.Execution.Prepared.{incident_for, prepare_action-Found, start_action-Begun}
use reclaim_rail.Execution.{
  PreparedAction, prepared, Bounds, Surroundings, proposal_of, build_snapshot, reference_of,
  is_succeeded,
}
use reclaim_rail.Execution.Prepare.{
  check_claim, judge, save_pair, deny_action, claimed_action, claimed_case, link_request,
  claim_action, conclude, start_action, start_unless_done, prepare_action,
}

module _ (platform : Platform) where
  -- a denial does not prepare anything
  deny_terminal :
      (db db' : RecoveryTables) (decision : PolicyDecision) (a : RecoveryAction) (c : RecoveryCase)
      (incident : _) (at : Datetime) (p : PreparedAction)
      → deny_action platform db decision a c incident at ≢ ok (prepared p, db')
  unfolding deny_action
  deny_terminal db db' decision a c incident at p h =
      let (db₁, r, s) = >>=-eq-ok (record_event platform _ c.id _) _ h in absurd (ground arith)

  module _ (uuid_hex : ℕ → String) where
    -- the branch that the decision takes
    conclude-prepared :
        (outcome : PolicyOutcome) (db db' : RecoveryTables) (decision : PolicyDecision)
        (a : RecoveryAction) (c : RecoveryCase) (payment : PaymentAttempt) (incident : _)
        (lifetime : ℤ) (at : Datetime) (p : PreparedAction)
        → conclude platform uuid_hex outcome db decision a c payment incident lifetime at
          ≡ ok (prepared p, db')
        → (outcome ≡ allow)
          × (claim_action platform uuid_hex db a c payment lifetime at ≡ ok (prepared p, db'))
    conclude-prepared allow db db' decision a c payment incident lifetime at p h = (refl, h)
    conclude-prepared block db db' decision a c payment incident lifetime at p h =
        absurd (deny_terminal db db' decision a c incident at p h)
    conclude-prepared escalate db db' decision a c payment incident lifetime at p h =
        absurd (deny_terminal db db' decision a c incident at p h)
    conclude-prepared stop db db' decision a c payment incident lifetime at p h =
        absurd (deny_terminal db db' decision a c incident at p h)

    -- what a claim writes and answers
    pub record Written (db : RecoveryTables) (a : RecoveryAction) (c : RecoveryCase)
        (payment : PaymentAttempt) (lifetime : ℤ) (at : Datetime) (p : PreparedAction)
        (db' : RecoveryTables) : Type 0 where
      pub amount : ℤ
      pub currency : String
      pub events : List ChainEntry
      pub priced : a.amount_minor ≡ some amount
      pub in_currency : a.currency ≡ some currency
      pub requested :
          make_link_request (link_request platform uuid_hex a c payment amount currency lifetime at)
          ≡ ok p.request
      pub reference : p.reference_id ≡ reference_of uuid_hex a.id
      pub of_action : p.action_id ≡ a.id
      pub numbered : p.attempt_number ≡ a.execution_attempt_count + 1
      pub tables :
          db'
          ≡ record (save_pair platform
              (claimed_action platform at a)
              (claimed_case platform c)
              db) { audit_events = events }

    claim_action-Written :
        (db db' : RecoveryTables) (a : RecoveryAction) (c : RecoveryCase) (payment : PaymentAttempt)
        (lifetime : ℤ) (at : Datetime) (p : PreparedAction)
        → claim_action platform uuid_hex db a c payment lifetime at ≡ ok (prepared p, db')
        → Written db a c payment lifetime at p db'
    unfolding claim_action
    claim_action-Written db db' a c payment lifetime at p h =
        let (amount, h₁, h₂) = >>=-eq-ok (present a.amount_minor _) _ h in
        let (currency, h₃, h₄) = >>=-eq-ok (present a.currency _) _ h₂ in
        let (request, h₅, h₆) =
          >>=-eq-ok
            (make_link_request
              (link_request platform uuid_hex a c payment amount currency lifetime at))
            _ h₄ in
        let (db₁, h₇, h₈) = >>=-eq-ok (record_event platform _ c.id _) _ h₆ in
        let (events, frame) = record_event_frame platform _ db₁ c.id _ h₇ in
        record {
          amount = amount;
          currency = currency;
          events = events;
          priced = present-some a.amount_minor _ amount h₁;
          in_currency = present-some a.currency _ currency h₃;
          requested = cc;
          reference = cc;
          of_action = cc;
          numbered = cc;
          tables = cc;
        }

    module _ (around : Surroundings) where
      -- a preparation that claims: the rows that it reads, and the decision that lets it go on
      pub record Claim (db : RecoveryTables) (id : ℕ) (bounds : Bounds) (at : Datetime)
          (p : PreparedAction) (db' : RecoveryTables) : Type 0 where
        pub action : RecoveryAction
        pub recovery_case : RecoveryCase
        pub payment : PaymentAttempt
        pub snapshot : CaseSnapshot
        pub proposal : ActionProposal
        pub decision : PolicyDecision
        pub checks : List PolicyCheck
        pub action_row : find (λ a. a.id) id db.actions ≡ some action
        pub is_payment_link : is_link action.action_type ≡ true
        pub may_claim : check_claim platform action bounds at ≡ ok tt
        pub case_row : find (λ c. c.id) action.recovery_case_id db.cases ≡ some recovery_case
        pub payment_row :
            find (λ a. a.id) recovery_case.payment_attempt_id around.attempts ≡ some payment
        pub taken :
            build_snapshot recovery_case payment (incident_for around recovery_case) ≡ ok snapshot
        pub proposed : make_action_proposal (proposal_of action) ≡ ok proposal
        pub evaluated :
            evaluate_recovery_proposal default_recovery_policy snapshot proposal at ≡ ok decision
        pub allowed : decision.outcome ≡ allow
        pub written :
            Written db
              (judge platform action decision checks bounds.link_lifetime at)
              recovery_case
              payment
              bounds.link_lifetime
              at
              p
              db'

      start_unless_done-prepared :
          (done : Bool) (db db' : RecoveryTables) (a : RecoveryAction) (bounds : Bounds)
          (at : Datetime) (p : PreparedAction)
          → start_unless_done platform uuid_hex around done db a bounds at ≡ ok (prepared p, db')
          → start_action platform uuid_hex around db a bounds at ≡ ok (prepared p, db')
      start_unless_done-prepared false db db' a bounds at p h = h
      start_unless_done-prepared true db db' a bounds at p h = absurd (ground arith)

      pub prepare_action-Claim :
          (db db' : RecoveryTables) (id : ℕ) (bounds : Bounds) (at : Datetime) (p : PreparedAction)
          → prepare_action platform uuid_hex around db id bounds at ≡ ok (prepared p, db')
          → Claim db id bounds at p db'
      prepare_action-Claim db db' id bounds at p h =
          let found =
            prepare_action-Found platform uuid_hex around db db' id bounds at (prepared p) h in
          let a = found.action in
          let begun =
            start_action-Begun platform uuid_hex around db db' a bounds at (prepared p) (
              start_unless_done-prepared (is_succeeded a.status) db db' a bounds at p
                found.ended) in
          let judged = begun.judged in
          let (allowed, claimed) =
            conclude-prepared judged.decision.outcome db db' judged.decision _ begun.recovery_case
              begun.payment (incident_for around begun.recovery_case) bounds.link_lifetime at p
              judged.ended in
          record {
            action = a;
            recovery_case = begun.recovery_case;
            payment = begun.payment;
            snapshot = judged.snapshot;
            proposal = judged.proposal;
            decision = judged.decision;
            checks = judged.checks;
            action_row = found.action_row;
            is_payment_link = found.is_payment_link;
            may_claim = begun.may_claim;
            case_row = begun.case_row;
            payment_row = begun.payment_row;
            taken = judged.taken;
            proposed = judged.proposed;
            evaluated = judged.evaluated;
            allowed = allowed;
            written =
                claim_action-Written db db' _ begun.recovery_case begun.payment bounds.link_lifetime
                  at p claimed;
          }
