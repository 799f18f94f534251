-- ===== src/Execution/Identified.antt =====
-- apps/api/app/services/recovery_action_executor.py: the result of an execution is about the action
-- that was to be executed.
use reclaim_rail.Base.{
  ℕ, ◌≡◌, ◌≢◌, refl, sym, ◌∙◌, ap, ℤ, String, Bool, true, false, Bool-cases, inl, inr, Option, none,
  some, Result, ok, err, provider_error, customer_provider_error, present, require_timezone_aware,
  present-some, >>=-eq-ok, >>-eq-ok, ok_inj, Datetime, arith,
}
use reclaim_rail.Base.Rows.{find_key}
use reclaim_rail.Projection.{PaymentAttempt}
use reclaim_rail.Recovery.Models.{PolicyOutcome, PolicyDecision, allow, block, escalate, stop}
use reclaim_rail.Audit.Chain.{Platform}
use reclaim_rail.Links.{PaymentLink, PaymentCustomer, make_link_request}
use reclaim_rail.Storage.{RecoveryCase, RecoveryAction, RecoveryTables}
use reclaim_rail.Storage.Events.{record_event}
use reclaim_rail.Execution.{
  PreparedAction, ExecutionResult, Preparation, prepared, terminal, Bounds, Surroundings,
  is_succeeded,
}
use reclaim_rail.Execution.Prepare.{
  deny_action, claim_action, conclude, link_request, start_unless_done, prepare_action,
}
use reclaim_rail.Execution.Finish.{
  write_completed, complete_unless_done, complete_action, find_action, find_case, validate_link,
}
use reclaim_rail.Execution.Run.{
  LinkProvider, CustomerProvider, with_customer, after_lookup, look_up, attach_customer,
  obtain_link, deliver, settle, transact, go_on, after_check, failure_of, execute_action,
}
use reclaim_rail.Execution.Prepared.{incident_for, prepare_action-Found, start_action-Begun}
use reclaim_rail.Execution.Claims.{prepare_action-Claim}

module _ (platform : Platform) where
  denied_id :
      (db db' : RecoveryTables) (d : PolicyDecision) (a : RecoveryAction) (c : RecoveryCase)
      (incident : _) (at : Datetime) (r : ExecutionResult)
      → deny_action platform db d a c incident at ≡ ok (terminal r, db')
      → r.action_id ≡ a.id
  unfolding deny_action
  denied_id db db' d a c incident at r h =
      let (db₁, p, q) = >>=-eq-ok (record_event platform _ c.id _) _ h in cc

  claimed_id :
      (uuid_hex : ℕ → String) (db db' : RecoveryTables) (a : RecoveryAction) (c : RecoveryCase)
      (payment : PaymentAttempt) (lifetime : ℤ) (at : Datetime) (r : ExecutionResult)
      → claim_action platform uuid_hex db a c payment lifetime at ≢ ok (terminal r, db')
  unfolding claim_action
  claimed_id uuid_hex db db' a c payment lifetime at r h =
      let (amount, h₁, h₂) = >>=-eq-ok (present a.amount_minor _) _ h in
      let (currency, h₃, h₄) = >>=-eq-ok (present a.currency _) _ h₂ in
      let (request, h₅, h₆) =
        >>=-eq-ok
          (make_link_request
            (link_request platform uuid_hex a c payment amount currency lifetime at))
          _ h₄ in
      let (db₁, h₇, h₈) = >>=-eq-ok (record_event platform _ c.id _) _ h₆ in absurd (ground arith)

  concluded_id :
      (uuid_hex : ℕ → String) (outcome : PolicyOutcome) (db db' : RecoveryTables)
      (d : PolicyDecision) (a : RecoveryAction) (c : RecoveryCase) (payment : PaymentAttempt)
      (incident : _) (lifetime : ℤ) (at : Datetime) (r : ExecutionResult)
      → conclude platform uuid_hex outcome db d a c payment incident lifetime at
        ≡ ok (terminal r, db')
      → r.action_id ≡ a.id
  concluded_id uuid_hex allow db db' d a c payment incident lifetime at r h =
      absurd (claimed_id uuid_hex db db' a c payment lifetime at r h)
  concluded_id uuid_hex block db db' d a c payment incident lifetime at r h =
      denied_id db db' d a c incident at r h
  concluded_id uuid_hex escalate db db' d a c payment incident lifetime at r h =
      denied_id db db' d a c incident at r h
  concluded_id uuid_hex stop db db' d a c payment incident lifetime at r h =
      denied_id db db' d a c incident at r h

  completed_id :
      (done : Bool) (db db' : RecoveryTables) (p : PreparedAction) (a : RecoveryAction)
      (link : PaymentLink) (recovered_existing : Bool) (at : Datetime) (r : ExecutionResult)
      → complete_unless_done platform done db p a link recovered_existing at ≡ ok (r, db')
      → r.action_id ≡ a.id
  unfolding write_completed
  completed_id true db db' p a link recovered_existing at r h =
      sym (ap (λ z. z.0.action_id) (ok_inj _ _ h))
  completed_id false db db' p a link recovered_existing at r h =
      let (_, h₁) = >>-eq-ok _ _ h in
      let (c, h₂, h₃) = >>=-eq-ok (find_case platform db a.recovery_case_id) _ h₁ in
      let (db₁, h₄, h₅) = >>=-eq-ok (record_event platform _ c.id _) _ h₃ in
      sym (ap (λ z. z.0.action_id) (ok_inj _ _ h₅))

  complete_action_id :
      (db db' : RecoveryTables) (p : PreparedAction) (link : PaymentLink)
      (recovered_existing : Bool) (at : Datetime) (r : ExecutionResult)
      → complete_action platform db p link recovered_existing at ≡ ok (r, db')
      → r.action_id ≡ p.action_id
  unfolding complete_action
  complete_action_id db db' p link recovered_existing at r h =
      let (_, h₁) = >>-eq-ok (require_timezone_aware at _) _ h in
      let (_, h₂) = >>-eq-ok (validate_link p link) _ h₁ in
      let (a, h₃, h₄) = >>=-eq-ok (find_action platform db p.action_id) _ h₂ in
      completed_id (is_succeeded a.status) db db' p a link recovered_existing at r h₄
      ∙ find_key (λ a. a.id) p.action_id db.actions a (present-some _ _ a h₃)

with_customer_id :
    (p : PreparedAction) (customer : PaymentCustomer)
    → (with_customer p customer).action_id ≡ p.action_id
with_customer_id p customer = ground arith

after_lookup_id :
    (p p' : PreparedAction) (answer : Result PaymentCustomer)
    → after_lookup p answer ≡ ok p'
    → p'.action_id ≡ p.action_id
after_lookup_id p p' (ok customer) h =
    sym (ap (λ q. q.action_id) (ok_inj _ _ h)) ∙ with_customer_id p customer
after_lookup_id p p' (err customer_provider_error) h = sym (ap (λ q. q.action_id) (ok_inj _ _ h))
after_lookup_id p p' (err _) h = absurd (ground arith)

look_up_id :
    (p p' : PreparedAction) (customers : Option CustomerProvider)
    → look_up p customers ≡ ok p'
    → p'.action_id ≡ p.action_id
look_up_id p p' none h = sym (ap (λ q. q.action_id) (ok_inj _ _ h))
look_up_id p p' (some fetch) h = after_lookup_id p p' (fetch p.provider_payment_id) h

attach_customer_id :
    (p p' : PreparedAction) (customers : Option CustomerProvider)
    → attach_customer p customers ≡ ok p'
    → p'.action_id ≡ p.action_id
unfolding attach_customer
attach_customer_id p p' customers h = elim (Bool-cases p.customer_contact_allowed) [
  | inl e ↦ look_up_id p p' customers (ground arith)
  | inr e ↦ ground arith
]

deliver_id :
    (provider : LinkProvider) (customers : Option CustomerProvider) (p p' : PreparedAction)
    (link : PaymentLink) (recovered_existing : Bool)
    → deliver provider customers p ≡ ok (p', link, recovered_existing)
    → p'.action_id ≡ p.action_id
unfolding deliver
deliver_id provider customers p p' link recovered_existing h =
    let (q, h₁, h₂) = >>=-eq-ok (attach_customer p customers) _ h in
    let ((l, b), h₃, h₄) = >>=-eq-ok (obtain_link provider q) _ h₂ in
    let (_, h₅) = >>-eq-ok (validate_link q l) _ h₄ in
    sym (ap (λ z. z.0.action_id) (ok_inj _ _ h₅)) ∙ attach_customer_id p q customers h₁

module _ (platform : Platform) where
  transact_ok {ℓ} :
      {A : Type ℓ} (db : RecoveryTables) (m : Result (A × RecoveryTables)) (answer : A)
      → (transact db m).0 ≡ ok answer
      → (db' : RecoveryTables) × (m ≡ ok (answer, db'))
  transact_ok db (ok (answer', db')) answer h = (db', ap (λ x. ok (x, db')) (ok_inj _ _ h))
  transact_ok db (err e) answer h = absurd (ground arith)

  failure_of-err :
      (status_code : Option ℕ) (m : Result Bool × RecoveryTables) (r : ExecutionResult)
      → (failure_of platform status_code m).0 ≢ ok r
  failure_of-err status_code (ok retryable, db) r h = absurd (ground arith)
  failure_of-err status_code (err e, db) r h = absurd (ground arith)

  settle_id :
      (db : RecoveryTables) (p : PreparedAction) (maximum : ℤ) (at : Datetime)
      (m : Result (PreparedAction × PaymentLink × Bool)) (r : ExecutionResult)
      → ((p' : PreparedAction) (link : PaymentLink) (recovered_existing : Bool)
          → m ≡ ok (p', link, recovered_existing)
          → p'.action_id ≡ p.action_id)
      → (settle platform db p maximum at m).0 ≡ ok r
      → r.action_id ≡ p.action_id
  unfolding settle
  settle_id db p maximum at (ok (p', link, recovered_existing)) r k h =
      let (db', done) = transact_ok db _ r h in
      complete_action_id platform db db' p' link recovered_existing at r done
      ∙ k p' link recovered_existing refl
  settle_id db p maximum at (err (provider_error retryable status_code code)) r k h =
      absurd (failure_of-err status_code _ r h)
  settle_id db p maximum at (err _) r k h = absurd (ground arith)

module _ (platform : Platform) (uuid_hex : ℕ → String) (around : Surroundings) where
  -- a preparation answers about the action that it was asked for
  abbrev Answers : ℕ → Preparation → Type 0
  Answers id (terminal r) = r.action_id ≡ id
  Answers id (prepared p) = p.action_id ≡ id

  started_id :
      (done : Bool) (db db' : RecoveryTables) (a : RecoveryAction) (bounds : Bounds) (at : Datetime)
      (r : ExecutionResult)
      → start_unless_done platform uuid_hex around done db a bounds at ≡ ok (terminal r, db')
      → r.action_id ≡ a.id
  started_id true db db' a bounds at r h = cc
  started_id false db db' a bounds at r h =
      let begun = start_action-Begun platform uuid_hex around db db' a bounds at (terminal r) h in
      concluded_id platform uuid_hex begun.judged.decision.outcome db db' begun.judged.decision _
        begun.recovery_case begun.payment (incident_for around begun.recovery_case)
        bounds.link_lifetime at r begun.judged.ended

  prepare_action-Answers :
      (db db' : RecoveryTables) (id : ℕ) (bounds : Bounds) (at : Datetime) (r : Preparation)
      → prepare_action platform uuid_hex around db id bounds at ≡ ok (r, db')
      → Answers id r
  prepare_action-Answers db db' id bounds at (terminal r) h =
      let found =
        prepare_action-Found platform uuid_hex around db db' id bounds at (terminal r) h in
      started_id (is_succeeded found.action.status) db db' found.action bounds at r found.ended
      ∙ find_key (λ a. a.id) id db.actions found.action found.action_row
  prepare_action-Answers db db' id bounds at (prepared p) h =
      let claim = prepare_action-Claim platform uuid_hex around db db' id bounds at p h in
      claim.written.of_action ∙ find_key (λ a. a.id) id db.actions claim.action claim.action_row

  go_on_id :
      (provider : LinkProvider) (customers : Option CustomerProvider) (maximum : ℤ) (at : Datetime)
      (id : ℕ) (m : Result Preparation × RecoveryTables) (r : ExecutionResult)
      → ((q : Preparation) → m.0 ≡ ok q → Answers id q)
      → (go_on platform provider customers maximum at m).0 ≡ ok r
      → r.action_id ≡ id
  go_on_id provider customers maximum at id (err e, db) r k h = absurd (ground arith)
  go_on_id provider customers maximum at id (ok (terminal result), db) r k h =
      sym (ap (λ x. x.action_id) (ok_inj _ _ h)) ∙ k (terminal result) refl
  go_on_id provider customers maximum at id (ok (prepared p), db) r k h =
      settle_id platform db p maximum at (deliver provider customers p) r
        (λ p' link recovered_existing. deliver_id provider customers p p' link recovered_existing) h
      ∙ k (prepared p) refl

  after_check_ok :
      (checked : Result (Unit {0})) (db : RecoveryTables)
      (rest : Result ExecutionResult × RecoveryTables) (r : ExecutionResult)
      → (after_check platform checked db rest).0 ≡ ok r
      → rest.0 ≡ ok r
  after_check_ok (err e) db rest r h = absurd (ground arith)
  after_check_ok (ok _) db rest r h = h

  -- a result of an execution is about its action
  pub execute_action_id :
      (provider : LinkProvider) (customers : Option CustomerProvider) (db : RecoveryTables) (id : ℕ)
      (bounds : Bounds) (at : Datetime) (r : ExecutionResult)
      → (execute_action platform uuid_hex around provider customers db id bounds at).0 ≡ ok r
      → r.action_id ≡ id
  unfolding execute_action
  execute_action_id provider customers db id bounds at r h =
      let prepare = prepare_action platform uuid_hex around db id bounds at in
      go_on_id provider customers bounds.maximum_attempts at id (transact db prepare) r
        (λ q k.
          let (db', done) = transact_ok platform db prepare q k in
          prepare_action-Answers db db' id bounds at q done)
        (after_check_ok _ db _ r h)
