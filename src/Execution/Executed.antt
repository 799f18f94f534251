-- ===== src/Execution/Executed.antt =====
-- An execution and the loop of a batch only take steps of the executor, whatever the providers answer
-- and whatever is raised.
use reclaim_rail.Base.{
  ℕ, ◌≡◌, refl, sym, ◌∙◌, ap, subst, ℤ, String, Bool, true, false, Option, some, List, [], ◌∷◌,
  Result, ok, err, provider_error, cancelled, require_timezone_aware, present-some, >>=-eq-ok,
  >>-eq-ok, ok_inj, Datetime,
}
use reclaim_rail.Base.Rows.{find}
use reclaim_rail.Audit.Chain.{Platform}
use reclaim_rail.Links.{PaymentLink, ProviderError}
use reclaim_rail.Storage.{RecoveryAction, RecoveryTables}
use reclaim_rail.Execution.{
  PreparedAction, ExecutionResult, Preparation, prepared, terminal, Bounds, Surroundings,
  is_executing, is_succeeded,
}
use reclaim_rail.Execution.Finish.{
  validate_link, complete_unless_done, complete_action, fail_if_executing, fail_action, find_action,
}
use reclaim_rail.Execution.Run.{
  LinkProvider, CustomerProvider, transact, deliver, failure_of, settle, go_on, after_check,
  execute_action,
}
use reclaim_rail.Execution.Batch.{Progress, go_on_after, run_each}
use reclaim_rail.Execution.Moves.{Reach, here, Step-Reach, Reach-trans}
use reclaim_rail.Execution.Reached.{prepare_action-Reach}
use reclaim_rail.Execution.Ended.{write_completed-Step, write_failed-Step}

module _ (platform : Platform) (maximum : ℤ) where
  abbrev Reaches : RecoveryTables → RecoveryTables → Type 0
  Reaches db db' = Reach platform maximum db db'

  stays {ℓ} :
      {A : Type ℓ} (db db' : RecoveryTables) (x y : A × RecoveryTables)
      → x.1 ≡ db
      → y.1 ≡ db'
      → ok x ≡ ok y
      → Reaches db db'
  stays db db' x y p q h = subst (Reaches db) (sym p ∙ ap (λ z. z.1) (ok_inj x y h) ∙ q) here

  complete_unless_done-Reach :
      (done : Bool) (db db' : RecoveryTables) (p : PreparedAction) (id : ℕ) (a : RecoveryAction)
      (link : PaymentLink) (recovered_existing : Bool) (at : Datetime) (r : ExecutionResult)
      → find (λ a. a.id) id db.actions ≡ some a
      → complete_unless_done platform done db p a link recovered_existing at ≡ ok (r, db')
      → Reaches db db'
  complete_unless_done-Reach true db db' p id a link recovered_existing at r row h =
      stays db db' _ (r, db') refl refl h
  complete_unless_done-Reach false db db' p id a link recovered_existing at r row h =
      Step-Reach
        (write_completed-Step platform maximum db db' p id a link recovered_existing at r row h)

  pub complete_action-Reach :
      (db db' : RecoveryTables) (p : PreparedAction) (link : PaymentLink)
      (recovered_existing : Bool) (at : Datetime) (r : ExecutionResult)
      → complete_action platform db p link recovered_existing at ≡ ok (r, db')
      → Reaches db db'
  unfolding complete_action
  complete_action-Reach db db' p link recovered_existing at r h =
      let (_, h₁) = >>-eq-ok (require_timezone_aware at _) _ h in
      let (_, h₂) = >>-eq-ok (validate_link p link) _ h₁ in
      let (a, h₃, h₄) = >>=-eq-ok (find_action platform db p.action_id) _ h₂ in
      complete_unless_done-Reach (is_succeeded a.status) db db' p p.action_id a link
        recovered_existing at r (present-some _ _ a h₃) h₄

  fail_if_executing-Reach :
      (running : Bool) (db db' : RecoveryTables) (id : ℕ) (a : RecoveryAction) (e : ProviderError)
      (at : Datetime) (retryable : Bool)
      → is_executing a.status ≡ running
      → find (λ a. a.id) id db.actions ≡ some a
      → fail_if_executing platform running db a e at maximum ≡ ok (retryable, db')
      → Reaches db db'
  fail_if_executing-Reach false db db' id a e at retryable same row h =
      stays db db' _ (retryable, db') refl refl h
  fail_if_executing-Reach true db db' id a e at retryable same row h =
      Step-Reach (write_failed-Step platform maximum db db' id a e at retryable row same h)

  pub fail_action-Reach :
      (db db' : RecoveryTables) (p : PreparedAction) (e : ProviderError) (at : Datetime)
      (retryable : Bool)
      → fail_action platform db p e at maximum ≡ ok (retryable, db')
      → Reaches db db'
  unfolding fail_action
  fail_action-Reach db db' p e at retryable h =
      let (_, h₁) = >>-eq-ok (require_timezone_aware at _) _ h in
      let (a, h₃, h₄) = >>=-eq-ok (find_action platform db p.action_id) _ h₁ in
      fail_if_executing-Reach (is_executing a.status) db db' p.action_id a e at retryable refl
        (present-some _ _ a h₃) h₄

  -- a transaction that is rolled back has done nothing
  pub transact-Reach {ℓ} :
      {A : Type ℓ} (db : RecoveryTables) (m : Result (A × RecoveryTables))
      → ((answer : A) (db' : RecoveryTables) → m ≡ ok (answer, db') → Reaches db db')
      → Reaches db (transact db m).1
  transact-Reach db (ok (answer, db')) h = h answer db' refl
  transact-Reach db (err e) h = here

  failure_of-tables :
      (status_code : Option ℕ) (r : Result Bool × RecoveryTables)
      → (failure_of platform status_code r).1 ≡ r.1
  failure_of-tables status_code (ok retryable, db) = refl
  failure_of-tables status_code (err e, db) = refl

  settle-Reach :
      (db : RecoveryTables) (p : PreparedAction) (at : Datetime)
      (r : Result (PreparedAction × PaymentLink × Bool))
      → Reaches db (settle platform db p maximum at r).1
  unfolding settle
  settle-Reach db p at (ok (p', link, recovered_existing)) =
      transact-Reach db _
        (λ r db' h. complete_action-Reach db db' p' link recovered_existing at r h)
  settle-Reach db p at (err (provider_error retryable status_code code)) =
      let e : ProviderError = record {
        retryable = retryable;
        status_code = status_code;
        provider_error_code = code;
      } in
      let failed = fail_action platform db p e at maximum in
      subst (Reaches db) (sym (failure_of-tables status_code (transact db failed)))
        (transact-Reach db failed (λ r db' h. fail_action-Reach db db' p e at r h))
  settle-Reach db p at (err _) = here

  go_on-Reach :
      (provider : LinkProvider) (customers : Option CustomerProvider) (at : Datetime)
      (start : RecoveryTables) (r : Result Preparation × RecoveryTables)
      → Reaches start r.1
      → Reaches start (go_on platform provider customers maximum at r).1
  go_on-Reach provider customers at start (err e, db) h = h
  go_on-Reach provider customers at start (ok (terminal result), db) h = h
  go_on-Reach provider customers at start (ok (prepared p), db) h =
      Reach-trans h (settle-Reach db p at (deliver provider customers p))

  after_check-Reach :
      (checked : Result (Unit {0})) (db : RecoveryTables)
      (rest : Result ExecutionResult × RecoveryTables)
      → Reaches db rest.1
      → Reaches db (after_check platform checked db rest).1
  after_check-Reach (err e) db rest h = here
  after_check-Reach (ok _) db rest h = h

module _ (platform : Platform) (uuid_hex : ℕ → String) (around : Surroundings) where
  -- Whatever an execution answers or raises, and whatever the providers answer it, it leaves the tables
  -- as they are, or has taken steps of the executor on them: a denial, or a claim that a completion or
  -- a failure may follow, each on an action of the tables and its case.
  pub execute_action-Reach :
      (provider : LinkProvider) (customers : Option CustomerProvider) (db : RecoveryTables) (id : ℕ)
      (bounds : Bounds) (at : Datetime)
      → Reach platform bounds.maximum_attempts db
          (execute_action platform uuid_hex around provider customers db id bounds at).1
  unfolding execute_action
  execute_action-Reach provider customers db id bounds at =
      after_check-Reach platform bounds.maximum_attempts _ db _ (
        go_on-Reach platform bounds.maximum_attempts provider customers at db _ (
          transact-Reach platform bounds.maximum_attempts db _
            (λ r db' h. prepare_action-Reach platform uuid_hex around db db' id bounds at r h)))

  go_on_after-Reach :
      {maximum : ℤ} (id : ℕ) (outcome : Result ExecutionResult) (start db : RecoveryTables)
      (rest : Result Progress × RecoveryTables)
      → Reach platform maximum start db
      → Reach platform maximum start rest.1
      → Reach platform maximum start (go_on_after id outcome db rest).1
  go_on_after-Reach id (ok result) start db rest h k = k
  go_on_after-Reach id (err cancelled) start db rest h k = h
  go_on_after-Reach id (err _) start db rest h k = k

  -- The loop of a batch over any actions, with any answers of the providers, only takes steps of the
  -- executor on the tables, with the batch's limit on the attempts, also when it is cancelled.
  pub run_each-Reach :
      (provider : ℕ → LinkProvider) (customers : Option CustomerProvider) (ids : List ℕ)
      (db : RecoveryTables) (bounds : Bounds) (at : Datetime)
      → Reach platform bounds.maximum_attempts db
          (run_each platform uuid_hex around provider customers db ids bounds at).1
  unfolding run_each
  run_each-Reach provider customers [] db bounds at = here
  run_each-Reach provider customers (id ∷ ids) db bounds at =
      let first = execute_action-Reach (provider id) customers db id bounds at in
      go_on_after-Reach id _ db _ _ first
        (Reach-trans first (run_each-Reach provider customers ids _ bounds at))
