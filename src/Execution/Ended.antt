-- ===== src/Execution/Ended.antt =====
-- The completion and the failure of an action as steps of `Moves`.
use reclaim_rail.Base.{
  passed_guard, ◌∙◌, ap, ℕ, ◌≡◌, refl, ℤ, Bool, true, not, some, ok, raise_if, present-some,
  >>=-eq-ok, >>-eq-ok, Datetime,
}
use reclaim_rail.Base.Rows.{find}
use reclaim_rail.Audit.Chain.{Platform}
use reclaim_rail.Links.{PaymentLink, ProviderError}
use reclaim_rail.Storage.{RecoveryAction, RecoveryTables}
use reclaim_rail.Storage.Events.{record_event}
use reclaim_rail.Execution.{PreparedAction, ExecutionResult, is_executing}
use reclaim_rail.Execution.Finish.{
  completed_action, completed_case, failed_action, case_after_failure, may_retry, write_completed,
  write_failed, find_case,
}
use reclaim_rail.Execution.Moves.{completes, fails, Step}

module _ (platform : Platform) where
  -- the completion and the failure
  pub write_completed-Step :
      (maximum : ℤ) (db db' : RecoveryTables) (p : PreparedAction) (id : ℕ) (a : RecoveryAction)
      (link : PaymentLink) (recovered_existing : Bool) (at : Datetime) (r : ExecutionResult)
      → find (λ a. a.id) id db.actions ≡ some a
      → write_completed platform db p a link recovered_existing at ≡ ok (r, db')
      → Step platform maximum db db'
  unfolding write_completed
  write_completed-Step maximum db db' p id a link recovered_existing at r row h =
      let (claimed, h₁) = >>-eq-ok (raise_if (not (is_executing a.status)) _) _ h in
      let (c, h₂, h₃) = >>=-eq-ok (find_case platform db a.recovery_case_id) _ h₁ in
      let (db₁, h₄, h₅) = >>=-eq-ok (record_event platform _ c.id _) _ h₃ in
      let same : db₁ ≡ db' = cc in
      record {
        id = id;
        action = a;
        recovery_case = c;
        new_action = completed_action p link at a;
        new_case = completed_case link at c;
        event = _;
        action_row = row;
        case_row = present-some _ _ c h₂;
        move = completes p link at (passed_guard (is_executing a.status) _ claimed) refl refl;
        recorded = h₄ ∙ ap (λ x. ok x) same;
      }

  pub write_failed-Step :
      (maximum : ℤ) (db db' : RecoveryTables) (id : ℕ) (a : RecoveryAction) (e : ProviderError)
      (at : Datetime) (retryable : Bool)
      → find (λ a. a.id) id db.actions ≡ some a
      → is_executing a.status ≡ true
      → write_failed platform db a e at maximum ≡ ok (retryable, db')
      → Step platform maximum db db'
  unfolding write_failed
  write_failed-Step maximum db db' id a e at retryable row running h =
      let (c, h₂, h₃) = >>=-eq-ok (find_case platform db a.recovery_case_id) _ h in
      let (db₁, h₄, h₅) = >>=-eq-ok (record_event platform _ c.id _) _ h₃ in
      let same : db₁ ≡ db' = cc in
      let again = may_retry e a.execution_attempt_count maximum in
      record {
        id = id;
        action = a;
        recovery_case = c;
        new_action = failed_action again e at a;
        new_case = case_after_failure again e a.execution_attempt_count at c;
        event = _;
        action_row = row;
        case_row = present-some _ _ c h₂;
        move = fails again e at running refl refl;
        recorded = h₄ ∙ ap (λ x. ok x) same;
      }
