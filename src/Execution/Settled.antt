-- ===== src/Execution/Settled.antt =====
-- apps/api/app/services/recovery_action_service.py: the executions of actions that are not to be
-- executed.
use reclaim_rail.Base.{
  ℕ, ◌≡◌, ◌≢◌, refl, sym, subst, ◌∙◌, ap, ◌⊎◌, inl, inr, String, true, false, Bool-cases, Option,
  some, Result, ok, err, Exn, value_error, require_timezone_aware, Result-cases, some_inj, Datetime,
  arith,
}
use reclaim_rail.Base.Rows.{find}
use reclaim_rail.Audit.Chain.{Platform}
use reclaim_rail.Storage.{ActionStatus, RecoveryAction, RecoveryTables}
use reclaim_rail.Execution.{
  ExecutionResult, already_succeeded, Preparation, terminal, Bounds, Surroundings, is_succeeded,
}
use reclaim_rail.Execution.Prepare.{check_claim, start_unless_done, prepare_action}
use reclaim_rail.Execution.Run.{
  LinkProvider, CustomerProvider, transact, after_check, go_on, execute_action,
}
use reclaim_rail.Execution.Prepared.{prepare_action-Found, start_action-Begun}
use reclaim_rail.Execution.Moves.{startable}

-- a preparation that ends without a claim
Ended : RecoveryTables → RecoveryAction → Result (Preparation × RecoveryTables) → Type 0
Ended db a m =
    ((e : Exn) × (m ≡ err e))
    ⊎ ((r : ExecutionResult) × (m ≡ ok (terminal r, db))
        × (a.status ≡ ActionStatus.succeeded)
        × (r.disposition ≡ already_succeeded))

succeeded_lem : (s : ActionStatus) → is_succeeded s ≡ true → s ≡ ActionStatus.succeeded
succeeded_lem ActionStatus.succeeded h = refl
succeeded_lem _ h = absurd (ground arith)

module _ (platform : Platform) (uuid_hex : ℕ → String) (around : Surroundings) (db : RecoveryTables)
    (a : RecoveryAction) (bounds : Bounds) (at : Datetime) where
  unclaimable : startable a.status ≡ false → check_claim platform a bounds at ≢ ok tt
  unfolding check_claim
  unclaimable h k = ground arith

  start-Ended :
      (db' : RecoveryTables) (r : Preparation)
      → startable a.status ≡ false
      → start_unless_done platform uuid_hex around (is_succeeded a.status) db a bounds at
        ≡ ok (r, db')
      → Ended db a (ok (r, db'))
  unfolding Ended
  start-Ended db' r h k = elim (Bool-cases (is_succeeded a.status)) [
    | inl e ↦ inr (
      _,
      sym k ∙ ap (λ b. start_unless_done platform uuid_hex around b db a bounds at) e,
      succeeded_lem a.status e,
      refl,
    )
    | inr e ↦
        let begun =
          start_action-Begun platform uuid_hex around db db' a bounds at r
            (ap (λ b. start_unless_done platform uuid_hex around b db a bounds at) (sym e) ∙ k) in
        absurd (unclaimable h begun.may_claim)
  ]

  prepare-Ended :
      (id : ℕ)
      → startable a.status ≡ false
      → find (λ a. a.id) id db.actions ≡ some a
      → Ended db a (prepare_action platform uuid_hex around db id bounds at)
  unfolding Ended
  prepare-Ended id h row =
      elim (Result-cases (prepare_action platform uuid_hex around db id bounds at)) [
        | inl (e, k) ↦ inl (e, k)
        | inr ((r, db'), k) ↦
            let found = prepare_action-Found platform uuid_hex around db db' id bounds at r k in
            let same : found.action ≡ a = some_inj _ _ (sym found.action_row ∙ row) in
            rw k (
              start-Ended db' r h (
                subst
                  (λ x.
                    start_unless_done platform uuid_hex around (is_succeeded x.status) db x bounds
                      at
                    ≡ ok (r, db'))
                  same found.ended))
      ]

  -- the second half of an execution finds nothing to settle
  go_on-Ended :
      (m : Result (Preparation × RecoveryTables))
      → Ended db a m
      → (answer : Result ExecutionResult) × ((provider : LinkProvider)
            (customers : Option CustomerProvider)
          → go_on platform provider customers bounds.maximum_attempts at (transact db m)
            ≡ (answer, db))
        × (((e : Exn) × (answer ≡ err e))
            ⊎ ((r : ExecutionResult) × (answer ≡ ok r)
                × (a.status ≡ ActionStatus.succeeded)
                × (r.disposition ≡ already_succeeded)))
  unfolding Ended
  go_on-Ended m (inl (e, k)) = rw k (err e, λ provider customers. refl, inl (e, refl))
  go_on-Ended m (inr (r, k, done, disposed)) =
      rw k (ok r, λ provider customers. refl, inr (r, refl, done, disposed))

  -- An execution of an action that is neither executing nor allowed, scheduled or failed leaves the
  -- tables as they are, and has one answer whatever the providers of links and of customers would
  -- answer or raise: an exception, or, for an action that has succeeded, the result that says so.
  pub execute_settled :
      (id : ℕ)
      → startable a.status ≡ false
      → find (λ a. a.id) id db.actions ≡ some a
      → (answer : Result ExecutionResult) × ((provider : LinkProvider)
            (customers : Option CustomerProvider)
          → execute_action platform uuid_hex around provider customers db id bounds at
            ≡ (answer, db))
        × (((e : Exn) × (answer ≡ err e))
            ⊎ ((r : ExecutionResult) × (answer ≡ ok r)
                × (a.status ≡ ActionStatus.succeeded)
                × (r.disposition ≡ already_succeeded)))
  unfolding execute_action
  execute_settled id h row =
      let (answer, same, said) =
        go_on-Ended (prepare_action platform uuid_hex around db id bounds at)
          (prepare-Ended id h row) in
      let whole_run : LinkProvider
          → Option CustomerProvider
          → Result ExecutionResult × RecoveryTables =
        λ provider customers.
          go_on platform provider customers bounds.maximum_attempts at
            (transact db (prepare_action platform uuid_hex around db id bounds at)) in
      elim (Result-cases (
        require_timezone_aware at
          (value_error "Recovery action execution time must be timezone-aware"))) [
            | inl (e, bare) ↦ (
              err e,
              λ provider customers.
                  ap (λ c. after_check platform c db (whole_run provider customers)) bare,
              inl (e, refl),
            )
            | inr (_, zoned) ↦ (
              answer,
              λ provider customers.
                  ap (λ c. after_check platform c db (whole_run provider customers)) zoned
                  ∙ same provider customers,
              said,
            )
          ]
