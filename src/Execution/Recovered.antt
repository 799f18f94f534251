-- ===== src/Execution/Recovered.antt =====
-- The denial of an action whose case has been recovered, against the lifecycle constraint of cases.
use reclaim_rail.Base.{
  ℕ, ◌≡◌, refl, sym, ◌∙◌, ap, subst, inl, String, true, false, some, is_some, ok, some_inj,
  Datetime,
}
use reclaim_rail.Base.Rows.{find, put, find_key, found-put}
use reclaim_rail.Recovery.Models.{CaseStatus, stop}
use reclaim_rail.Recovery.Policy.{default_recovery_policy, is_terminal}
use reclaim_rail.Recovery.Policy.Allowed.{evaluate-stop}
use reclaim_rail.Audit.Chain.{Platform}
use reclaim_rail.Storage.{RecoveryCase, RecoveryAction, RecoveryTables, case_lifecycle}
use reclaim_rail.Execution.{Preparation, Bounds, Surroundings, is_succeeded, deny_case}
use reclaim_rail.Execution.Prepare.{judge, conclude, start_unless_done, prepare_action}
use reclaim_rail.Execution.Prepared.{incident_for, prepare_action-Found, start_action-Begun}
use reclaim_rail.Execution.Reached.{deny_action-record_event}
use reclaim_rail.Storage.Events.{record_event_frame}
use reclaim_rail.Execution.Fields.{built_status}

module _ (platform : Platform) (uuid_hex : ℕ → String) (around : Surroundings) where
  -- When a preparation of an action that has not succeeded returns for a case that is recovered, with
  -- its time of recovery, it has written a case that is cancelled and keeps that time, which the
  -- lifecycle constraint of the table forbids: the constraint turns every such preparation into an
  -- error.
  pub denied_recovered :
      (db db' : RecoveryTables) (id : ℕ) (bounds : Bounds) (at : Datetime) (r : Preparation)
      (a : RecoveryAction) (c : RecoveryCase)
      → prepare_action platform uuid_hex around db id bounds at ≡ ok (r, db')
      → find (λ a. a.id) id db.actions ≡ some a
      → is_succeeded a.status ≡ false
      → find (λ c. c.id) a.recovery_case_id db.cases ≡ some c
      → c.status ≡ CaseStatus.recovered
      → is_some c.recovered_at ≡ true
      → (c' : RecoveryCase) × (find (λ c. c.id) c.id db'.cases ≡ some c')
        × (c'.status ≡ CaseStatus.cancelled)
        × (case_lifecycle c' ≡ false)
  denied_recovered db db' id bounds at r a c h row pending of_case recovered since =
      let found = prepare_action-Found platform uuid_hex around db db' id bounds at r h in
      let same : found.action ≡ a = some_inj _ _ (sym found.action_row ∙ row) in
      let started : start_unless_done platform uuid_hex around false db a bounds at ≡ ok (r, db') =
        subst (λ t. start_unless_done platform uuid_hex around t db a bounds at ≡ ok (r, db'))
          pending
          (subst
            (λ x.
              start_unless_done platform uuid_hex around (is_succeeded x.status) db x bounds at
              ≡ ok (r, db'))
            same found.ended) in
      let begun = start_action-Begun platform uuid_hex around db db' a bounds at r started in
      let j = begun.judged in
      let that : begun.recovery_case ≡ c = some_inj _ _ (sym begun.case_row ∙ of_case) in
      let status : j.snapshot.status ≡ CaseStatus.recovered =
        built_status begun.recovery_case begun.payment _ j.snapshot j.taken
        ∙ ap (λ x. x.status) that
        ∙ recovered in
      let stopped : j.decision.outcome ≡ stop =
        evaluate-stop default_recovery_policy j.snapshot j.proposal at j.decision j.evaluated
          (inl (ap is_terminal status)) in
      let denied =
        subst
          (λ o.
            conclude platform uuid_hex o db j.decision
              (judge platform a j.decision j.checks bounds.link_lifetime at) begun.recovery_case
              begun.payment (incident_for around begun.recovery_case) bounds.link_lifetime at
            ≡ ok (r, db'))
          stopped j.ended in
      let (events, tables) =
        record_event_frame platform _ db' begun.recovery_case.id _ (
          deny_action-record_event platform db db' j.decision _ begun.recovery_case _ at r
            denied) in
      let same_case : deny_case j.decision.outcome at begun.recovery_case ≡ deny_case stop at c =
        ap (λ o. deny_case o at begun.recovery_case) stopped ∙ ap (deny_case stop at) that in
      let row_kept : find (λ x. x.id) c.id db.cases ≡ some c =
        ap (λ i. find (λ x. x.id) i db.cases)
          (find_key (λ x. x.id) a.recovery_case_id db.cases c of_case)
        ∙ of_case in
      (
        deny_case stop at c,
        ap (λ x. find (λ y. y.id) c.id x.cases) tables
            ∙ ap (λ x. find (λ y. y.id) c.id (put (λ y. y.id) x db.cases)) same_case
            ∙ found-put (λ y. y.id) c.id (deny_case stop at c) c db.cases row_kept refl,
        refl,
        simp since,
      )
