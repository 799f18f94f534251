-- ===== src/Approvals/Decided.antt =====
-- What a decision leaves: a retry of it, another decision after it, and what lets an action run.
use Prim.Native.String as Str
use reclaim_rail.Base.{
  ℕ, ◌+◌, ◌≡◌, refl, sym, ap, ◌∙◌, ℤ, pos, ltb_ℤ, String, Bool, true, false, some, ok, err,
  conflict_error, Datetime, arith, ◌≢◌, eq_refl,
}
use reclaim_rail.Audit.Chain.{Platform}
use reclaim_rail.Storage.{ActionStatus, pending, approved, approval_status_value, RecoveryTables}
use reclaim_rail.Approvals.{
  ApprovalDecision, approve, reject, Disposition, decided, already_decided, bounded_text,
  approval_is,
}
use reclaim_rail.Approvals.Decisions.{
  Graph, target_status, decide_graph, load_graph, decide_loaded, decide_approval,
}
use reclaim_rail.Approvals.Parts.{after_load, Loaded-load_graph, Open, decide_approval-Through}
use reclaim_rail.Approvals.Ended.{
  repeated, expires, decides, decide_approval-Ended, decided_rows, entry,
}

target_reached :
    (decision : ApprovalDecision)
    → approval_is (target_status decision) (target_status decision) ≡ true
target_reached approve = refl
target_reached reject = refl

not_pending : (decision : ApprovalDecision) → approval_is (target_status decision) pending ≡ false
not_pending approve = refl
not_pending reject = refl

other_target :
    (decision other : ApprovalDecision)
    → decision ≢ other
    → approval_is (target_status decision) (target_status other) ≡ false
other_target approve approve ne = absurd (ne refl)
other_target approve reject ne = refl
other_target reject approve ne = refl
other_target reject reject ne = absurd (ne refl)

-- an action that the executor may take up
abbrev pub released : ActionStatus → Bool
released ActionStatus.allowed = true
released ActionStatus.scheduled = true
released _ = false

abbrev pub refusal : ApprovalDecision → String
refusal decision =
    Str.◌++◌ "Approval cannot be decided from " (approval_status_value (target_status decision))

module _ (platform : Platform) where
  -- the same evidence again, and another decision
  same_evidence :
      (db : RecoveryTables) (g h : Graph) (decision : ApprovalDecision) (reviewer reason : String)
      (v : ℤ) (at at' : Datetime)
      → h ≡ decide_graph decision reviewer reason at g
      → after_load platform db h decision reviewer reason v at' ≡ ok (h, already_decided, db)
  same_evidence db g h decision reviewer reason v at at' e =
      let by : h.approval.decided_by ≡ some reviewer = ap (λ k. k.approval.decided_by) e in
      let why : h.approval.decision_reason ≡ some reason = ap (λ k. k.approval.decision_reason) e in
      let status : h.approval.status ≡ target_status decision = ap (λ k. k.approval.status) e in
      simp (status, target_reached decision, by, why, eq_refl reviewer, eq_refl reason)

  other_evidence :
      (db : RecoveryTables) (g h : Graph) (decision other : ApprovalDecision)
      (reviewer reason reviewer' reason' : String) (v : ℤ) (at at' : Datetime)
      → h ≡ decide_graph decision reviewer reason at g
      → decision ≢ other
      → after_load platform db h other reviewer' reason' v at'
        ≡ err (conflict_error (refusal decision))
  unfolding decide_loaded
  other_evidence db g h decision other reviewer reason reviewer' reason' v at at' e ne =
      let status : h.approval.status ≡ target_status decision = ap (λ k. k.approval.status) e in
      simp (status, other_target decision other ne, not_pending decision)

  -- After a decision that was made, the same decision with the same reviewer and reason again, at
  -- any aware time and with any version that is not negative, returns the same rows as already
  -- decided and leaves the tables as they are.
  pub decided_retry :
      (db db' : RecoveryTables) (id : ℕ) (decision : ApprovalDecision) (reviewer_id reason : String)
      (v w : ℤ) (at later_at : Datetime) (after : Graph)
      → decide_approval platform db id decision reviewer_id reason v at ≡ ok (after, decided, db')
      → later_at.tz_aware ≡ true
      → ltb_ℤ w (pos 0) ≡ false
      → decide_approval platform db' id decision reviewer_id reason w later_at
        ≡ ok (after, already_decided, db')
  decided_retry db db' id decision reviewer_id reason v w at later_at after h aware expected =
      let t = decide_approval-Through platform db id decision reviewer_id reason v at _ h in
      let (made, l) = decided_rows platform (
        decide_approval-Ended platform db db' id decision reviewer_id reason v at after decided
          t) in
      entry platform db' id decision reviewer_id reason t.reviewer t.because w later_at after aware
        expected t.reviewer_text t.reason_text l
      ∙ same_evidence db' t.before_it after decision t.reviewer t.because w at later_at made

  -- After a decision that was made, the opposite decision with accepted inputs, whoever takes it,
  -- is refused as a conflict that names the status reached.
  pub decided_final :
      (db db' : RecoveryTables) (id : ℕ) (decision other : ApprovalDecision)
      (reviewer_id reason other_id other_reason other_reviewer why : String) (v w : ℤ)
      (at later_at : Datetime) (after : Graph)
      → decide_approval platform db id decision reviewer_id reason v at ≡ ok (after, decided, db')
      → decision ≢ other
      → later_at.tz_aware ≡ true
      → ltb_ℤ w (pos 0) ≡ false
      → bounded_text other_id "Reviewer ID" 128 ≡ ok other_reviewer
      → bounded_text other_reason "Decision reason" 1000 ≡ ok why
      → decide_approval platform db' id other other_id other_reason w later_at
        ≡ err (conflict_error (refusal decision))
  decided_final db db' id decision other reviewer_id reason other_id other_reason other_reviewer why
        v w at later_at after h ne aware expected p q =
      let t = decide_approval-Through platform db id decision reviewer_id reason v at _ h in
      let (made, l) = decided_rows platform (
        decide_approval-Ended platform db db' id decision reviewer_id reason v at after decided
          t) in
      entry platform db' id other other_id other_reason other_reviewer why w later_at after aware
        expected p q l
      ∙ other_evidence db' t.before_it after decision other t.reviewer t.because other_reviewer why
          w at later_at made ne

  -- what a decision that lets an action run has gone by
  pub record Approving (before_it after : Graph) (decision : ApprovalDecision)
      (disposition : Disposition) (v : ℤ) (at : Datetime) : Type 0 where
    approving : decision ≡ approve
    deciding : disposition ≡ decided
    opened : Open platform before_it v at
    marked : after.approval.status ≡ approved
    counted : after.approval.version ≡ before_it.approval.version + 1

  decide_graph-Approving :
      (decision : ApprovalDecision) (before_it after : Graph) (disposition : Disposition)
      (reviewer reason : String) (v : ℤ) (at : Datetime)
      → disposition ≡ decided
      → Open platform before_it v at
      → after ≡ decide_graph decision reviewer reason at before_it
      → released after.action.status ≡ true
      → Approving before_it after decision disposition v at
  decide_graph-Approving approve before_it after disposition reviewer reason v at kind opened same
        free =
      record {
        approving = refl;
        deciding = kind;
        opened = opened;
        marked = ap (λ k. k.approval.status) same;
        counted = ap (λ k. k.approval.version) same;
      }
  decide_graph-Approving reject before_it after disposition reviewer reason v at kind opened same
        free =
      let stopped : after.action.status ≡ ActionStatus.cancelled = ap (λ k. k.action.status) same in
      absurd (ground arith)

  -- When a decision returns and the action, which could not run before, may run now, then the
  -- decision was an approval of a pending approval at the expected version, before its expiry and
  -- for an action that awaited it; the approval is marked as approved with its version counted up,
  -- and these rows are stored.
  pub released_by_approval :
      (db db' : RecoveryTables) (id : ℕ) (decision : ApprovalDecision) (reviewer_id reason : String)
      (v : ℤ) (at : Datetime) (before_it after : Graph) (disposition : Disposition)
      → load_graph platform db id ≡ ok before_it
      → decide_approval platform db id decision reviewer_id reason v at
        ≡ ok (after, disposition, db')
      → released before_it.action.status ≡ false
      → released after.action.status ≡ true
      → Approving before_it after decision disposition v at
        × (load_graph platform db' id ≡ ok after)
  released_by_approval db db' id decision reviewer_id reason v at before_it after disposition loaded
        h held free =
      let t = decide_approval-Through platform db id decision reviewer_id reason v at _ h in
      let same : ok before_it ≡ ok t.before_it =
        sym loaded ∙ Loaded-load_graph platform db id t.before_it t.rows in
      let g : t.before_it ≡ before_it = cc in
      elim (decide_approval-Ended platform db db' id decision reviewer_id reason v at after
        disposition t) [
          | repeated kind e frame ↦
              (let stays : after.action.status ≡ before_it.action.status =
                  ap (λ k. k.action.status) (e ∙ g) in
                absurd (ground arith))
          | expires kind e l ↦
              (let stopped : after.action.status ≡ ActionStatus.cancelled =
                  ap (λ k. k.action.status) e in
                absurd (ground arith))
          | decides kind opened e l ↦ (
            rw g at (
                decide_graph-Approving decision t.before_it after disposition t.reviewer t.because v
                  at kind opened e free),
            Loaded-load_graph platform db' id after l.rows,
          )
        ]
