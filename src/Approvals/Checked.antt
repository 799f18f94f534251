-- ===== src/Approvals/Checked.antt =====
-- The check constraints of the tables under the operations on approvals.
use reclaim_rail.Base.{
  ℕ, ◌≡◌, sym, subst, ◌∙◌, ℤ, String, Bool, true, false, ok, all, Datetime, arith,
}
use reclaim_rail.Base.Rows.{all-put, all-find}
use reclaim_rail.Audit.Chain.{Platform}
use reclaim_rail.Recovery.Models.{CaseStatus}
use reclaim_rail.Storage.{RecoveryCase, RecoveryTables, approval_checks, case_lifecycle}
use reclaim_rail.Approvals.{ApprovalDecision, approve, reject, Disposition}
use reclaim_rail.Approvals.Decisions.{
  Graph, decide_graph, expire_case, expire_graph, load_graph, decide_approval,
}
use reclaim_rail.Approvals.Parts.{Loaded, Loaded-load_graph, Saved, decide_approval-Through}
use reclaim_rail.Approvals.Ended.{repeated, expires, decides, decide_approval-Ended}

-- a case that is neither recovered, exhausted nor cancelled
abbrev pub is_open : CaseStatus → Bool
is_open CaseStatus.recovered = false
is_open CaseStatus.exhausted = false
is_open CaseStatus.cancelled = false
is_open _ = true

-- the constraints of the two tables
abbrev pub Checked : RecoveryTables → Type 0
Checked db = (all approval_checks db.approvals ≡ true) × (all case_lifecycle db.cases ≡ true)

decide_case_lifecycle :
    (decision : ApprovalDecision) (reviewer reason : String) (at : Datetime) (g : Graph)
    → is_open g.recovery_case.status ≡ true
    → case_lifecycle g.recovery_case ≡ true
    → case_lifecycle (decide_graph decision reviewer reason at g).recovery_case ≡ true
decide_case_lifecycle approve reviewer reason at g o h = ground arith
decide_case_lifecycle reject reviewer reason at g o h = ground arith

decide_approval_checks :
    (decision : ApprovalDecision) (reviewer reason : String) (at : Datetime) (g : Graph)
    → approval_checks g.approval ≡ true
    → approval_checks (decide_graph decision reviewer reason at g).approval ≡ true
decide_approval_checks approve reviewer reason at g h = ground arith
decide_approval_checks reject reviewer reason at g h = ground arith

expire_approval_checks :
    (at : Datetime) (g : Graph)
    → approval_checks g.approval ≡ true
    → approval_checks (expire_graph at g).approval ≡ true
expire_approval_checks at g h = ground arith

expire_case_lifecycle :
    (at : Datetime) (c : RecoveryCase)
    → case_lifecycle c ≡ true
    → case_lifecycle (expire_case at c) ≡ true
expire_case_lifecycle at c h = ground arith

module _ (platform : Platform) where
  Saved-Checked :
      (db db' : RecoveryTables) (id : ℕ) (after : Graph)
      → Checked db
      → Saved platform db id after db'
      → approval_checks after.approval ≡ true
      → case_lifecycle after.recovery_case ≡ true
      → Checked db'
  Saved-Checked db db' id after (a, c) w p q = (
    subst (λ d. all approval_checks d.approvals ≡ true) (sym w.frame)
        (all-put (λ x. x.id) approval_checks after.approval db.approvals a p),
    subst (λ d. all case_lifecycle d.cases ≡ true) (sym w.frame)
        (all-put (λ x. x.id) case_lifecycle after.recovery_case db.cases c q),
  )

  Loaded-Checked :
      (db : RecoveryTables) (id : ℕ) (g : Graph)
      → Checked db
      → Loaded platform db id g
      → (approval_checks g.approval ≡ true) × (case_lifecycle g.recovery_case ≡ true)
  Loaded-Checked db id g (a, c) l = (
    all-find (λ x. x.id) approval_checks id db.approvals g.approval a l.approval_row,
    all-find (λ x. x.id) case_lifecycle _ db.cases g.recovery_case c l.case_row,
  )

  -- When every row keeps the check constraints on approvals and on the lifecycle of cases, the case
  -- of the approval is open and a decision returns, in whichever way it ends, every row keeps them.
  pub decide-Checked :
      (db db' : RecoveryTables) (id : ℕ) (decision : ApprovalDecision) (reviewer_id reason : String)
      (v : ℤ) (at : Datetime) (g after : Graph) (disposition : Disposition)
      → Checked db
      → load_graph platform db id ≡ ok g
      → is_open g.recovery_case.status ≡ true
      → decide_approval platform db id decision reviewer_id reason v at
        ≡ ok (after, disposition, db')
      → Checked db'
  decide-Checked db db' id decision reviewer_id reason v at g after disposition checked loaded
        opened h =
      let t = decide_approval-Through platform db id decision reviewer_id reason v at _ h in
      let both : ok g ≡ ok t.before_it =
        sym loaded ∙ Loaded-load_graph platform db id t.before_it t.rows in
      let same : g ≡ t.before_it = cc in
      let (p, q) = Loaded-Checked db id t.before_it checked t.rows in
      elim (decide_approval-Ended platform db db' id decision reviewer_id reason v at after
        disposition t) [
          | repeated kind e frame ↦ subst Checked (sym frame) checked
          | expires kind e w ↦
              Saved-Checked db db' id after checked w
                (rw e (expire_approval_checks at t.before_it p))
                (rw e (expire_case_lifecycle at t.before_it.recovery_case q))
          | decides kind o e w ↦
              Saved-Checked db db' id after checked w
                (rw e (decide_approval_checks decision t.reviewer t.because at t.before_it p))
                (rw e (
                  decide_case_lifecycle decision t.reviewer t.because at t.before_it
                    (rw same at opened) q))
        ]
