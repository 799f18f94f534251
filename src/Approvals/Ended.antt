-- ===== src/Approvals/Ended.antt =====
-- How a decision on an approval ends, and the decision once its inputs and rows are there.
use reclaim_rail.Base.{
  ℕ, ◌≡◌, ℤ, pos, ltb_ℤ, String, true, false, ok, Datetime, arith, Bool-cases, inl, inr,
}
use reclaim_rail.Audit.Chain.{Platform}
use reclaim_rail.Storage.{RecoveryTables}
use reclaim_rail.Approvals.{
  ApprovalDecision, Disposition, decided, already_decided, expired_now, bounded_text, approval_is,
}
use reclaim_rail.Approvals.Decisions.{
  Graph, target_status, decide_graph, expire_graph, decided_before, decide_loaded, decide_approval,
}
use reclaim_rail.Approvals.Parts.{
  after_load, Loaded, Loaded-load_graph, Saved, save-Saved, decide_graph-SameKeys,
  expire_graph-SameKeys, Open, Through, decide_loaded-end, write_decision_frame, expire_late_frame,
}

module _ (platform : Platform) where
  -- over the rows `g`
  pub data Ended (db : RecoveryTables) (id : ℕ) (decision : ApprovalDecision) (v : ℤ)
      (at : Datetime) (reviewer reason : String) (g after : Graph) (disposition : Disposition)
      (db' : RecoveryTables) : Type 0 where
    repeated :
        disposition ≡ already_decided
        → after ≡ g
        → db' ≡ db
        → Ended db id decision v at reviewer reason g after disposition db'
    expires :
        disposition ≡ expired_now
        → after ≡ expire_graph at g
        → Saved platform db id after db'
        → Ended db id decision v at reviewer reason g after disposition db'
    decides :
        disposition ≡ decided
        → Open platform g v at
        → after ≡ decide_graph decision reviewer reason at g
        → Saved platform db id after db'
        → Ended db id decision v at reviewer reason g after disposition db'

  again_frame :
      (db db' : RecoveryTables) (g after : Graph) (reviewer reason : String)
      (disposition : Disposition)
      → decided_before platform db g reviewer reason ≡ ok (after, disposition, db')
      → (after ≡ g) × (disposition ≡ already_decided) × (db' ≡ db)
  again_frame db db' g after reviewer reason disposition h = ground arith

  decide_loaded-Ended :
      (db db' : RecoveryTables) (id : ℕ) (decision : ApprovalDecision) (reviewer reason : String)
      (v : ℤ) (at : Datetime) (g after : Graph) (disposition : Disposition)
      → Loaded platform db id g
      → decide_loaded platform db g decision reviewer reason v at ≡ ok (after, disposition, db')
      → Ended db id decision v at reviewer reason g after disposition db'
  decide_loaded-Ended db db' id decision reviewer reason v at g after disposition l h =
      elim (decide_loaded-end platform db g decision reviewer reason v at _ h) [
        | inl (late, q) ↦
            (let (same, kind, (events, frame)) =
                expire_late_frame platform db db' g after at disposition q in
              expires kind same (
                save-Saved platform db db' id g _ after events l
                  (expire_graph-SameKeys platform at g) same frame))
        | inr (opened, q) ↦
            (let (same, kind, (events, frame)) =
                write_decision_frame platform db db' g after decision reviewer reason at disposition
                  q in
              decides kind opened same (
                save-Saved platform db db' id g _ after events l
                  (decide_graph-SameKeys platform decision reviewer reason at g) same frame))
      ]

  pub decide_approval-Ended :
      (db db' : RecoveryTables) (id : ℕ) (decision : ApprovalDecision) (reviewer_id reason : String)
      (v : ℤ) (at : Datetime) (after : Graph) (disposition : Disposition)
      (t : Through platform db id decision reviewer_id reason v at (after, disposition, db'))
      → Ended db id decision v at t.reviewer t.because t.before_it after disposition db'
  decide_approval-Ended db db' id decision reviewer_id reason v at after disposition t =
      elim (Bool-cases (approval_is t.before_it.approval.status (target_status decision))) [
        | inl h ↦
            (let (same, kind, frame) =
                again_frame db db' t.before_it after t.reviewer t.because disposition
                  (rw h at t.rest) in
              repeated kind same frame)
        | inr h ↦
            decide_loaded-Ended db db' id decision t.reviewer t.because v at t.before_it after
              disposition t.rows (rw h at t.rest)
      ]

  pub decided_rows :
      {db db' : RecoveryTables} {id : ℕ} {decision : ApprovalDecision} {v : ℤ} {at : Datetime}
      {reviewer reason : String} {g after : Graph}
      → Ended db id decision v at reviewer reason g after decided db'
      → (after ≡ decide_graph decision reviewer reason at g) × Loaded platform db' id after
  decided_rows (repeated kind same frame) = absurd cc
  decided_rows (expires kind same l) = absurd cc
  decided_rows (decides kind opened same w) = (same, w.rows)

  pub entry :
      (db : RecoveryTables) (id : ℕ) (decision : ApprovalDecision)
      (reviewer_id reason reviewer because : String) (v : ℤ) (at : Datetime) (g : Graph)
      → at.tz_aware ≡ true
      → ltb_ℤ v (pos 0) ≡ false
      → bounded_text reviewer_id "Reviewer ID" 128 ≡ ok reviewer
      → bounded_text reason "Decision reason" 1000 ≡ ok because
      → Loaded platform db id g
      → decide_approval platform db id decision reviewer_id reason v at
        ≡ after_load platform db g decision reviewer because v at
  unfolding decide_approval
  entry db id decision reviewer_id reason reviewer because v at g aware expected p q l =
      simp (aware, expected, p, q, Loaded-load_graph platform db id g l)
