-- ===== src/Approvals/Parts.antt =====
-- What an operation on approvals has gone through when it returns.
use reclaim_rail.Base.{
  ℕ, ◌≡◌, refl, sym, subst, ℤ, pos, ltb_ℤ, eqb_ℤ, not_after, String, true, false, Option, none,
  some, List, ◌>>=◌, not, ◌⊎◌, Bool-cases, Result, ok, err, Datetime, arith, >>=-eq-ok, present,
  present-some, after_guards, inl, inr, if◌then◌else◌,
}
use reclaim_rail.Base.Rows.{find, put, find_key, found-put}
use reclaim_rail.Audit.Chain.{Platform, ChainEntry}
use reclaim_rail.Storage.Events.{record_event, record_event_frame}
use reclaim_rail.Storage.{pending, RecoveryAction, RecoveryTables}
use reclaim_rail.Approvals.{
  ApprovalDecision, approve, reject, Disposition, decided, expired_now, awaits_approval,
  bounded_text, approval_is,
}
use reclaim_rail.Approvals.Decisions.{
  Graph, target_status, decide_graph, expire_graph, later, approved_action, save, decided_before,
  load_graph, expire_approval, expire_late, write_decision, decide_loaded, decide_approval,
}

three_binds {ℓ κ μ ν} :
    {A : Type ℓ} {B : Type κ} {C : Type μ} {D : Type ν} (a : Result A) (b : Result B) (c : Result C)
    (rest : A → B → C → Result D) (answer : D)
    → (a >>= λ x. b >>= λ y. c >>= λ z. rest x y z) ≡ ok answer
    → (x : A) × (y : B) × (z : C) × (a ≡ ok x) × (b ≡ ok y) × (c ≡ ok z) × (rest x y z ≡ ok answer)
three_binds (ok x) (ok y) (ok z) rest answer h = (x, y, z, refl, refl, refl, h)
three_binds (err e) b c rest answer h = cc
three_binds (ok x) (err e) c rest answer h = cc
three_binds (ok x) (ok y) (err e) rest answer h = cc

module _ (platform : Platform) where
  -- a graph that is loaded
  pub record Loaded (db : RecoveryTables) (id : ℕ) (g : Graph) : Type 0 where
    pub approval_row : find (λ a. a.id) id db.approvals ≡ some g.approval
    pub action_row : find (λ a. a.id) g.approval.recovery_action_id db.actions ≡ some g.action
    pub case_row : find (λ c. c.id) g.approval.recovery_case_id db.cases ≡ some g.recovery_case

  pub load_graph-Loaded :
      (db : RecoveryTables) (id : ℕ) (g : Graph) → load_graph platform db id ≡ ok g → Loaded db id g
  unfolding load_graph
  load_graph-Loaded db id g h =
      let (approval, p, q) = >>=-eq-ok (present (find (λ a. a.id) id db.approvals) _) _ h in
      let (action, r, s) =
        >>=-eq-ok (present (find (λ a. a.id) approval.recovery_action_id db.actions) _) _ q in
      let (recovery_case, t, u) =
        >>=-eq-ok (present (find (λ c. c.id) approval.recovery_case_id db.cases) _) _ s in
      let same : record { approval = approval; action = action; recovery_case = recovery_case }
          ≡ g =
        cc in
      subst (Loaded db id) same (record {
        approval_row = present-some _ _ approval p;
        action_row = present-some _ _ action r;
        case_row = present-some _ _ recovery_case t;
      })

  pub Loaded-load_graph :
      (db : RecoveryTables) (id : ℕ) (g : Graph) → Loaded db id g → load_graph platform db id ≡ ok g
  unfolding load_graph
  Loaded-load_graph db id g l = rw (l.approval_row, l.action_row, l.case_row)

  -- the same graph with other contents
  pub record SameKeys (g h : Graph) : Type 0 where
    pub approval_key : h.approval.id ≡ g.approval.id
    pub action_key : h.action.id ≡ g.action.id
    pub case_key : h.recovery_case.id ≡ g.recovery_case.id
    pub of_action : h.approval.recovery_action_id ≡ g.approval.recovery_action_id
    pub of_case : h.approval.recovery_case_id ≡ g.approval.recovery_case_id

  pub Loaded-save :
      (db : RecoveryTables) (id : ℕ) (g h : Graph) (events : List ChainEntry)
      → Loaded db id g
      → SameKeys g h
      → Loaded (record (save h db) { audit_events = events }) id h
  Loaded-save db id g h events l k = record {
    approval_row =
        found-put (λ a. a.id) id h.approval g.approval db.approvals l.approval_row k.approval_key;
    action_row =
        subst (λ i. find (λ a. a.id) i (put (λ a. a.id) h.action db.actions) ≡ some h.action)
          (sym k.of_action)
          (found-put (λ a. a.id) _ h.action g.action db.actions l.action_row k.action_key);
    case_row =
        subst
          (λ i.
            find (λ a. a.id) i (put (λ a. a.id) h.recovery_case db.cases) ≡ some h.recovery_case)
          (sym k.of_case)
          (found-put (λ a. a.id) _ h.recovery_case g.recovery_case db.cases l.case_row k.case_key);
  }

  -- the row of the case after a save
  pub Loaded-case :
      (db : RecoveryTables) (id : ℕ) (g h : Graph)
      → Loaded db id g
      → SameKeys g h
      → find (λ c. c.id) g.recovery_case.id (save h db).cases ≡ some h.recovery_case
  Loaded-case db id g h l k =
      let key =
        find_key (λ c. c.id) g.approval.recovery_case_id db.cases g.recovery_case l.case_row in
      subst
        (λ i. find (λ c. c.id) i (put (λ c. c.id) h.recovery_case db.cases) ≡ some h.recovery_case)
        (sym key)
        (found-put (λ c. c.id) _ h.recovery_case g.recovery_case db.cases l.case_row k.case_key)

  -- tables in which a graph has been written, and nothing else but audit events
  pub record Saved (db : RecoveryTables) (id : ℕ) (after : Graph) (db' : RecoveryTables)
      : Type 0 where
    pub rows : Loaded db' id after
    pub events : List ChainEntry
    pub frame : db' ≡ record (save after db) { audit_events = events }

  pub save-Saved :
      (db db' : RecoveryTables) (id : ℕ) (g h after : Graph) (events : List ChainEntry)
      → Loaded db id g
      → SameKeys g h
      → after ≡ h
      → db' ≡ record (save after db) { audit_events = events }
      → Saved db id after db'
  save-Saved db db' id g h after events l k same frame = record {
    rows =
        subst (λ d. Loaded d id after) (sym frame)
          (Loaded-save db id g after events l (subst (SameKeys g) (sym same) k));
    events = events;
    frame = frame;
  }

  approved_action_id : (a : RecoveryAction) (o : Option Datetime) → (approved_action a o).id ≡ a.id
  approved_action_id a none = refl
  approved_action_id a (some t) = refl

  pub decide_graph-SameKeys :
      (decision : ApprovalDecision) (reviewer reason : String) (at : Datetime) (g : Graph)
      → SameKeys g (decide_graph decision reviewer reason at g)
  decide_graph-SameKeys approve reviewer reason at g = record {
    approval_key = refl;
    action_key = approved_action_id g.action (later g.action.execute_after at);
    case_key = refl;
    of_action = refl;
    of_case = refl;
  }
  decide_graph-SameKeys reject reviewer reason at g = record {
    approval_key = refl;
    action_key = refl;
    case_key = refl;
    of_action = refl;
    of_case = refl;
  }

  pub expire_graph-SameKeys : (at : Datetime) (g : Graph) → SameKeys g (expire_graph at g)
  expire_graph-SameKeys at g = record {
    approval_key = refl;
    action_key = refl;
    case_key = ground arith;
    of_action = refl;
    of_case = refl;
  }

  -- what has been so when an approval is decided
  pub record Open (g : Graph) (expected_version : ℤ) (at : Datetime) : Type 0 where
    pub still_pending : approval_is g.approval.status pending ≡ true
    pub same_version : eqb_ℤ (pos g.approval.version) expected_version ≡ true
    pub in_time : not_after g.approval.expires_at at ≡ false
    pub awaited : awaits_approval g.action.status ≡ true

  pub decide_loaded-end :
      (db : RecoveryTables) (g : Graph) (decision : ApprovalDecision) (reviewer reason : String)
      (v : ℤ) (at : Datetime) (answer : Graph × Disposition × RecoveryTables)
      → decide_loaded platform db g decision reviewer reason v at ≡ ok answer
      → ((not_after g.approval.expires_at at ≡ true) × (expire_late platform db g at ≡ ok answer))
        ⊎ (Open g v at × (write_decision platform db g decision reviewer reason at ≡ ok answer))
  unfolding decide_loaded expire_late write_decision
  decide_loaded-end db g decision reviewer reason v at answer h =
      elim (Bool-cases (not_after g.approval.expires_at at)) [
        | inl late ↦ inl (late, ground arith)
        | inr in_time ↦ inr (
          record {
            still_pending = ground arith;
            same_version = ground arith;
            in_time = in_time;
            awaited = ground arith;
          },
          ground arith,
        )
      ]

  pub write_decision_frame :
      (db db' : RecoveryTables) (g after : Graph) (decision : ApprovalDecision)
      (reviewer reason : String) (at : Datetime) (disposition : Disposition)
      → write_decision platform db g decision reviewer reason at ≡ ok (after, disposition, db')
      → (after ≡ decide_graph decision reviewer reason at g)
        × (disposition ≡ decided)
        × ((events : List ChainEntry) × (db' ≡ record (save after db) { audit_events = events }))
  unfolding write_decision
  write_decision_frame db db' g after decision reviewer reason at disposition h =
      let graph = decide_graph decision reviewer reason at g in
      let (db₁, p, q) = >>=-eq-ok (record_event platform (save graph db) _ _) _ h in
      let (events, frame) = record_event_frame platform (save graph db) db₁ _ _ p in
      let same : after ≡ graph = cc in (same, cc, (events, cc))

  pub expire_approval_frame :
      (db db' : RecoveryTables) (g after : Graph) (at : Datetime)
      → expire_approval platform db g at ≡ ok (after, db')
      → (after ≡ expire_graph at g)
        × ((events : List ChainEntry) × (db' ≡ record (save after db) { audit_events = events }))
  unfolding expire_approval
  expire_approval_frame db db' g after at h =
      let graph = expire_graph at g in
      let (db₁, p, q) = >>=-eq-ok (record_event platform (save graph db) _ _) _ h in
      let (events, frame) = record_event_frame platform (save graph db) db₁ _ _ p in
      let same : after ≡ graph = cc in (same, (events, cc))

  pub expire_late_frame :
      (db db' : RecoveryTables) (g after : Graph) (at : Datetime) (disposition : Disposition)
      → expire_late platform db g at ≡ ok (after, disposition, db')
      → (after ≡ expire_graph at g)
        × (disposition ≡ expired_now)
        × ((events : List ChainEntry) × (db' ≡ record (save after db) { audit_events = events }))
  unfolding expire_late
  expire_late_frame db db' g after at disposition h =
      let ((graph, db₁), p, q) = >>=-eq-ok (expire_approval platform db g at) _ h in
      let (same, (events, frame)) = expire_approval_frame db db₁ g graph at p in
      (cc, cc, (events, cc))

  abbrev pub after_load :
      RecoveryTables
      → Graph
      → ApprovalDecision
      → String
      → String
      → ℤ
      → Datetime
      → Result (Graph × Disposition × RecoveryTables)
  after_load db g decision reviewer reason v at =
      if approval_is g.approval.status (target_status decision)
      then decided_before platform db g reviewer reason
      else decide_loaded platform db g decision reviewer reason v at

  -- the parts of a decision that returns
  pub record Through (db : RecoveryTables) (id : ℕ) (decision : ApprovalDecision)
      (reviewer_id reason : String) (v : ℤ) (at : Datetime)
      (answer : Graph × Disposition × RecoveryTables) : Type 0 where
    pub aware : at.tz_aware ≡ true
    pub expected : ltb_ℤ v (pos 0) ≡ false
    pub reviewer : String
    pub because : String
    pub reviewer_text : bounded_text reviewer_id "Reviewer ID" 128 ≡ ok reviewer
    pub reason_text : bounded_text reason "Decision reason" 1000 ≡ ok because
    pub before_it : Graph
    pub rows : Loaded db id before_it
    pub rest : after_load db before_it decision reviewer because v at ≡ ok answer

  pub decide_approval-Through :
      (db : RecoveryTables) (id : ℕ) (decision : ApprovalDecision) (reviewer_id reason : String)
      (v : ℤ) (at : Datetime) (answer : Graph × Disposition × RecoveryTables)
      → decide_approval platform db id decision reviewer_id reason v at ≡ ok answer
      → Through db id decision reviewer_id reason v at answer
  unfolding decide_approval
  decide_approval-Through db id decision reviewer_id reason v at answer h =
      let aware : at.tz_aware ≡ true = ground arith in
      let expected : ltb_ℤ v (pos 0) ≡ false = ground arith in
      let (reviewer, because, g, p, q, r, w) =
        three_binds (bounded_text reviewer_id "Reviewer ID" 128)
          (bounded_text reason "Decision reason" 1000) (load_graph platform db id)
          (λ x y g. after_load db g decision x y v at) answer
          (after_guards (not at.tz_aware) (ltb_ℤ v (pos 0)) _ _ _ answer h) in
      record {
        aware = aware;
        expected = expected;
        reviewer = reviewer;
        because = because;
        reviewer_text = p;
        reason_text = q;
        before_it = g;
        rows = load_graph-Loaded db id g r;
        rest = w;
      }
