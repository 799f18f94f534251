-- ===== src/Approvals/Requested.antt =====
-- A request for an approval: when one is required, and the rows that it leaves.
use reclaim_rail.Base.{
  ok_inj, ℕ, ◌≡◌, refl, sym, if◌then◌else◌, +ℤ_parts, ◌+ℤ◌, Exn, not, nonempty, any, ◌==◌, ◌∷◌, [],
  ◌++◌, ap, ◌∙◌, ℤ, pos, ltb_ℤ, leb_ℤ, String, Bool, true, false, ◌&&◌, Option, some, none, is_some,
  ok, Result, raise_if, ◌>>◌, >>=-eq-ok, present, present-some, Datetime, arith, List,
}
use reclaim_rail.Base.Rows.{find, put, found-put, find_snoc}
use reclaim_rail.Audit.Chain.{Platform, ChainEntry}
use reclaim_rail.Recovery.Models.{is_link}
use reclaim_rail.Storage.{
  ActionStatus, RecoveryCase, RecoveryAction, RecoveryApproval, RecoveryTables, approval_checks,
}
use reclaim_rail.Approvals.{
  ApprovalRequirement, ReviewContext, may_need_approval, reaches, build_approval_requirement,
  amount_requirement,
}
use reclaim_rail.Approvals.Decisions.{load_graph, new_approval, create_request, requested_event}
use reclaim_rail.Approvals.Parts.{Loaded-load_graph}
use reclaim_rail.Storage.Events.{record_event, record_event_frame}

-- what requires an approval of an action
abbrev pub requires : RecoveryAction → ℤ → Bool
requires action threshold =
    may_need_approval action.status
    && is_link action.action_type
    && reaches action.amount_minor threshold

requirement_iff :
    (action : RecoveryAction) (threshold : ℤ) (x y : ReviewContext)
    (p q : Option ApprovalRequirement)
    → build_approval_requirement action threshold x ≡ ok p
    → build_approval_requirement action threshold y ≡ ok q
    → (is_some p ≡ requires action threshold) × (is_some p ≡ is_some q)
unfolding build_approval_requirement
requirement_iff action threshold x y p q h k = (ground arith, ground arith)

three_guards {ℓ} :
    {A : Type ℓ} (b c d : Bool) (x y z : Exn) (rest : Result A) (answer : A)
    → (raise_if b x >> (raise_if c y >> (raise_if d z >> rest))) ≡ ok answer
    → (c ≡ false) × (rest ≡ ok answer)
three_guards false false false x y z rest answer h = (refl, h)
three_guards true c d x y z rest answer h = cc
three_guards false true d x y z rest answer h = cc
three_guards false false true x y z rest answer h = cc

one_guard {ℓ} :
    {A : Type ℓ} (b : Bool) (x : Exn) (rest : Result A) (answer : A)
    → (raise_if b x >> rest) ≡ ok answer
    → rest ≡ ok answer
one_guard false x rest answer h = h
one_guard true x rest answer h = cc

two_guards {ℓ} :
    {A : Type ℓ} (b c : Bool) (x y : Exn) (rest : Result A) (answer : A)
    → (raise_if b x >> (raise_if c y >> rest)) ≡ ok answer
    → (b ≡ false) × (rest ≡ ok answer)
two_guards false false x y rest answer h = (refl, h)
two_guards true c x y rest answer h = cc
two_guards false true x y rest answer h = cc

chosen :
    (b : Bool) (r q : ApprovalRequirement)
    → ok (if b then none else some r) ≡ ok (some q)
    → (b ≡ false) × (r ≡ q)
chosen true r q h = cc
chosen false r q h = (refl, cc)

-- the amount of an action that requires an approval, and its threshold
required_amount :
    (action : RecoveryAction) (threshold amount : ℤ) (x : ReviewContext) (q : ApprovalRequirement)
    → build_approval_requirement action threshold x ≡ ok (some q)
    → action.amount_minor ≡ some amount
    → (q.threshold_minor ≡ some threshold)
      × (ltb_ℤ (pos 0) threshold ≡ true)
      × (leb_ℤ threshold amount ≡ true)
unfolding build_approval_requirement
required_amount action threshold amount x q h e =
    let (positive, h₁) =
      two_guards (ltb_ℤ threshold (pos 1)) (ltb_ℤ x.recovery_attempt_count (pos 0)) _ _ _ _ h in
    let (chosen_by, made) = chosen _ (amount_requirement threshold x) q h₁ in
    (sym (ap (λ r. r.threshold_minor) made), ground arith, ground arith)

later_than : (t : ℤ) (window : ℤ) → leb_ℤ window (pos 0) ≡ false → ltb_ℤ t (t +ℤ window) ≡ true
later_than t window h = ground (arith, +ℤ_parts t window)

new_checks :
    (at : Datetime) (amount threshold window : ℤ)
    → ltb_ℤ (pos 0) threshold ≡ true
    → leb_ℤ threshold amount ≡ true
    → leb_ℤ window (pos 0) ≡ false
    → (ltb_ℤ (pos 0) amount
        && (ltb_ℤ (pos 0) threshold && leb_ℤ threshold amount)
        && ltb_ℤ at.instant (at.instant +ℤ window)
        && true)
      ≡ true
new_checks at amount threshold window p m w = ground (arith, later_than at.instant window w)

module _ (platform : Platform) where
  -- what a request leaves
  record Requested (db : RecoveryTables) (id : ℕ) (c : RecoveryCase) (action : RecoveryAction)
      (q : ApprovalRequirement) (at : Datetime) (window : ℤ) (a : RecoveryApproval)
      (db' : RecoveryTables) : Type 0 where
    amount : ℤ
    currency : String
    priced : action.amount_minor ≡ some amount
    ahead : leb_ℤ window (pos 0) ≡ false
    row : a ≡ new_approval platform id c action q amount currency at window
    events : List ChainEntry
    frame : db' ≡ record db {
      actions =
          put (λ b. b.id) (record action { status = ActionStatus.approval_required }) db.actions;
      approvals = db.approvals ++ (a ∷ []);
      audit_events = events;
    }

  create_request-Requested :
      (db db' : RecoveryTables) (id : ℕ) (c : RecoveryCase) (action : RecoveryAction)
      (q : ApprovalRequirement) (at : Datetime) (window : ℤ) (a : RecoveryApproval)
      → create_request platform db id c action q at window ≡ ok (a, db')
      → Requested db id c action q at window a db'
  unfolding create_request
  create_request-Requested db db' id c action q at window a h =
      let (ahead, h₁) =
        three_guards (not at.tz_aware) (leb_ℤ window (pos 0)) (not (nonempty q.reasons)) _ _ _ _ _
          h in
      let (amount, p, h₂) = >>=-eq-ok (present action.amount_minor _) _ h₁ in
      let (currency, r, h₃) = >>=-eq-ok (present action.currency _) _ h₂ in
      let h₄ = one_guard (any (λ b. b.recovery_action_id == action.id) db.approvals) _ _ _ h₃ in
      let approval = new_approval platform id c action q amount currency at window in
      let (db₁, s, e) =
        >>=-eq-ok (record_event platform _ c.id (requested_event platform approval action)) _ h₄ in
      let (events, frame) = record_event_frame platform _ db₁ c.id _ s in
      let pair = ok_inj (approval, db₁) (a, db') e in
      let same : a ≡ approval = ap (λ p. p.0) (sym pair) in
      let last : db' ≡ db₁ = ap (λ p. p.1) (sym pair) in
      record {
        amount = amount;
        currency = currency;
        priced = present-some action.amount_minor _ amount p;
        ahead = ahead;
        row = same;
        events = events;
        frame =
            last
            ∙ frame
            ∙ ap
                (λ b. record db {
                  actions =
                      put (λ b. b.id) (record action { status = ActionStatus.approval_required })
                        db.actions;
                  approvals = db.approvals ++ (b ∷ []);
                  audit_events = events;
                })
                (sym same);
      }

  -- When an approval is required of a stored action of a stored case, whatever the other inputs of
  -- the review, and the request for it returns under a new identifier, the new row keeps the check
  -- constraints, and loading it finds it with its case and with its action held back for the
  -- approval.
  pub requested_rows :
      (db db' : RecoveryTables) (id : ℕ) (c : RecoveryCase) (action : RecoveryAction)
      (threshold : ℤ) (x : ReviewContext) (q : ApprovalRequirement) (at : Datetime) (window : ℤ)
      (a : RecoveryApproval)
      → find (λ b. b.id) id db.approvals ≡ none
      → find (λ b. b.id) action.id db.actions ≡ some action
      → find (λ b. b.id) c.id db.cases ≡ some c
      → build_approval_requirement action threshold x ≡ ok (some q)
      → create_request platform db id c action q at window ≡ ok (a, db')
      → (approval_checks a ≡ true)
        × (load_graph platform db' id
            ≡ ok (record {
              approval = a;
              action = record action { status = ActionStatus.approval_required };
              recovery_case = c;
            }))
  requested_rows db db' id c action threshold x q at window a fresh act row required h =
      let held = record action { status = ActionStatus.approval_required } in
      let r = create_request-Requested db db' id c action q at window a h in
      let (limit, positive, met) =
        required_amount action threshold r.amount x q required r.priced in
      (
        rw (r.row, limit) (new_checks at r.amount threshold window positive met r.ahead),
        Loaded-load_graph platform db' id _ (record {
          approval_row =
              ap (λ d. find (λ b. b.id) id d.approvals) r.frame
              ∙ find_snoc (λ b. b.id) id db.approvals a fresh (ap (λ b. b.id) r.row);
          action_row =
              ap (λ d. find (λ b. b.id) a.recovery_action_id d.actions) r.frame
              ∙ ap (λ b. find (λ b. b.id) b.recovery_action_id (put (λ b. b.id) held db.actions))
                  r.row
              ∙ found-put (λ b. b.id) action.id held action db.actions act refl;
          case_row =
              ap (λ d. find (λ b. b.id) a.recovery_case_id d.cases) r.frame
              ∙ ap (λ b. find (λ b. b.id) b.recovery_case_id db.cases) r.row
              ∙ row;
        }),
      )
