-- ===== src/Execution/Moves.antt =====
-- The executor as a step relation on the rows of an action and its case, and the tables that its steps
-- reach. The services on the tables are shown to take such steps only, whatever they answer.
use reclaim_rail.Base.{
  ℕ, ◌≡◌, ◌≢◌, ℤ, pos, leb_ℤ, Bool, true, false, ◌||◌, some, List, ok, Datetime,
}
use reclaim_rail.Base.Rows.{find}
use reclaim_rail.Recovery.Models.{CaseSnapshot, ActionProposal, PolicyDecision, allow}
use reclaim_rail.Recovery.Policy.{default_recovery_policy, evaluate_recovery_proposal}
use reclaim_rail.Recovery.Policy.Checks.{PolicyCheck}
use reclaim_rail.Audit.Chain.{Platform, ChainEntry}
use reclaim_rail.Links.{PaymentLink, ProviderError}
use reclaim_rail.Audit.Store.{AppendRequest}
use reclaim_rail.Storage.Events.{record_event, record_event_frame}
use reclaim_rail.Storage.{ActionStatus, RecoveryCase, RecoveryAction, RecoveryTables}
use reclaim_rail.Execution.{PreparedAction, may_start, is_executing, deny_case}
use reclaim_rail.Execution.Prepare.{judge, save_pair, denied_action, claimed_action, claimed_case}
use reclaim_rail.Execution.Finish.{
  completed_action, completed_case, failed_action, case_after_failure,
}

-- an action that may be judged, and one that its claim may end
abbrev pub startable : ActionStatus → Bool
startable s = is_executing s || may_start s

module _ (platform : Platform) (maximum : ℤ) where
  -- what one transaction does to an action and its case
  pub data Move (a : RecoveryAction) (c : RecoveryCase) (a' : RecoveryAction) (c' : RecoveryCase)
      : Type 0 where
    denies :
        (s : CaseSnapshot) (q : ActionProposal) (d : PolicyDecision) (checks : List PolicyCheck)
        (lifetime : ℤ) (at : Datetime)
        → startable a.status ≡ true
        → evaluate_recovery_proposal default_recovery_policy s q at ≡ ok d
        → d.outcome ≢ allow
        → a' ≡ denied_action platform d.outcome at (judge platform a d checks lifetime at)
        → c' ≡ deny_case d.outcome at c
        → Move a c a' c'
    claims :
        (s : CaseSnapshot) (q : ActionProposal) (d : PolicyDecision) (checks : List PolicyCheck)
        (lifetime : ℤ) (at : Datetime)
        → startable a.status ≡ true
        → leb_ℤ maximum (pos a.execution_attempt_count) ≡ false
        → evaluate_recovery_proposal default_recovery_policy s q at ≡ ok d
        → d.outcome ≡ allow
        → a' ≡ claimed_action platform at (judge platform a d checks lifetime at)
        → c' ≡ claimed_case platform c
        → Move a c a' c'
    completes :
        (p : PreparedAction) (link : PaymentLink) (at : Datetime)
        → is_executing a.status ≡ true
        → a' ≡ completed_action p link at a
        → c' ≡ completed_case link at c
        → Move a c a' c'
    fails :
        (retryable : Bool) (e : ProviderError) (at : Datetime)
        → is_executing a.status ≡ true
        → a' ≡ failed_action retryable e at a
        → c' ≡ case_after_failure retryable e a.execution_attempt_count at c
        → Move a c a' c'

  -- the same on the tables
  pub record Step (db db' : RecoveryTables) : Type 0 where
    pub id : ℕ
    pub action : RecoveryAction
    pub recovery_case : RecoveryCase
    pub new_action : RecoveryAction
    pub new_case : RecoveryCase
    pub event : AppendRequest
    pub action_row : find (λ a. a.id) id db.actions ≡ some action
    pub case_row : find (λ c. c.id) action.recovery_case_id db.cases ≡ some recovery_case
    pub move : Move action recovery_case new_action new_case
    pub recorded :
        record_event platform (save_pair platform new_action new_case db) recovery_case.id event
        ≡ ok db'

  pub data Reach (db : RecoveryTables) : RecoveryTables → Type 0 where
    here : Reach db db
    next : {db₁ db₂ : RecoveryTables} → Reach db db₁ → Step db₁ db₂ → Reach db db₂

module _ {platform : Platform} {maximum : ℤ} where
  -- nothing else changes but the audit events
  pub Step-tables :
      {db db' : RecoveryTables} (s : Step platform maximum db db')
      → (events : List ChainEntry) × (db'
          ≡ record (save_pair platform s.new_action s.new_case db) { audit_events = events })
  Step-tables {db} {db'} s =
      record_event_frame platform (save_pair platform s.new_action s.new_case db) db'
        s.recovery_case.id s.event s.recorded

  pub Step-Reach :
      {db db' : RecoveryTables} → Step platform maximum db db' → Reach platform maximum db db'
  Step-Reach s = next here s

  pub Reach-trans :
      {db db₁ db₂ : RecoveryTables}
      → Reach platform maximum db db₁
      → Reach platform maximum db₁ db₂
      → Reach platform maximum db db₂
  Reach-trans r here = r
  Reach-trans r (next s t) = next (Reach-trans r s) t
