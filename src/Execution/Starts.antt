-- ===== src/Execution/Starts.antt =====
-- apps/api/app/services/recovery_action_service.py: how often an action is executed, over all the
-- transactions of the workers, in whatever order the lock on its row lets them commit.
use reclaim_rail.Base.{
  ℕ, ◌+◌, ◌≤◌, none, if◌then◌else◌, ◌==◌, ==_iff, ◌≡◌, refl, sym, subst, ◌∙◌, ap, inl, inr, ℤ, pos,
  ◌≤ℤ◌, leb_ℤ, String, Bool, true, false, Bool-cases, Option, some, List, [], ◌∷◌, Result, ok, err,
  Datetime, arith,
}
use reclaim_rail.Base.Rows.{find, put, find_key, find_other, found-put}
use reclaim_rail.Audit.Chain.{Platform}
use reclaim_rail.Links.{PaymentLink, ProviderError}
use reclaim_rail.Storage.{RecoveryCase, RecoveryAction, RecoveryTables}
use reclaim_rail.Execution.{PreparedAction, Preparation, prepared, terminal, Bounds, Surroundings}
use reclaim_rail.Execution.Prepare.{prepare_action}
use reclaim_rail.Execution.Finish.{complete_action, fail_action}
use reclaim_rail.Execution.Run.{transact}
use reclaim_rail.Execution.Claims.{prepare_action-Claim}
use reclaim_rail.Execution.Exclusive.{claimed_row}
use reclaim_rail.Execution.Moves.{Move, Step, Step-tables, Reach, here, next}
use reclaim_rail.Execution.Kept.{Move-id, Move-bounded}
use reclaim_rail.Execution.Reached.{prepare_action-Reach}
use reclaim_rail.Execution.Executed.{transact-Reach, complete_action-Reach, fail_action-Reach}

-- one transaction of a worker
pub data Call : Type 0 where
  prepares : ℕ → Bounds → Datetime → Call
  completes : PreparedAction → PaymentLink → Bool → Datetime → Call
  fails : PreparedAction → ProviderError → Datetime → Call

abbrev counted : Option RecoveryAction → ℕ
counted none = 0
counted (some a) = a.execution_attempt_count

-- the executions that the row of an action counts
abbrev pub count_of : ℕ → RecoveryTables → ℕ
count_of id db = counted (find (λ a. a.id) id db.actions)

-- the executions that one preparation starts
abbrev pub start : Result (Preparation × RecoveryTables) → ℕ
start (ok (prepared p, db)) = 1
start _ = 0

module _ {platform : Platform} {maximum : ℤ} {a a' : RecoveryAction} {c c' : RecoveryCase} where
  Move-count :
      Move platform maximum a c a' c' → a.execution_attempt_count ≤ a'.execution_attempt_count
  Move-count (Move.denies s q d checks lifetime at ready evaluated other p r) = rw p (omega arith)
  Move-count (Move.claims s q d checks lifetime at ready below evaluated same p r) =
      rw p (omega arith)
  Move-count (Move.completes p link at running q r) = rw q (omega arith)
  Move-count (Move.fails true e at running q r) = rw q (omega arith)
  Move-count (Move.fails false e at running q r) = rw q (omega arith)

-- the count of one action: it is not taken back, and stays within the limit
record Counts (maximum : ℤ) (n m : ℕ) : Type 0 where
  keeps : n ≤ m
  within : leb_ℤ (pos n) maximum ≡ true → leb_ℤ (pos m) maximum ≡ true

module _ {platform : Platform} {maximum : ℤ} where
  Step-Counts :
      {db db' : RecoveryTables} (id : ℕ)
      → Step platform maximum db db'
      → Counts maximum (count_of id db) (count_of id db')
  Step-Counts {db} {db'} id s =
      let tables : count_of id db'
          ≡ counted (find (λ a. a.id) id (put (λ a. a.id) s.new_action db.actions)) =
        ap (λ x. count_of id x) (Step-tables s).1 in
      let k : s.new_action.id ≡ s.id =
        (Move-id s.move).0 ∙ find_key (λ a. a.id) s.id db.actions s.action s.action_row in
      elim (Bool-cases (s.id == id)) [
        | inl same ↦
            let at_id : s.id ≡ id = (==_iff s.id id).0 same in
            let row : find (λ a. a.id) id db.actions ≡ some s.action =
              ap (λ i. find (λ a. a.id) i db.actions) (sym at_id) ∙ s.action_row in
            let old : count_of id db ≡ s.action.execution_attempt_count = ap counted row in
            let new : count_of id db' ≡ s.new_action.execution_attempt_count =
              tables
              ∙ ap counted (
                  found-put (λ a. a.id) id s.new_action s.action db.actions row
                    (Move-id s.move).0) in
            record {
              keeps = rw (old, new) (Move-count s.move);
              within = rw (old, new) (Move-bounded s.move);
            }
        | inr apart ↦
            let same : count_of id db' ≡ count_of id db =
              tables
              ∙ ap counted (
                  find_other (λ a. a.id) id s.new_action db.actions
                    (ap (λ i. i == id) k ∙ apart)) in
            record { keeps = rw same (omega arith); within = rw same (λ h. h) }
      ]

  Reach-Counts :
      {db db' : RecoveryTables} (id : ℕ)
      → Reach platform maximum db db'
      → Counts maximum (count_of id db) (count_of id db')
  Reach-Counts id here = record { keeps = omega arith; within = λ h. h }
  Reach-Counts id (next r s) =
      let before = Reach-Counts id r in
      let step = Step-Counts id s in
      let k₁ = before.keeps in
      let k₂ = step.keeps in
      record { keeps = omega arith; within = λ h. step.within (before.within h) }

module _ (platform : Platform) (uuid_hex : ℕ → String) (around : Surroundings) (maximum : ℤ) where
  -- the transaction of a preparation, with the limit that all workers share
  abbrev preparation :
      RecoveryTables → ℕ → Bounds → Datetime → Result (Preparation × RecoveryTables)
  preparation db id bounds at =
      prepare_action platform uuid_hex around db id (record bounds { maximum_attempts = maximum })
        at

  -- what a call leaves; one that raises is rolled back
  abbrev pub after_call : Call → RecoveryTables → RecoveryTables
  after_call (Call.prepares id bounds at) db = (transact db (preparation db id bounds at)).1
  after_call (Call.completes p link recovered_existing at) db =
      (transact db (complete_action platform db p link recovered_existing at)).1
  after_call (Call.fails p e at) db = (transact db (fail_action platform db p e at maximum)).1

  abbrev pub started_by : ℕ → Call → RecoveryTables → ℕ
  started_by id (Call.prepares other bounds at) db =
      if other == id then start (preparation db other bounds at) else 0
  started_by id _ db = 0

  -- the executions of an action that the calls start, one after the other
  abbrev pub starts : ℕ → List Call → RecoveryTables → ℕ
  starts id [] db = 0
  starts id (call ∷ calls) db = started_by id call db + starts id calls (after_call call db)

  call-Reach : (call : Call) (db : RecoveryTables) → Reach platform maximum db (after_call call db)
  call-Reach (Call.prepares id bounds at) db =
      transact-Reach platform maximum db (preparation db id bounds at) (λ r db' h.
        prepare_action-Reach platform uuid_hex around db db' id
          (record bounds { maximum_attempts = maximum }) at r h)
  call-Reach (Call.completes p link recovered_existing at) db =
      transact-Reach platform maximum db _
        (λ r db' h. complete_action-Reach platform maximum db db' p link recovered_existing at r h)
  call-Reach (Call.fails p e at) db =
      transact-Reach platform maximum db _
        (λ r db' h. fail_action-Reach platform maximum db db' p e at r h)

  -- a preparation that starts an execution counts it
  prepared-count :
      (db db' : RecoveryTables) (id : ℕ) (bounds : Bounds) (at : Datetime) (p : PreparedAction)
      → preparation db id bounds at ≡ ok (prepared p, db')
      → count_of id db' ≡ count_of id db + 1
  prepared-count db db' id bounds at p h =
      let k = prepare_action-Claim platform uuid_hex around db db' id _ at p h in
      ap counted (claimed_row platform uuid_hex around db db' id _ at p k)
      ∙ ap (λ o. counted o + 1) (sym k.action_row)

  start-count :
      (db : RecoveryTables) (id : ℕ) (bounds : Bounds) (at : Datetime)
      (r : Result (Preparation × RecoveryTables))
      → preparation db id bounds at ≡ r
      → count_of id db + start r ≤ count_of id (transact db r).1
  start-count db id bounds at (ok (prepared p, db')) h =
      let counts = prepared-count db db' id bounds at p h in omega arith
  start-count db id bounds at (ok (terminal result, db')) h =
      let kept =
        (Reach-Counts id
          (prepare_action-Reach platform uuid_hex around db db' id _ at _ h)).keeps in
      omega arith
  start-count db id bounds at (err e) h = omega arith

  call-count :
      (call : Call) (id : ℕ) (db : RecoveryTables)
      → count_of id db + started_by id call db ≤ count_of id (after_call call db)
  call-count (Call.prepares other bounds at) id db = elim (Bool-cases (other == id)) [
    | inl same ↦
        (let at_id : other ≡ id = (==_iff other id).0 same in
          let starts_one = start-count db other bounds at (preparation db other bounds at) refl in
          rw same (
            subst
              (λ i.
                count_of i db + start (preparation db other bounds at)
                ≤ count_of i (transact db (preparation db other bounds at)).1)
              at_id starts_one))
    | inr apart ↦
        let kept = (Reach-Counts id (call-Reach (Call.prepares other bounds at) db)).keeps in
        rw apart (omega arith)
  ]
  call-count (Call.completes p link recovered_existing at) id db =
      let kept =
        (Reach-Counts id (call-Reach (Call.completes p link recovered_existing at) db)).keeps in
      omega arith
  call-count (Call.fails p e at) id db =
      let kept = (Reach-Counts id (call-Reach (Call.fails p e at) db)).keeps in omega arith

  -- However the transactions of the workers follow one another, preparations of any actions,
  -- completions and failures, each rolled back when it raises, the executions of an action that they
  -- start, with those that its row counted before, are at most the limit that they share, if those
  -- before were.
  pub starts_bounded :
      (calls : List Call) (id : ℕ) (db : RecoveryTables)
      → pos (count_of id db) ≤ℤ maximum
      → pos (count_of id db + starts id calls db) ≤ℤ maximum
  starts_bounded [] id db h = ground arith
  starts_bounded (call ∷ calls) id db h =
      let counts = call-count call id db in
      let within : pos (count_of id (after_call call db)) ≤ℤ maximum =
        ground (arith, (Reach-Counts id (call-Reach call db)).within) in
      let rest = starts_bounded calls id (after_call call db) within in omega arith
