-- ===== src/Execution/Invariants.antt =====
-- What the tables keep along the steps of the executor.
use reclaim_rail.Base.{
  ℕ, ◌==◌, ==_iff, ◌≡◌, sym, ◌∙◌, ap, subst, inl, inr, ℤ, Bool, true, false, Bool-cases, some, all,
  some_inj, arith,
}
use reclaim_rail.Base.Rows.{find, find_key, find_other, all-put, all-find}
use reclaim_rail.Audit.Chain.{Platform}
use reclaim_rail.Storage.{RecoveryCase, RecoveryAction, RecoveryTables}
use reclaim_rail.Storage.Checks.{action_checks}
use reclaim_rail.Execution.Kept.{Move-id, Move-checks, Move-startable}
use reclaim_rail.Execution.Moves.{startable, Move, Step, Step-tables, Reach, here, next}

module _ (platform : Platform) (maximum : ℤ) where
  -- a test of actions that the steps keep
  abbrev Keeps : (RecoveryAction → Bool) → Type 0
  Keeps t =
      (a a' : RecoveryAction) (c c' : RecoveryCase)
      → Move platform maximum a c a' c'
      → t a ≡ true
      → t a' ≡ true

module _ {platform : Platform} {maximum : ℤ} where
  Step-all :
      (t : RecoveryAction → Bool)
      → Keeps platform maximum t
      → {db db' : RecoveryTables} → Step platform maximum db db'
      → all t db.actions ≡ true
      → all t db'.actions ≡ true
  Step-all t keeps {db} {db'} s h =
      ap (λ x. all t x.actions) (Step-tables s).1
      ∙ all-put (λ a. a.id) t s.new_action db.actions h
          (keeps s.action s.new_action s.recovery_case s.new_case s.move
            (all-find (λ a. a.id) t s.id db.actions s.action h s.action_row))

  Reach-all :
      (t : RecoveryAction → Bool)
      → Keeps platform maximum t
      → {db db' : RecoveryTables} → Reach platform maximum db db'
      → all t db.actions ≡ true
      → all t db'.actions ≡ true
  Reach-all t keeps here h = h
  Reach-all t keeps (next r s) h = Step-all t keeps s (Reach-all t keeps r h)

  -- The steps of the executor keep the check constraints of the actions: shape, policy evidence,
  -- policy status and completion.
  pub Reach-checks :
      {db db' : RecoveryTables}
      → Reach platform maximum db db'
      → all action_checks db.actions ≡ true
      → all action_checks db'.actions ≡ true
  Reach-checks r = Reach-all action_checks (λ a a' c c' m. Move-checks m) r

  Step-final :
      {db db' : RecoveryTables} (id : ℕ) (a : RecoveryAction)
      → Step platform maximum db db'
      → startable a.status ≡ false
      → find (λ a. a.id) id db.actions ≡ some a
      → find (λ a. a.id) id db'.actions ≡ some a
  Step-final {db} {db'} id a s final row =
      let k : s.new_action.id ≡ s.id =
        (Move-id s.move).0 ∙ find_key (λ a. a.id) s.id db.actions s.action s.action_row in
      ap (λ x. find (λ a. a.id) id x.actions) (Step-tables s).1
      ∙ elim (Bool-cases (s.new_action.id == id)) [
        | inl same ↦
            let at_id : s.id ≡ id = sym k ∙ (==_iff s.new_action.id id).0 same in
            let here_too : some s.action ≡ some a =
              sym s.action_row ∙ ap (λ i. find (λ a. a.id) i db.actions) at_id ∙ row in
            let clash : startable a.status ≡ true =
              subst (λ x. startable x.status ≡ true) (some_inj _ _ here_too)
                (Move-startable s.move) in
            absurd (ground arith)
        | inr apart ↦ find_other (λ a. a.id) id s.new_action db.actions apart ∙ row
      ]

  -- The steps of the executor leave the row of an action as it is that is neither executing nor
  -- allowed, scheduled or failed.
  pub Reach-final :
      {db db' : RecoveryTables} (id : ℕ) (a : RecoveryAction)
      → Reach platform maximum db db'
      → startable a.status ≡ false
      → find (λ a. a.id) id db.actions ≡ some a
      → find (λ a. a.id) id db'.actions ≡ some a
  Reach-final id a here final row = row
  Reach-final id a (next r s) final row = Step-final id a s final (Reach-final id a r final row)
