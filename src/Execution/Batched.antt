-- ===== src/Execution/Batched.antt =====
-- What the loop of a batch keeps of the tables, whatever the providers answer.
use reclaim_rail.Base.{ℕ, ◌≡◌, true, false, String, Option, some, List, all, Datetime}
use reclaim_rail.Base.Rows.{find}
use reclaim_rail.Audit.Chain.{Platform}
use reclaim_rail.Storage.{RecoveryAction, RecoveryTables}
use reclaim_rail.Storage.Checks.{action_checks}
use reclaim_rail.Execution.{Bounds, Surroundings}
use reclaim_rail.Execution.Run.{LinkProvider, CustomerProvider}
use reclaim_rail.Execution.Batch.{run_each}
use reclaim_rail.Execution.Moves.{startable}
use reclaim_rail.Execution.Invariants.{Reach-checks, Reach-final}
use reclaim_rail.Execution.Executed.{run_each-Reach}

module _ (platform : Platform) (uuid_hex : ℕ → String) (around : Surroundings)
    (provider : ℕ → LinkProvider) (customers : Option CustomerProvider) (ids : List ℕ)
    (db : RecoveryTables) (bounds : Bounds) (at : Datetime) where
  -- The loop of a batch keeps the check constraints of all actions: shape, policy evidence, policy
  -- status and completion.
  pub run_each-action_checks :
      all action_checks db.actions ≡ true
      → all action_checks
          (run_each platform uuid_hex around provider customers db ids bounds at).1.actions
        ≡ true
  run_each-action_checks h =
      Reach-checks (run_each-Reach platform uuid_hex around provider customers ids db bounds at) h

  -- The loop of a batch leaves the row of an action as it is that is neither executing nor allowed,
  -- scheduled or failed.
  pub run_each_final :
      (id : ℕ) (a : RecoveryAction)
      → startable a.status ≡ false
      → find (λ a. a.id) id db.actions ≡ some a
      → find
          (λ a. a.id)
          id
          (run_each platform uuid_hex around provider customers db ids bounds at).1.actions
        ≡ some a
  run_each_final id a final row =
      Reach-final id a (run_each-Reach platform uuid_hex around provider customers ids db bounds at)
        final row
