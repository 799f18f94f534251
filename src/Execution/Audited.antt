-- ===== src/Execution/Audited.antt =====
-- The audit trail along the steps of the executor: the chains of all cases stay valid.
use reclaim_rail.Base.{ℕ, refl, ◌∙◌, ℤ, Option, String, List, Datetime}
use reclaim_rail.Audit.Chain.{Platform}
use reclaim_rail.Audit.Chain.Evidence.{IsDigest}
use reclaim_rail.Storage.{RecoveryTables, audit_of}
use reclaim_rail.Storage.Events.{verify_events}
use reclaim_rail.Storage.Chains.{IsSound, record_event-IsSound}
use reclaim_rail.Execution.{Bounds, Surroundings}
use reclaim_rail.Execution.Prepare.{save_pair}
use reclaim_rail.Execution.Run.{LinkProvider, CustomerProvider}
use reclaim_rail.Execution.Batch.{run_each}
use reclaim_rail.Execution.Moves.{Step, Reach, here, next}
use reclaim_rail.Execution.Executed.{run_each-Reach}

module _ {platform : Platform} {maximum : ℤ} where
  Step-IsSound :
      {db db' : RecoveryTables} (id : ℕ)
      → IsDigest platform
      → Step platform maximum db db'
      → IsSound platform db id
      → IsSound platform db' id
  Step-IsSound {db} {db'} id digests s (v, verified, sound) =
      let saved = save_pair platform s.new_action s.new_case db in
      record_event-IsSound platform saved db' s.recovery_case.id id s.event digests s.recorded
        (v, verify_events platform (audit_of saved) (audit_of db) id refl ∙ verified, sound)

  Reach-IsSound :
      {db db' : RecoveryTables} (id : ℕ)
      → IsDigest platform
      → Reach platform maximum db db'
      → IsSound platform db id
      → IsSound platform db' id
  Reach-IsSound id digests here h = h
  Reach-IsSound id digests (next r s) h = Step-IsSound id digests s (Reach-IsSound id digests r h)

-- Where the platform answers digests, the loop of a batch keeps the audit chain of every case valid,
-- whichever actions it runs, whatever the providers answer and whatever is raised on the way.
pub run_each-IsSound :
    (platform : Platform) (uuid_hex : ℕ → String) (around : Surroundings)
    (provider : ℕ → LinkProvider) (customers : Option CustomerProvider) (ids : List ℕ)
    (db : RecoveryTables) (bounds : Bounds) (at : Datetime) (id : ℕ)
    → IsDigest platform
    → IsSound platform db id
    → IsSound platform (run_each platform uuid_hex around provider customers db ids bounds at).1 id
run_each-IsSound platform uuid_hex around provider customers ids db bounds at id digests sound =
    Reach-IsSound id digests
      (run_each-Reach platform uuid_hex around provider customers ids db bounds at) sound
