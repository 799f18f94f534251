-- ===== src/Execution/Recorded.antt =====
-- apps/api/app/services/recovery_action_batch.py: the loop records what became of each action under
-- its identifier.
use reclaim_rail.Base.{
  ◌⊎◌, ℕ, ◌+◌, ◌==◌, ◌≡◌, refl, sym, ◌∙◌, ap, String, inl, inr, Option, List, [], ◌∷◌, map, Result,
  ok, err, Exn, provider_failure, in_progress_error, not_due_error, not_executable_error, cancelled,
  if◌then◌else◌, Result-cases, ok_inj, Datetime, arith,
}
use reclaim_rail.Audit.Chain.{Platform}
use reclaim_rail.Storage.{RecoveryTables}
use reclaim_rail.Execution.{ExecutionResult, Bounds, Surroundings}
use reclaim_rail.Execution.Run.{LinkProvider, CustomerProvider}
use reclaim_rail.Execution.Batch.{Progress, note_outcome, note_before, go_on_after, run_each}
use reclaim_rail.Execution.Identified.{execute_action_id}

-- how often a list holds an identifier, and how often the loop has recorded it
abbrev pub times : ℕ → List ℕ → ℕ
times k [] = 0
times k (id ∷ ids) = (if id == k then 1 else 0) + times k ids

abbrev pub recorded : ℕ → Progress → ℕ
recorded k progress =
    times k (map (λ r. r.action_id) progress.execution_results)
    + times k (map (λ f. f.action_id) progress.failures)
    + times k progress.skipped_action_ids

note_outcome-recorded :
    (k id : ℕ) (outcome : Result ExecutionResult) (rest : Progress)
    → ((r : ExecutionResult) → outcome ≡ ok r → r.action_id ≡ id)
    → recorded k (note_outcome id outcome rest) ≡ (if id == k then 1 else 0) + recorded k rest
note_outcome-recorded k id (ok result) rest h = rw (h result refl) (omega arith)
note_outcome-recorded k id (err (provider_failure retryable status_code)) rest h = omega arith
note_outcome-recorded k id (err (in_progress_error message)) rest h = omega arith
note_outcome-recorded k id (err (not_due_error message)) rest h = omega arith
note_outcome-recorded k id (err (not_executable_error message)) rest h = omega arith
note_outcome-recorded k id (err _) rest h = omega arith

-- the end of a loop over a list of identifiers
abbrev Ends : List ℕ → Result Progress → Type 0
Ends ids r =
    ((progress : Progress) (k : ℕ) → r ≡ ok progress → recorded k progress ≡ times k ids)
    × ((e : Exn) → r ≡ err e → e ≡ cancelled)

note_before-Ends :
    (id : ℕ) (ids : List ℕ) (outcome : Result ExecutionResult) (r : Result Progress)
    → ((x : ExecutionResult) → outcome ≡ ok x → x.action_id ≡ id)
    → Ends ids r
    → Ends (id ∷ ids) (note_before id outcome r)
note_before-Ends id ids outcome (ok rest) same (counts, stops) = (
  λ progress k h.
      ap (recorded k) (sym (ok_inj _ _ h))
      ∙ note_outcome-recorded k id outcome rest same
      ∙ ap (λ n. (if id == k then 1 else 0) + n) (counts rest k refl),
  λ e h. absurd (ground arith),
)
note_before-Ends id ids outcome (err x) same (counts, stops) =
    (λ progress k h. absurd (ground arith), stops)

go_on_after-Ends :
    (id : ℕ) (ids : List ℕ) (outcome : Result ExecutionResult) (db : RecoveryTables)
    (rest : Result Progress × RecoveryTables)
    → ((x : ExecutionResult) → outcome ≡ ok x → x.action_id ≡ id)
    → Ends ids rest.0
    → Ends (id ∷ ids) (go_on_after id outcome db rest).0
go_on_after-Ends id ids (err cancelled) db rest same ends =
    (λ progress k h. absurd (ground arith), λ e h. ground arith)
go_on_after-Ends id ids (ok result) db rest same ends =
    note_before-Ends id ids (ok result) rest.0 same ends
go_on_after-Ends id ids (err e) db rest same ends = note_before-Ends id ids (err e) rest.0 same ends

module _ (platform : Platform) (uuid_hex : ℕ → String) (around : Surroundings)
    (provider : ℕ → LinkProvider) (customers : Option CustomerProvider) where
  run_each-Ends :
      (ids : List ℕ) (db : RecoveryTables) (bounds : Bounds) (at : Datetime)
      → Ends ids (run_each platform uuid_hex around provider customers db ids bounds at).0
  unfolding run_each
  run_each-Ends [] db bounds at =
      (λ progress k h. ap (recorded k) (sym (ok_inj _ _ h)), λ e h. absurd (ground arith))
  run_each-Ends (id ∷ ids) db bounds at =
      go_on_after-Ends id ids _ _ _
        (λ r h.
          execute_action_id platform uuid_hex around (provider id) customers db id bounds at r h)
        (run_each-Ends ids _ bounds at)

  -- The loop of a batch is cancelled, or it ends, and then each identifier stands among those of its
  -- results, of its failures and of the skipped actions together exactly as often as in the list that
  -- it runs through.
  pub run_each_records :
      (ids : List ℕ) (db : RecoveryTables) (bounds : Bounds) (at : Datetime)
      → let r = (run_each platform uuid_hex around provider customers db ids bounds at).0 in
        (r ≡ err cancelled)
        ⊎ ((progress : Progress) × (r ≡ ok progress)
            × ((k : ℕ) → recorded k progress ≡ times k ids))
  run_each_records ids db bounds at =
      let (counts, stops) = run_each-Ends ids db bounds at in
      elim (Result-cases
        (run_each platform uuid_hex around provider customers db ids bounds at).0) [
          | inl (e, h) ↦ inl (h ∙ ap (λ x. err x) (stops e h))
          | inr (progress, h) ↦ inr (progress, h, λ k. counts progress k h)
        ]
