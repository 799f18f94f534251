-- ===== src/Execution/Exclusive.antt =====
-- One execution at a time: a claim keeps others out until it is stale, and a claim that follows it looks
-- for the link that the first may have made.
use reclaim_rail.Base.{
  ℕ, ◌+◌, ◌==◌, ◌≡◌, refl, sym, ◌∙◌, ap, String, true, false, some, ok, err, in_progress_error,
  some_inj, ◌>>=◌, Datetime, before, shift, arith,
}
use reclaim_rail.Base.Rows.{find, found-put}
use reclaim_rail.Audit.Chain.{Platform}
use reclaim_rail.Storage.{RecoveryTables}
use reclaim_rail.Execution.{PreparedAction, prepared, Bounds, Surroundings, reference_of}
use reclaim_rail.Execution.Prepare.{
  about, check_bounds, check_claim, judge, claimed_action, start_action, prepare_action,
}
use reclaim_rail.Execution.Run.{LinkProvider, found_or_created, obtain_link}
use reclaim_rail.Execution.Claims.{Claim, prepare_action-Claim}

module _ (platform : Platform) (uuid_hex : ℕ → String) (around : Surroundings) where
  -- the row that a claim leaves
  pub claimed_row :
      (db db' : RecoveryTables) (id : ℕ) (bounds : Bounds) (at : Datetime) (p : PreparedAction)
      (k : Claim platform uuid_hex around db id bounds at p db')
      → find (λ a. a.id) id db'.actions
        ≡ some (
            claimed_action platform at
              (judge platform k.action k.decision k.checks bounds.link_lifetime at))
  claimed_row db db' id bounds at p k =
      ap (λ x. find (λ a. a.id) id x.actions) k.written.tables
      ∙ found-put (λ a. a.id) id _ k.action db.actions k.action_row refl

  -- While a claim is fresh, that is before its start and the timeout that the other one uses, every
  -- other preparation of the action with valid bounds is refused: the action is in progress.
  pub claim_exclusive :
      (db db' : RecoveryTables) (id : ℕ) (bounds bounds' : Bounds) (at at' : Datetime)
      (p : PreparedAction)
      → prepare_action platform uuid_hex around db id bounds at ≡ ok (prepared p, db')
      → check_bounds bounds' at' ≡ ok tt
      → before at' (shift at bounds'.claim_timeout) ≡ true
      → (message : String) × (prepare_action platform uuid_hex around db' id bounds' at'
          ≡ err (in_progress_error message))
  unfolding prepare_action start_action check_claim
  claim_exclusive db db' id bounds bounds' at at' p h valid fresh =
      let k = prepare_action-Claim platform uuid_hex around db db' id bounds at p h in
      let row = claimed_row db db' id bounds at p k in
      let a =
        claimed_action platform at
          (judge platform k.action k.decision k.checks bounds.link_lifetime at) in
      (
        about platform a " has an active execution claim",
        simp (valid, row, k.is_payment_link, fresh),
      )

  -- When an action is claimed and then claimed again on the tables that the first claim left, as
  -- happens after a stale one, the second execution bears the next number and the same reference, and
  -- asks the provider for the link with this reference before it makes one.
  pub reclaim-obtain_link :
      (db db₁ db₂ : RecoveryTables) (id : ℕ) (bounds bounds' : Bounds) (at at' : Datetime)
      (p p' : PreparedAction) (provider : LinkProvider)
      → prepare_action platform uuid_hex around db id bounds at ≡ ok (prepared p, db₁)
      → prepare_action platform uuid_hex around db₁ id bounds' at' ≡ ok (prepared p', db₂)
      → (p'.attempt_number ≡ p.attempt_number + 1)
        × (p'.reference_id ≡ p.reference_id)
        × (obtain_link provider p'
            ≡ (provider.find_link p.reference_id >>= found_or_created provider p'))
  unfolding obtain_link
  reclaim-obtain_link db db₁ db₂ id bounds bounds' at at' p p' provider h h' =
      let k = prepare_action-Claim platform uuid_hex around db db₁ id bounds at p h in
      let k' = prepare_action-Claim platform uuid_hex around db₁ db₂ id bounds' at' p' h' in
      let row = claimed_row db db₁ id bounds at p k in
      let same = some_inj _ _ (sym row ∙ k'.action_row) in
      let number : p'.attempt_number ≡ p.attempt_number + 1 =
        k'.written.numbered
        ∙ ap (λ a. a.execution_attempt_count + 1) (sym same)
        ∙ ap (λ n. n + 1) (sym k.written.numbered) in
      let reference : p'.reference_id ≡ p.reference_id =
        k'.written.reference
        ∙ ap (λ a. reference_of uuid_hex a.id) (sym same)
        ∙ sym k.written.reference in
      let first : p.attempt_number ≡ k.action.execution_attempt_count + 1 = k.written.numbered in
      let again : (p'.attempt_number == 1) ≡ false = ground arith in
      (number, reference, simp (again, reference))
