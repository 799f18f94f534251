-- ===== src/Execution/Throttled.antt =====
-- An action whose last attempt the provider has throttled: it is to be tried again, is discovered, and
-- is refused by every preparation.
use Prim.Native.String as Str
use Prim.Native.Char.{code}
use text.Mathlib.TextLemmas.{cons-append, nil-append}
use reclaim_rail.Base.{
  ℕ, ◌≡◌, refl, sym, ◌∙◌, ap, subst, ℤ, pos, leb_ℤ, String, Bool, Bool-cases, inl, inr, true, false,
  ◌||◌, some, ok, err, not_executable_error, some_inj, require_timezone_aware, present-some,
  >>=-eq-ok, >>-eq-ok, Datetime, not_after, shift, arith, if◌then◌else◌, decimal,
}
use reclaim_rail.Base.Rows.{find, found-put}
use reclaim_rail.Recovery.Models.{is_link}
use reclaim_rail.Audit.Chain.{Platform}
use reclaim_rail.Links.{ProviderError}
use reclaim_rail.Storage.{RecoveryAction, RecoveryTables}
use reclaim_rail.Storage.Events.{record_event, record_event_frame}
use reclaim_rail.Execution.{PreparedAction, Bounds, Surroundings, is_executing, rate_limit_delay}
use reclaim_rail.Execution.Prepare.{
  about, check_bounds, check_claim, save_pair, start_action, prepare_action,
}
use reclaim_rail.Execution.Finish.{
  is_throttled, backoff, delay_after, find_action, find_case, code_part, provider_part, error_text,
  may_retry, failed_action, case_after_failure, write_failed, fail_if_executing, fail_action,
}
use reclaim_rail.Execution.Batch.{begins_like, contains_like, is_executable}

-- a text that contains the pattern does so within a longer one
begins_like-append : (p s t : String) → begins_like p s ≡ true → begins_like p (Str.◌++◌ s t) ≡ true
unfolding begins_like
begins_like-append Str.[] s t h = refl
begins_like-append (Str.◌∷◌ a p) Str.[] t h = absurd (ground arith)
begins_like-append (Str.◌∷◌ a p) (Str.◌∷◌ c s) t h =
    rw (cons-append c s t) (ground (arith, begins_like-append p s t))

begins_like-contains_like : (p s : String) → begins_like p s ≡ true → contains_like p s ≡ true
unfolding contains_like
begins_like-contains_like p Str.[] h = h
begins_like-contains_like p (Str.◌∷◌ c s) h = ground arith

begins_like-nil : (p s : String) → begins_like p "" ≡ true → begins_like p s ≡ true
unfolding begins_like
begins_like-nil Str.[] s h = refl
begins_like-nil (Str.◌∷◌ a p) s h = absurd (ground arith)

contains_like-append :
    (p s t : String) → contains_like p s ≡ true → contains_like p (Str.◌++◌ s t) ≡ true
unfolding contains_like
contains_like-append p Str.[] t h =
    rw (nil-append t) (begins_like-contains_like p t (begins_like-nil p t h))
contains_like-append p (Str.◌∷◌ c s) t h =
    rw (cons-append c s t) (elim (Bool-cases (begins_like p (Str.◌∷◌ c s))) [
      | inl first ↦
          let longer : begins_like p (Str.◌∷◌ c (Str.◌++◌ s t)) ≡ true =
            rw (sym (cons-append c s t)) (begins_like-append p (Str.◌∷◌ c s) t first) in
          ground arith
      | inr later ↦
          let rest : contains_like p s ≡ true = ground arith in
          let longer = contains_like-append p s t rest in ground arith
    ])

contains_like-after :
    (p s t : String) → contains_like p t ≡ true → contains_like p (Str.◌++◌ s t) ≡ true
unfolding contains_like
contains_like-after p Str.[] t h = rw (nil-append t) h
contains_like-after p (Str.◌∷◌ c s) t h =
    rw (cons-append c s t) (ground (arith, contains_like-after p s t))

-- the text of such an error is found by the query
code_found : contains_like "status_code=429" (code_part (some 429)) ≡ true
unfolding contains_like begins_like decimal
code_found = refl

throttled_text :
    (e : ProviderError)
    → e.status_code ≡ some 429
    → contains_like "status_code=429" (error_text e true) ≡ true
throttled_text e h =
    let code : contains_like "status_code=429" (code_part e.status_code) ≡ true =
      ap (λ o. contains_like "status_code=429" (code_part o)) h ∙ code_found in
    contains_like-after "status_code=429" "RazorpayPaymentLinkProviderError: retryable=" _ (
      contains_like-after "status_code=429" "true" _ (
        contains_like-append "status_code=429" (code_part e.status_code)
          (provider_part e.provider_error_code) code))

failed_action-id :
    (retryable : Bool) (e : ProviderError) (at : Datetime) (a : RecoveryAction)
    → (failed_action retryable e at a).id ≡ a.id
failed_action-id true e at a = refl
failed_action-id false e at a = refl

or_true : (t : Bool) → (t || true) ≡ true
or_true t = ground arith

-- what a failure writes on an action that is executing
fail_if_executing-row :
    (platform : Platform) (running : Bool) (db db' : RecoveryTables) (id : ℕ) (a : RecoveryAction)
    (e : ProviderError) (at : Datetime) (maximum : ℤ) (retryable : Bool)
    → running ≡ true
    → find (λ a. a.id) id db.actions ≡ some a
    → fail_if_executing platform running db a e at maximum ≡ ok (retryable, db')
    → (retryable ≡ may_retry e a.execution_attempt_count maximum)
      × (find (λ a. a.id) id db'.actions
          ≡ some (failed_action (may_retry e a.execution_attempt_count maximum) e at a))
unfolding write_failed
fail_if_executing-row platform false db db' id a e at maximum retryable r row h =
    absurd (ground arith)
fail_if_executing-row platform true db db' id a e at maximum retryable r row h =
    let (c, h₁, h₂) = >>=-eq-ok (find_case platform db a.recovery_case_id) _ h in
    let (db₁, h₃, h₄) = >>=-eq-ok (record_event platform _ c.id _) _ h₂ in
    let (events, frame) = record_event_frame platform _ db₁ c.id _ h₃ in
    let again = may_retry e a.execution_attempt_count maximum in
    let after : db'
        ≡ record (save_pair platform (failed_action again e at a)
            (case_after_failure again e a.execution_attempt_count at c) db) {
              audit_events = events;
            } =
      cc in
    (
      cc,
      ap (λ x. find (λ a. a.id) id x.actions) after
          ∙ found-put (λ a. a.id) id (failed_action again e at a) a db.actions row
              (failed_action-id again e at a),
    )

module _ (platform : Platform) (uuid_hex : ℕ → String) (around : Surroundings) where
  -- When the provider throttles (429, retryable) an action that has used all its attempts, the failure
  -- is recorded as one to retry. From five minutes later on, the query of the batch selects the action,
  -- and every preparation of it with the same limit is refused for the limit.
  pub throttled_stuck :
      (db db' : RecoveryTables) (p : PreparedAction) (a : RecoveryAction) (e : ProviderError)
      (bounds : Bounds) (at later : Datetime) (retryable : Bool)
      → find (λ a. a.id) p.action_id db.actions ≡ some a
      → is_link a.action_type ≡ true
      → is_executing a.status ≡ true
      → leb_ℤ bounds.maximum_attempts (pos a.execution_attempt_count) ≡ true
      → e.retryable ≡ true
      → e.status_code ≡ some 429
      → fail_action platform db p e at bounds.maximum_attempts ≡ ok (retryable, db')
      → check_bounds bounds later ≡ ok tt
      → not_after (shift at rate_limit_delay) later ≡ true
      → (retryable ≡ true)
        × (row : RecoveryAction) × (find (λ a. a.id) p.action_id db'.actions ≡ some row)
        × (is_executable bounds.claim_timeout bounds.maximum_attempts later row ≡ true)
        × (prepare_action platform uuid_hex around db' p.action_id bounds later
            ≡ err
                (not_executable_error (about platform row " reached its execution-attempt limit")))
  unfolding fail_action prepare_action start_action check_claim
  throttled_stuck db db' p a e bounds at later retryable row link running used again code h valid
        cooled =
      let (_, h₁) = >>-eq-ok (require_timezone_aware at _) _ h in
      let (b, h₂, h₃) = >>=-eq-ok (find_action platform db p.action_id) _ h₁ in
      let same : a ≡ b = some_inj _ _ (sym row ∙ present-some _ _ b h₂) in
      let retries : may_retry e a.execution_attempt_count bounds.maximum_attempts ≡ true =
        simp (again, code) in
      let failing : fail_if_executing platform (is_executing a.status) db a e at
            bounds.maximum_attempts
          ≡ ok (retryable, db') =
        subst
          (λ x.
            fail_if_executing platform (is_executing x.status) db x e at bounds.maximum_attempts
            ≡ ok (retryable, db'))
          (sym same) h₃ in
      let (answer, after) =
        fail_if_executing-row platform (is_executing a.status) db db' p.action_id a e at
          bounds.maximum_attempts retryable running row failing in
      let found : find (λ a. a.id) p.action_id db'.actions ≡ some (failed_action true e at a) =
        after ∙ ap (λ t. some (failed_action t e at a)) retries in
      let cooldown : not_after (shift at (delay_after e a.execution_attempt_count)) later ≡ true =
        ap
          (λ o.
            not_after
              (shift at (
                if is_throttled o
                then rate_limit_delay
                else pos (backoff a.execution_attempt_count)))
              later)
          code
        ∙ cooled in
      (
        answer ∙ retries,
        failed_action true e at a,
        found,
        simp (link, throttled_text e code, cooldown, or_true),
        simp (valid, found, link, used),
      )
