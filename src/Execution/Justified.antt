-- ===== src/Execution/Justified.antt =====
-- A claim against the rows: the policy has allowed the link for this case and this payment at the moment
-- of the claim, and the request asks for exactly what is due.
use mathlib.Core.List.{Memᴰ}
use reclaim_rail.Base.{
  ℕ, pos, ◌≤ℤ◌, ◌<ℤ◌, ◌≡◌, ◌≢◌, ◌⊎◌, refl, sym, ap, ◌∙◌, inl, inr, String, true, false, Option,
  none, some, [], ◌∷◌, subst, ok, >>=-eq-ok, some_inj, Datetime, arith, strip, upper,
}
use reclaim_rail.Base.Rows.{find}
use reclaim_rail.Projection.{PaymentAttempt}
use reclaim_rail.Payments.State.{PaymentState, parse, stops_recovery}
use reclaim_rail.Incidents.{IncidentSeverity, low, medium, high, critical}
use reclaim_rail.Incidents.Active.{RevenueIncident, IncidentContext}
use reclaim_rail.Incidents.Severe.{Concerns, is_severe, severe_context, load-severe}
use reclaim_rail.Recovery.Models.{
  CaseStatus, CaseSnapshot, ActionType, create_payment_link, ActionProposal, stripped, is_link,
}
use reclaim_rail.Recovery.Policy.{
  default_recovery_policy, is_terminal, is_automated, breaks_circuit,
}
use reclaim_rail.Recovery.Policy.Allowed.{IsOpen, IsFitting, evaluate-allow}
use reclaim_rail.Audit.Chain.{Platform}
use reclaim_rail.Storage.{RecoveryCase, RecoveryAction, RecoveryTables}
use reclaim_rail.Execution.{
  PreparedAction, prepared, Bounds, Surroundings, proposal_of, stored_state, snapshot_of,
  severity_of, build_snapshot,
}
use reclaim_rail.Execution.Prepare.{prepare_action}
use reclaim_rail.Execution.Claims.{prepare_action-Claim}
use reclaim_rail.Execution.Prepared.{incident_for}
use reclaim_rail.Execution.Fields.{
  or_else-none, stored_state-parse, snapshot_fields, proposal_fields, request_fields,
}

-- the branch of a link
exactly {ℓ} :
    {B : Type ℓ} {t : ActionType} → ((t ≢ create_payment_link) ⊎ B) → t ≡ create_payment_link → B
exactly (inl other) h = absurd (other h)
exactly (inr facts) h = facts

automated {ℓ} :
    {B : Type ℓ} {t : ActionType} → ((is_automated t ≡ false) ⊎ B) → t ≡ create_payment_link → B
automated (inl other) h =
    let clash : true ≡ false = sym (ap is_automated h) ∙ other in absurd (ground arith)
automated (inr facts) h = facts

link_type : (t : ActionType) → is_link t ≡ true → t ≡ create_payment_link
link_type create_payment_link h = refl
link_type _ h = absurd (ground arith)

mild_severity :
    (s : IncidentSeverity)
    → breaks_circuit (high ∷ critical ∷ []) (some s) ≡ false
    → is_severe s ≡ false
mild_severity low h = refl
mild_severity medium h = refl
mild_severity high h = h
mild_severity critical h = h

mild_context :
    (incident : Option IncidentContext)
    → breaks_circuit (high ∷ critical ∷ []) (severity_of incident) ≡ false
    → severe_context incident ≡ false
mild_context none h = refl
mild_context (some i) h = mild_severity i.severity h

-- what the rows of a case and of its payment, and the incidents, say when a link may be made for them
pub record Due (around : Surroundings) (c : RecoveryCase) (payment : PaymentAttempt)
    (p : PreparedAction) : Type 0 where
  pub state : PaymentState
  pub parsed : parse payment.current_state ≡ some state
  pub unpaid : stops_recovery state ≡ false
  pub no_late_payment : payment.late_authorization_detected_at ≡ none
  pub no_late_case : c.late_authorization_detected_at ≡ none
  pub running : is_terminal c.status ≡ false
  pub not_escalated : c.status ≢ CaseStatus.escalated
  pub attempts_left : pos c.recovery_attempt_count <ℤ pos 3
  pub rail_up :
      (i : RevenueIncident)
      → Memᴰ i around.incidents
      → Concerns c.source_incident_id c.currency c.payment_method around.now i
      → (i.severity ≢ high) × (i.severity ≢ critical)
  pub only_link : stripped c.active_payment_link_id ≡ none
  pub exact_amount : p.request.amount_minor ≡ c.amount_minor
  pub within_limit : c.amount_minor ≤ℤ pos 5_000_000
  pub exact_currency : p.request.currency ≡ upper (strip c.currency)

-- the same of a snapshot and a proposal
snapshot-Due :
    (around : Surroundings) (c : RecoveryCase) (payment : PaymentAttempt) (s : CaseSnapshot)
    (q : ActionProposal) (p : PreparedAction) (at : Datetime) (raw : String)
    → build_snapshot c payment (incident_for around c) ≡ ok s
    → IsOpen default_recovery_policy s q at
    → IsFitting default_recovery_policy s q at
    → q.action_type ≡ create_payment_link
    → q.amount_minor ≡ some p.request.amount_minor
    → q.currency ≡ some (upper (strip raw))
    → p.request.currency ≡ upper (strip raw)
    → Due around c payment p
unfolding build_snapshot
snapshot-Due around c payment s q p at raw built opened fitting link amount code request =
    let (state, h₁, h₂) =
      >>=-eq-ok (stored_state (parse payment.current_state) payment.current_state) _ built in
    let (id, currency, upper_case, same) =
      snapshot_fields (snapshot_of c payment state (incident_for around c)) s h₂ in
    let (late_payment, late_case) =
      or_else-none payment.late_authorization_detected_at c.late_authorization_detected_at
        (ap (λ t. t.late_authorization_detected_at) (sym same) ∙ opened.not_late) in
    let (only, exact, coded, limit) = exactly fitting.link_exact link in
    record {
      state = state;
      parsed = stored_state-parse _ payment.current_state state h₁;
      unpaid = ap (λ t. stops_recovery t.payment_state) (sym same) ∙ opened.unpaid;
      no_late_payment = late_payment;
      no_late_case = late_case;
      running = ap (λ t. is_terminal t.status) (sym same) ∙ opened.running;
      not_escalated = λ e. opened.not_escalated (ap (λ t. t.status) same ∙ e);
      attempts_left = subst (λ t. t.recovery_attempt_count <ℤ pos 3) same opened.attempts_left;
      rail_up = λ i.
          load-severe around.incidents around.now c.source_incident_id c.currency c.payment_method i
            (mild_context (incident_for around c) (
              ap (λ t. breaks_circuit (high ∷ critical ∷ []) t.active_incident_severity) (sym same)
              ∙ automated fitting.rail_up link));
      only_link = ap (λ t. t.active_payment_link_id) (sym same) ∙ only;
      exact_amount = some_inj _ _ (sym amount ∙ exact) ∙ ap (λ t. t.amount_minor) same;
      within_limit = subst (λ t. t.amount_minor ≤ℤ pos 5_000_000) same limit;
      exact_currency =
          request ∙ some_inj _ _ (sym code ∙ coded) ∙ ap (λ t. t.currency) same ∙ upper_case;
    }

module _ (platform : Platform) (uuid_hex : ℕ → String) (around : Surroundings) where
  -- When a preparation claims an action, the action is a payment-link action of the tables, and its
  -- case and payment are due: the stored payment state is known and does not stop recovery, neither row
  -- has a late authorization, the case is running, not escalated, and has fewer than three attempts,
  -- none of the stored incidents that concern it is high or critical, it has no other link, and the
  -- request is for the amount of the case, within the limit, and in its currency. An incident concerns
  -- a case when it is neither resolved nor dismissed, is of the case's currency and not over, and is
  -- the source of the case, global, or about the payment method of the case.
  pub prepare_action-Due :
      (db db' : RecoveryTables) (id : ℕ) (bounds : Bounds) (at : Datetime) (p : PreparedAction)
      → prepare_action platform uuid_hex around db id bounds at ≡ ok (prepared p, db')
      → (a : RecoveryAction) × (c : RecoveryCase) × (payment : PaymentAttempt) × (find
            (λ a. a.id)
            id
            db.actions
          ≡ some a)
        × (a.action_type ≡ create_payment_link)
        × (find (λ c. c.id) a.recovery_case_id db.cases ≡ some c)
        × (find (λ q. q.id) c.payment_attempt_id around.attempts ≡ some payment)
        × Due around c payment p
  prepare_action-Due db db' id bounds at p h =
      let claim = prepare_action-Claim platform uuid_hex around db db' id bounds at p h in
      let w = claim.written in
      let (asked, coded) = request_fields _ p.request w.requested in
      let (same_type, same_amount, same_currency) =
        proposal_fields (proposal_of claim.action) claim.proposal w.currency claim.proposed
          w.in_currency in
      let link = link_type claim.action.action_type claim.is_payment_link in
      let (opened, fitting) =
        (evaluate-allow default_recovery_policy claim.snapshot claim.proposal at claim.decision
            claim.evaluated).0
          claim.allowed in
      (
        claim.action,
        claim.recovery_case,
        claim.payment,
        claim.action_row,
        link,
        claim.case_row,
        claim.payment_row,
        snapshot-Due around claim.recovery_case claim.payment claim.snapshot claim.proposal p at
            w.currency claim.taken opened fitting (same_type ∙ link)
            (same_amount ∙ w.priced ∙ ap (λ x. some x) (sym asked)) same_currency coded,
      )
