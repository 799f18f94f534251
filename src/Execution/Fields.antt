-- ===== src/Execution/Fields.antt =====
-- What the constructors of snapshots, proposals and requests leave as it is.
use reclaim_rail.Base.{
  ◌≡◌, refl, sym, ap, ◌∙◌, String, Option, none, some, is_some, or_else, ok, raise_if, value_error,
  not, ◌&&◌, ◌||◌, require_optional_aware, >>=-eq-ok, >>-eq-ok, ok_inj, arith, strip, upper,
}
use reclaim_rail.Projection.{PaymentAttempt}
use reclaim_rail.Payments.State.{PaymentState, parse}
use reclaim_rail.Incidents.Active.{IncidentContext}
use reclaim_rail.Recovery.Models.{
  CaseSnapshot, make_case_snapshot, ActionProposal, make_action_proposal, currency_code,
  optional_currency, required_text, stripped, folded, is_link, contacts_customer, is_wait,
}
use reclaim_rail.Links.{LinkRequest, text_field, aware_field, note_value, make_link_request}
use reclaim_rail.Storage.{RecoveryCase}
use reclaim_rail.Execution.{stored_state, snapshot_of, build_snapshot}

pub or_else-none {ℓ} : {A : Type ℓ} (a b : Option A) → or_else a b ≡ none → (a ≡ none) × (b ≡ none)
or_else-none none b h = (refl, h)
or_else-none (some a) b h = absurd (ground arith)

pub stored_state-parse :
    (o : Option PaymentState) (text : String) (s : PaymentState)
    → stored_state o text ≡ ok s
    → o ≡ some s
stored_state-parse none text s h = absurd (ground arith)
stored_state-parse (some t) text s h = ap (λ x. some x) (ok_inj t s h)

code_upper : (s code : String) → currency_code s ≡ ok code → code ≡ upper (strip s)
unfolding currency_code
code_upper s code h = let (_, k) = >>-eq-ok (raise_if _ _) _ h in sym (ok_inj _ _ k)

-- what the constructors leave as it is
pub snapshot_fields :
    (s t : CaseSnapshot)
    → make_case_snapshot s ≡ ok t
    → (id code : String) × (code ≡ upper (strip s.currency))
      × (t ≡ record s {
        provider_payment_id = id;
        currency = code;
        payment_method = folded s.payment_method;
        active_payment_link_id = stripped s.active_payment_link_id;
      })
unfolding make_case_snapshot
snapshot_fields s t h =
    let (id, _, h₁) = >>=-eq-ok (required_text s.provider_payment_id _) _ h in
    let (_, h₂) = >>-eq-ok (raise_if _ _) _ h₁ in
    let (code, coded, h₃) = >>=-eq-ok (currency_code s.currency) _ h₂ in
    let (_, h₄) = >>-eq-ok (raise_if _ _) _ h₃ in
    let (_, h₅) = >>-eq-ok (require_optional_aware s.last_customer_contact_at _) _ h₄ in
    let (_, h₆) = >>-eq-ok (require_optional_aware s.late_authorization_detected_at _) _ h₅ in
    let (_, h₇) = >>-eq-ok (require_optional_aware s.recovered_at _) _ h₆ in
    let (_, h₈) = >>-eq-ok (raise_if _ _) _ h₇ in
    (id, code, code_upper s.currency code coded, sym (ok_inj _ _ h₈))

pub built_status :
    (c : RecoveryCase) (payment : PaymentAttempt) (incident : Option IncidentContext)
    (s : CaseSnapshot)
    → build_snapshot c payment incident ≡ ok s
    → s.status ≡ c.status
unfolding build_snapshot
built_status c payment incident s built =
    let (state, _, h) =
      >>=-eq-ok (stored_state (parse payment.current_state) payment.current_state) _ built in
    let (id, currency, _, same) = snapshot_fields (snapshot_of c payment state incident) s h in
    ap (λ t. t.status) same

pub proposal_fields :
    (q r : ActionProposal) (raw : String)
    → make_action_proposal q ≡ ok r
    → q.currency ≡ some raw
    → (r.action_type ≡ q.action_type)
      × (r.amount_minor ≡ q.amount_minor)
      × (r.currency ≡ some (upper (strip raw)))
unfolding make_action_proposal
proposal_fields q r raw h e =
    let (reason, _, h₁) = >>=-eq-ok (required_text q.reason _) _ h in
    let (_, h₂) = >>-eq-ok (raise_if _ _) _ h₁ in
    let (code, coded, h₃) = >>=-eq-ok (optional_currency q.currency) _ h₂ in
    let (_, h₄) = >>-eq-ok (require_optional_aware q.execute_after _) _ h₃ in
    let (_, h₅) =
      >>-eq-ok
        (raise_if (is_link q.action_type && (not (is_some q.amount_minor) || not (is_some code)))
          (value_error "Payment-link proposal requires amount and currency"))
        _ h₄ in
    let (_, h₆) =
      >>-eq-ok
        (raise_if (contacts_customer q.action_type && not (is_some q.channel))
          (value_error "Customer-contact proposal requires a channel"))
        _ h₅ in
    let (_, h₇) =
      >>-eq-ok
        (raise_if (is_wait q.action_type && not (is_some q.execute_after))
          (value_error "Wait proposal requires execution time"))
        _ h₆ in
    let same = sym (ok_inj _ _ h₇) in
    let now : optional_currency (some raw) ≡ ok code = ap optional_currency (sym e) ∙ coded in
    let (letters, k, l) = >>=-eq-ok (currency_code raw) _ now in
    (
      ap (λ p. p.action_type) same,
      ap (λ p. p.amount_minor) same,
      ap (λ p. p.currency) same ∙ sym (ok_inj _ _ l) ∙ ap (λ c. some c) (code_upper raw letters k),
    )

pub request_fields :
    (q r : LinkRequest)
    → make_link_request q ≡ ok r
    → (r.amount_minor ≡ q.amount_minor) × (r.currency ≡ upper (strip q.currency))
unfolding make_link_request
request_fields q r h =
    let (_, h₁) = >>-eq-ok (raise_if _ _) _ h in
    let (currency, k₁, h₂) = >>=-eq-ok (text_field "currency" q.currency 3 3) _ h₁ in
    let (reference, _, h₃) = >>=-eq-ok (text_field "reference_id" q.reference_id 1 40) _ h₂ in
    let (description, _, h₄) = >>=-eq-ok (text_field "description" q.description 1 2048) _ h₃ in
    let (_, h₅) = >>-eq-ok (aware_field q.expire_by) _ h₄ in
    let (case_note, _, h₆) = >>=-eq-ok (note_value q.notes.recovery_case_id) _ h₅ in
    let (action_note, _, h₇) = >>=-eq-ok (note_value q.notes.recovery_action_id) _ h₆ in
    let (_, h₈) =
      >>-eq-ok
        (raise_if (q.notify_email && not (is_some q.customer_email))
          (value_error "Email notification requires a transient customer email"))
        _ h₇ in
    let (_, h₉) =
      >>-eq-ok
        (raise_if (q.notify_sms && not (is_some q.customer_contact))
          (value_error "SMS notification requires a transient customer contact"))
        _ h₈ in
    let same = sym (ok_inj _ _ h₉) in
    let (_, k₂) = >>-eq-ok (raise_if _ _) _ k₁ in
    (ap (λ p. p.amount_minor) same, ap (λ p. p.currency) same ∙ ap upper (sym (ok_inj _ _ k₂)))
