-- ===== src/Cases.antt =====
-- apps/api/app/services/recovery_case_service.py: a recovery case is opened for a failed payment, once.
pub mod Opened
mod Tests
use Prim.Native.String as Str
use reclaim_rail.Base.{
  ℕ, ℤ, pos, leb_ℤ, String, Bool, true, false, not, ◌&&◌, ◌||◌, Option, none, some, is_some, List,
  [], ◌∷◌, ◌++◌, nonempty, Result, ok, err, value_error, lookup_error, ◌>>=◌, ◌>>◌, raise_if,
  Datetime, require_timezone_aware, strip, casefold, upper, is_empty, str_eq, if◌then◌else◌,
}
use reclaim_rail.Base.Rows.{find}
use reclaim_rail.Projection.{PaymentAttempt}
use reclaim_rail.Recovery.Models.{CaseStatus}
use reclaim_rail.Audit.Values.{Value, Fields, null, text, flag, int, uuid, end, field}
use reclaim_rail.Audit.Chain.{Platform, ChainEntry}
use reclaim_rail.Audit.Store.{
  AuditActor, system, AppendRequest, make_append_request, append_audit_event,
}
use reclaim_rail.Storage.{RecoveryCase, RecoveryTables, audit_of}

pub data CreationDisposition : Type 0 where
  created existing ineligible : CreationDisposition

pub data IneligibilityReason : Type 0 where
  payment_not_failed recovery_not_eligible recovery_already_stopped nonpositive_amount :
      IneligibilityReason

pub record CreationResult : Type 0 where
  pub disposition : CreationDisposition
  pub recovery_case : Option RecoveryCase
  pub audit_event : Option ChainEntry
  pub ineligibility_reasons : List IneligibilityReason

-- `RecoveryCaseCreationResult.__post_init__`
abbrev check_result : CreationDisposition → Bool → Bool → Bool → Result (Unit {0})
check_result created case? event? reasons? = do
  raise_if (not case? || not event?)
      (value_error "Created result requires a recovery case and audit event")
  raise_if reasons? (value_error "Created result cannot contain ineligibility reasons")
check_result existing case? event? reasons? = do
  raise_if (not case?) (value_error "Existing result requires a recovery case")
  raise_if (event? || reasons?) (value_error "Existing result cannot contain new audit evidence")
check_result ineligible case? event? reasons? = do
  raise_if (case? || event?) (value_error "Ineligible result cannot contain persisted records")
  raise_if (not reasons?) (value_error "Ineligible result requires reason evidence")

unfoldable pub make_creation_result : CreationResult → Result CreationResult
make_creation_result r = do
  check_result r.disposition (is_some r.recovery_case) (is_some r.audit_event)
      (nonempty r.ineligibility_reasons)
  ok r

abbrev because : Bool → IneligibilityReason → List IneligibilityReason
because true reason = reason ∷ []
because false reason = []

-- `evaluate_recovery_case_eligibility`
unfoldable pub evaluate_eligibility : PaymentAttempt → List IneligibilityReason
evaluate_eligibility p =
    because (not (str_eq p.current_state "failed")) payment_not_failed
    ++ (because (not p.recovery_eligible) recovery_not_eligible
        ++ (because (is_some p.recovery_stopped_at) recovery_already_stopped
            ++ because (leb_ℤ p.amount_minor (pos 0)) nonpositive_amount))

-- the payment method and the values of the new row
abbrev method_of : Option String → Option String
method_of none = none
method_of (some method) = if is_empty (strip method) then none else some (casefold (strip method))

abbrev pub new_case : ℕ → PaymentAttempt → Datetime → Bool → Option ℕ → RecoveryCase
new_case id p opened_at contact_allowed incident = record {
  id = id;
  payment_attempt_id = p.id;
  source_incident_id = incident;
  status = CaseStatus.opened;
  amount_minor = p.amount_minor;
  currency = upper (strip p.currency);
  payment_method = method_of p.method;
  recovery_attempt_count = 0;
  version = 0;
  customer_contact_allowed = contact_allowed;
  active_payment_link_id = none;
  last_customer_contact_at = none;
  next_action_at = none;
  late_authorization_detected_at = none;
  opened_at = opened_at;
  recovered_at = none;
  closed_at = none;
  close_reason = none;
}

abbrev pub text_or_null : Option String → Value
text_or_null none = null
text_or_null (some s) = text s

abbrev pub uuid_or_null : Option ℕ → Value
uuid_or_null none = null
uuid_or_null (some n) = uuid n

abbrev pub opened_event : PaymentAttempt → RecoveryCase → AppendRequest
opened_event p c = record {
  event_type = "case.opened";
  actor_type = system;
  event_data = field (some "payment_attempt_id") (uuid p.id) (
      field (some "provider") (text p.provider) (
        field (some "provider_payment_id") (text p.provider_payment_id) (
          field (some "payment_state") (text p.current_state) (
            field (some "amount_minor") (int p.amount_minor) (
              field (some "currency") (text (upper (strip p.currency))) (
                field (some "payment_method") (text_or_null c.payment_method) (
                  field (some "customer_contact_allowed") (flag c.customer_contact_allowed) (
                    field (some "source_incident_id") (uuid_or_null c.source_incident_id)
                      end))))))));
  occurred_at = c.opened_at;
  agent_run_id = none;
  recovery_action_id = none;
}

module _ (platform : Platform) where
  -- the row and its first event
  unfoldable pub open_case :
      RecoveryTables → PaymentAttempt → RecoveryCase → Result (CreationResult × RecoveryTables)
  open_case db p c = do
    let inserted = record db { cases = db.cases ++ (c ∷ []) }
    request ← make_append_request platform (opened_event p c)
    grown ← append_audit_event platform (audit_of inserted) c.id request
    r ← make_creation_result (record {
      disposition = created;
      recovery_case = some c;
      audit_event = some grown.0;
      ineligibility_reasons = [];
    })
    ok (r, record inserted { audit_events = grown.1.events })

  abbrev pub open_eligible :
      RecoveryTables
      → PaymentAttempt
      → RecoveryCase
      → List IneligibilityReason
      → Result (CreationResult × RecoveryTables)
  open_eligible db p c [] = open_case db p c
  open_eligible db p c (reason ∷ reasons) = do
    r ← make_creation_result (record {
      disposition = ineligible;
      recovery_case = none;
      audit_event = none;
      ineligibility_reasons = reason ∷ reasons;
    })
    ok (r, db)

  abbrev pub get_or_open :
      RecoveryTables
      → PaymentAttempt
      → RecoveryCase
      → Option RecoveryCase
      → Result (CreationResult × RecoveryTables)
  get_or_open db p c (some old) = do
    r ← make_creation_result (record {
      disposition = existing;
      recovery_case = some old;
      audit_event = none;
      ineligibility_reasons = [];
    })
    ok (r, db)
  get_or_open db p c none = open_eligible db p c (evaluate_eligibility p)

  abbrev pub for_attempt : Option PaymentAttempt → ℕ → Result PaymentAttempt
  for_attempt none id = err (
      lookup_error
        (Str.◌++◌ "Payment attempt " (Str.◌++◌ (platform.uuid_text id) " does not exist")))
  for_attempt (some p) id = ok p

  -- `create_or_get_recovery_case`, with the identifier that `uuid4` answers
  unfoldable pub create_or_get_case :
      List PaymentAttempt
      → RecoveryTables
      → ℕ
      → ℕ
      → Datetime
      → Bool
      → Option ℕ
      → Result (CreationResult × RecoveryTables)
  create_or_get_case attempts db new_id attempt_id opened_at contact_allowed incident = do
    require_timezone_aware opened_at
        (value_error "Recovery-case opening time must be timezone-aware")
    p ← for_attempt (find (λ a. a.id) attempt_id attempts) attempt_id
    get_or_open db p (new_case new_id p opened_at contact_allowed incident)
        (find (λ c. c.payment_attempt_id) attempt_id db.cases)
