-- ===== src/Cases/Tests.antt =====
-- A failed payment for which a case is opened.
use reclaim_rail.Base.{
  pos, ◌≡◌, refl, true, false, none, some, [], ◌∷◌, ok, String, Datetime, strip, lstrip, rstrip,
  is_space, casefold, upper,
}
use reclaim_rail.Base.Rows.{find}
use reclaim_rail.Projection.{PaymentAttempt}
use reclaim_rail.Audit.Values.{
  end, field, text, int, flag, null, canonicalize, canonicalize_fields, canonicalize_items,
}
use reclaim_rail.Audit.Chain.{
  Platform, ChainEntry, all_valid, make_chain_entry, canonicalize_material, compute_audit_hash,
  build_audit_entry, normalize_required_hash, verify_from, verify_chain,
}
use reclaim_rail.Audit.Chain.Evidence.{IsDigest}
use reclaim_rail.Audit.Store.{
  of_case, insert_ordered, ordered, case_events, make_append_request, append_audit_event,
  load_chain, verify_persisted,
}
use reclaim_rail.Storage.{RecoveryCase, RecoveryTables, audit_of}
use reclaim_rail.Cases.{
  CreationResult, created, make_creation_result, evaluate_eligibility, new_case, open_case,
  create_or_get_case,
}
use reclaim_rail.Cases.Opened.{existing_result, opened_once}

abbrev digest : String
digest = "aaaaaaaaaaaaaaaaaaaaaaaaaaaaaaaaaaaaaaaaaaaaaaaaaaaaaaaaaaaaaaaa"

abbrev bench : Platform
bench = record {
  uuid_text = λ n. "6f1c0a52-0000-4000-8000-000000000003";
  iso_text = λ t. "2026-01-01T12:00:00.000000Z";
  isoformat = λ t. "2026-01-01T12:00:00+00:00";
  sha256_hexdigest = λ m. digest;
}

bench-IsDigest : IsDigest bench
unfolding normalize_required_hash strip lstrip rstrip is_space casefold
bench-IsDigest m = refl

abbrev noon : Datetime
noon = record { instant = pos 43_200_000_000; tz_aware = true }

abbrev failed_payment : PaymentAttempt
failed_payment = record {
  id = 3;
  provider = "razorpay";
  provider_payment_id = "pay_3";
  account_id = none;
  provider_order_id = none;
  amount_minor = pos 50_000;
  currency = "inr";
  method = some " UPI";
  payment_created_at = noon;
  current_state = "failed";
  state_version = 1;
  state_provider_event_id = "evt_1";
  state_webhook_event_id = 1;
  state_event_created_at = noon;
  error_code = none;
  error_description = none;
  error_source = none;
  error_step = none;
  error_reason = none;
  recovery_eligible = true;
  recovery_stopped_at = none;
  recovery_stop_reason = none;
  late_authorization_detected_at = none;
  created_at = noon;
  updated_at = noon;
}

abbrev no_cases : RecoveryTables
no_cases = record { cases = []; actions = []; approvals = []; audit_events = [] }

abbrev fresh_case : RecoveryCase
fresh_case = record (new_case 4 failed_payment noon true none) {
  currency = "INR";
  payment_method = some "upi";
}

abbrev opening_event : ChainEntry
opening_event = record {
  recovery_case_id = 4;
  sequence_number = 1;
  event_type = "case.opened";
  actor_type = "system";
  event_data = field (some "payment_attempt_id") (text "6f1c0a52-0000-4000-8000-000000000003") (
      field (some "provider") (text "razorpay") (
        field (some "provider_payment_id") (text "pay_3") (
          field (some "payment_state") (text "failed") (
            field (some "amount_minor") (int (pos 50_000)) (
              field (some "currency") (text "INR") (
                field (some "payment_method") (text "upi") (
                  field (some "customer_contact_allowed") (flag true)
                    (field (some "source_incident_id") null end))))))));
  previous_event_hash = none;
  event_hash = digest;
  occurred_at = noon;
  agent_run_id = none;
  recovery_action_id = none;
  hash_algorithm = "sha256";
}

abbrev opened_tables : RecoveryTables
opened_tables = record no_cases { cases = fresh_case ∷ []; audit_events = opening_event ∷ [] }

abbrev opening : CreationResult
opening = record {
  disposition = created;
  recovery_case = some fresh_case;
  audit_event = some opening_event;
  ineligibility_reasons = [];
}

create-failed_payment :
    create_or_get_case bench (failed_payment ∷ []) no_cases 4 3 noon true none
    ≡ ok (opening, opened_tables)
unfolding create_or_get_case open_case make_creation_result evaluate_eligibility find
    make_append_request append_audit_event case_events of_case ordered insert_ordered
    build_audit_entry make_chain_entry compute_audit_hash canonicalize_material canonicalize_fields
    canonicalize canonicalize_items normalize_required_hash strip lstrip rstrip is_space casefold
    upper
create-failed_payment = refl

opened_once_example :
    (p : PaymentAttempt) × (c : RecoveryCase) × (find (λ a. a.id) 3 (failed_payment ∷ []) ≡ some p)
    × (evaluate_eligibility p ≡ [])
    × (some fresh_case ≡ some c)
    × (create_or_get_case bench (failed_payment ∷ []) opened_tables 5 3 noon false (some 8)
        ≡ ok (existing_result bench c, opened_tables))
opened_once_example =
    opened_once bench (failed_payment ∷ []) no_cases opened_tables 4 5 3 noon noon true false none
      (some 8) opening create-failed_payment refl refl

eligible-failed_payment :
    (find (λ a. a.id) 3 (failed_payment ∷ []) ≡ some failed_payment)
    × (evaluate_eligibility failed_payment ≡ [])
    × (find (λ c. c.payment_attempt_id) 3 no_cases.cases ≡ none)
unfolding find evaluate_eligibility
eligible-failed_payment = (refl, refl, refl)

verify-no_cases : verify_persisted bench (audit_of no_cases) 4 ≡ ok (all_valid 0)
unfolding verify_persisted load_chain case_events ordered verify_chain verify_from
verify-no_cases = refl
