-- ===== src/Approvals/Tests.antt =====
-- One approval of one action of one case, with no audit events yet.
use reclaim_rail.Base.{
  ◌+ℤ◌, pos, ◌≡◌, refl, true, false, none, some, [], ◌∷◌, ok, String, Datetime, strip, lstrip,
  rstrip, is_space, casefold, collapse,
}
use reclaim_rail.Base.Rows.{find, put, insert, sort}
use reclaim_rail.Recovery.Models.{CaseStatus, ActionType, allow}
use reclaim_rail.Audit.Values.{
  end, field, text, int, mapping, canonicalize, canonicalize_fields, canonicalize_items,
}
use reclaim_rail.Audit.Chain.{
  Platform, ChainEntry, make_chain_entry, canonicalize_material, compute_audit_hash,
  build_audit_entry, normalize_required_hash,
}
use reclaim_rail.Audit.Chain.Evidence.{IsDigest}
use reclaim_rail.Audit.Store.{
  of_case, insert_ordered, ordered, case_events, make_append_request, append_audit_event,
}
use reclaim_rail.Storage.{
  ActionStatus, RecoveryCase, RecoveryAction, RecoveryApproval, RecoveryTables, approval_checks,
}
use reclaim_rail.Approvals.{
  approve, decided, already_decided, ApprovalRequirement, ReviewContext, amount_requirement,
  build_approval_requirement, bounded_text,
}
use reclaim_rail.Storage.Events.{record_event}
use reclaim_rail.Approvals.Decisions.{
  Graph, decide_graph, expire_graph, load_graph, create_request, new_approval, expire_approval,
  write_decision, decide_loaded, decide_approval,
}
use reclaim_rail.Approvals.Queue.{due, expire_one, expire_each, expire_pending}
use reclaim_rail.Approvals.Parts.{Open}
use reclaim_rail.Approvals.Decided.{Approving, decided_retry, released_by_approval}
use reclaim_rail.Approvals.Checked.{Checked, decide-Checked}
use reclaim_rail.Approvals.Swept.{expire_pending_clears}
use reclaim_rail.Approvals.Requested.{requested_rows}

abbrev digest : String
digest = "aaaaaaaaaaaaaaaaaaaaaaaaaaaaaaaaaaaaaaaaaaaaaaaaaaaaaaaaaaaaaaaa"

abbrev bench : Platform
bench = record {
  uuid_text = λ n. "6f1c0a52-0000-4000-8000-000000000004";
  iso_text = λ t. "2026-01-01T12:00:00.000000Z";
  isoformat = λ t. "2026-01-01T12:00:00+00:00";
  sha256_hexdigest = λ m. digest;
}

bench-IsDigest : IsDigest bench
unfolding normalize_required_hash strip lstrip rstrip is_space casefold
bench-IsDigest m = refl

abbrev noon : Datetime
noon = record { instant = pos 43_200_000_000; tz_aware = true }

abbrev reviewed_at : Datetime
reviewed_at = record { instant = pos 43_300_000_000; tz_aware = true }

abbrev quarter_past : Datetime
quarter_past = record { instant = pos 44_100_000_000; tz_aware = true }

abbrev review : ReviewContext
review = record {
  recovery_attempt_count = pos 1;
  active_incident_severity = none;
  partial_recovery = false;
  provider_state_conflict = false;
  policy_requires_review = true;
}

abbrev lost_sale : RecoveryCase
lost_sale = record {
  id = 4;
  payment_attempt_id = 3;
  source_incident_id = none;
  status = CaseStatus.awaiting_approval;
  amount_minor = pos 1_500_000;
  currency = "INR";
  payment_method = none;
  recovery_attempt_count = 1;
  version = 1;
  customer_contact_allowed = true;
  active_payment_link_id = none;
  last_customer_contact_at = none;
  next_action_at = none;
  late_authorization_detected_at = none;
  opened_at = noon;
  recovered_at = none;
  closed_at = none;
  close_reason = none;
}

abbrev planned : RecoveryAction
planned = record {
  id = 9;
  recovery_case_id = 4;
  agent_run_id = 7;
  sequence_number = 1;
  idempotency_key = "action-9";
  action_type = ActionType.create_payment_link;
  status = ActionStatus.allowed;
  proposal_reason = "high value";
  amount_minor = some (pos 1_500_000);
  currency = some "INR";
  channel = none;
  target_payment_method = none;
  execute_after = none;
  policy_outcome = allow;
  policy_guardrails = [];
  policy_check_results = [];
  policy_explanation = "All deterministic recovery guardrails passed";
  policy_version = "v1";
  policy_evaluated_at = noon;
  execution_attempt_count = 0;
  provider_action_id = none;
  provider_action_status = none;
  provider_action_url = none;
  provider_action_expires_at = none;
  last_error = none;
  started_at = none;
  completed_at = none;
  created_at = noon;
}

abbrev held : RecoveryAction
held = record planned { status = ActionStatus.approval_required }

abbrev needed : ApprovalRequirement
needed = amount_requirement (pos 1_000_000) review

abbrev asked : RecoveryApproval
asked = new_approval bench 2 lost_sale planned needed (pos 1_500_000) "INR" noon (pos 900_000_000)

abbrev before_request : RecoveryTables
before_request = record {
  cases = lost_sale ∷ [];
  actions = planned ∷ [];
  approvals = [];
  audit_events = [];
}

abbrev waiting : RecoveryTables
waiting = record before_request { actions = held ∷ []; approvals = asked ∷ [] }

abbrev waiting_rows : Graph
waiting_rows = record { approval = asked; action = held; recovery_case = lost_sale }

abbrev approved_rows : Graph
approved_rows = decide_graph approve "ops-1" "customer confirmed" reviewed_at waiting_rows

load-waiting : load_graph bench waiting 2 ≡ ok waiting_rows
unfolding load_graph find
load-waiting = refl

reviewer-text : bounded_text " ops-1 " "Reviewer ID" 128 ≡ ok "ops-1"
unfolding bounded_text collapse
reviewer-text = refl

reason-text : bounded_text "customer  confirmed" "Decision reason" 1000 ≡ ok "customer confirmed"
unfolding bounded_text collapse
reason-text = refl

waiting_rows-Open : Open bench waiting_rows (pos 0) reviewed_at
unfolding ◌+ℤ◌
waiting_rows-Open = record {
  still_pending = refl;
  same_version = refl;
  in_time = refl;
  awaited = refl;
}

abbrev approval_event : ChainEntry
approval_event = record {
  recovery_case_id = 4;
  sequence_number = 1;
  event_type = "approval.approved";
  actor_type = "operator";
  event_data = field (some "approval_id") (text "6f1c0a52-0000-4000-8000-000000000004") (
      field (some "approval_version") (int (pos 1)) (
        field (some "reviewer_id") (text "ops-1") (
          field (some "decision_reason") (text "customer confirmed") (
            field (some "request_reason") (text "amount_threshold")
              (field (some "request_context") (mapping needed.context) end)))));
  previous_event_hash = none;
  event_hash = digest;
  occurred_at = reviewed_at;
  agent_run_id = some 7;
  recovery_action_id = some 9;
  hash_algorithm = "sha256";
}

abbrev approved_tables : RecoveryTables
approved_tables = record {
  cases = approved_rows.recovery_case ∷ [];
  actions = approved_rows.action ∷ [];
  approvals = approved_rows.approval ∷ [];
  audit_events = approval_event ∷ [];
}

decide-waiting :
    decide_approval bench waiting 2 approve " ops-1 " "customer  confirmed" (pos 0) reviewed_at
    ≡ ok (approved_rows, decided, approved_tables)
unfolding decide_approval decide_loaded write_decision record_event load_graph bounded_text collapse
    find put make_append_request append_audit_event case_events of_case ordered insert_ordered
    build_audit_entry make_chain_entry compute_audit_hash canonicalize_material canonicalize_fields
    canonicalize canonicalize_items normalize_required_hash strip lstrip rstrip is_space casefold
    ◌+ℤ◌
decide-waiting = refl

decided_retry_example :
    decide_approval bench approved_tables 2 approve " ops-1 " "customer  confirmed"
      (pos 0)
      quarter_past
    ≡ ok (approved_rows, already_decided, approved_tables)
decided_retry_example =
    decided_retry bench waiting approved_tables 2 approve " ops-1 " "customer  confirmed" (pos 0)
      (pos 0) reviewed_at quarter_past approved_rows decide-waiting refl refl

released_by_approval_example :
    Approving bench waiting_rows approved_rows approve decided (pos 0) reviewed_at
    × (load_graph bench approved_tables 2 ≡ ok approved_rows)
released_by_approval_example =
    released_by_approval bench waiting approved_tables 2 approve " ops-1 " "customer  confirmed"
      (pos 0) reviewed_at waiting_rows approved_rows decided load-waiting decide-waiting refl refl

waiting-Checked : Checked waiting
unfolding ◌+ℤ◌
waiting-Checked = (refl, refl)

decide-Checked_example : Checked approved_tables
decide-Checked_example =
    decide-Checked bench waiting approved_tables 2 approve " ops-1 " "customer  confirmed" (pos 0)
      reviewed_at waiting_rows approved_rows decided waiting-Checked load-waiting refl
      decide-waiting

abbrev expired_rows : Graph
expired_rows = expire_graph quarter_past waiting_rows

abbrev expiry_event : ChainEntry
expiry_event = record {
  recovery_case_id = 4;
  sequence_number = 1;
  event_type = "approval.expired";
  actor_type = "system";
  event_data = field (some "approval_id") (text "6f1c0a52-0000-4000-8000-000000000004") (
      field (some "approval_version") (int (pos 1))
        (field (some "expires_at") (text "2026-01-01T12:00:00+00:00") end));
  previous_event_hash = none;
  event_hash = digest;
  occurred_at = quarter_past;
  agent_run_id = some 7;
  recovery_action_id = some 9;
  hash_algorithm = "sha256";
}

abbrev swept_tables : RecoveryTables
swept_tables = record {
  cases = expired_rows.recovery_case ∷ [];
  actions = expired_rows.action ∷ [];
  approvals = expired_rows.approval ∷ [];
  audit_events = expiry_event ∷ [];
}

expire-waiting : expire_pending bench waiting quarter_past (pos 100) ≡ ok (1, swept_tables)
unfolding expire_pending expire_each expire_one expire_approval sort insert record_event load_graph
    find put make_append_request append_audit_event case_events of_case ordered insert_ordered
    build_audit_entry make_chain_entry compute_audit_hash canonicalize_material canonicalize_fields
    canonicalize canonicalize_items normalize_required_hash strip lstrip rstrip is_space casefold
    ◌+ℤ◌
expire-waiting = refl

find-swept : find (λ b. b.id) 2 swept_tables.approvals ≡ some expired_rows.approval
unfolding find
find-swept = refl

expire_pending_clears_example : due quarter_past expired_rows.approval ≡ false
expire_pending_clears_example =
    expire_pending_clears bench waiting swept_tables quarter_past (pos 100) 1 2
      expired_rows.approval expire-waiting refl find-swept

abbrev request_event : ChainEntry
request_event = record expiry_event {
  event_type = "approval.requested";
  actor_type = "policy";
  event_data = field (some "approval_id") (text "6f1c0a52-0000-4000-8000-000000000004") (
      field (some "request_reason") (text "amount_threshold") (
        field (some "amount_minor") (int (pos 1_500_000)) (
          field (some "currency") (text "INR") (
            field (some "threshold_minor") (int (pos 1_000_000)) (
              field (some "request_context") (mapping needed.context)
                (field (some "expires_at") (text "2026-01-01T12:00:00+00:00") end))))));
  occurred_at = noon;
}

build-planned : build_approval_requirement planned (pos 1_000_000) review ≡ ok (some needed)
unfolding build_approval_requirement
build-planned = refl

abbrev requested_tables : RecoveryTables
requested_tables = record waiting { audit_events = request_event ∷ [] }

create-planned :
    create_request bench before_request 2 lost_sale planned needed noon (pos 900_000_000)
    ≡ ok (asked, requested_tables)
unfolding create_request record_event find put make_append_request append_audit_event case_events
    of_case ordered insert_ordered build_audit_entry make_chain_entry compute_audit_hash
    canonicalize_material canonicalize_fields canonicalize canonicalize_items
    normalize_required_hash strip lstrip rstrip is_space casefold ◌+ℤ◌
create-planned = refl

find-before_request :
    (find (λ b. b.id) 2 before_request.approvals ≡ none)
    × (find (λ b. b.id) 9 before_request.actions ≡ some planned)
    × (find (λ b. b.id) 4 before_request.cases ≡ some lost_sale)
unfolding find
find-before_request = (refl, refl, refl)

requested_rows_example :
    (approval_checks asked ≡ true) × (load_graph bench requested_tables 2 ≡ ok waiting_rows)
requested_rows_example =
    requested_rows bench before_request requested_tables 2 lost_sale planned (pos 1_000_000) review
      needed noon (pos 900_000_000) asked find-before_request.0 find-before_request.1
      find-before_request.2 build-planned create-planned
