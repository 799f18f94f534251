-- ===== src/Execution/Tests.antt =====
-- One payment-link action of one case with a failed payment, claimed, claimed again, and its ends.
use reclaim_rail.Base.{
  ℕ, ◌≤ℤ◌, List, arith, ◌+◌, ◌+ℤ◌, ◌-ℤ◌, pos, ◌≡◌, refl, String, Bool, true, false,
  in_progress_error, ◌>>=◌, none, Option, some, [], ◌∷◌, all, Result, ok, err, Exn, ◌⊎◌, cancelled,
  not_executable_error, Datetime, strip, lstrip, rstrip, is_space, casefold, upper, decimal,
}
use reclaim_rail.Base.Rows.{find, put, insert, sort}
use reclaim_rail.Payments.State.{parse}
use reclaim_rail.Projection.{PaymentAttempt}
use reclaim_rail.Incidents.Active.{load_active_incident}
use reclaim_rail.Recovery.Models.{
  CaseStatus, ActionType, PolicyOutcome, make_case_snapshot, make_action_proposal,
  make_policy_decision, currency_code,
}
use reclaim_rail.Recovery.Policy.{
  evaluate_recovery_proposal, build_decision, verdict, stop_guardrails, block_guardrails,
  escalate_guardrails,
}
use reclaim_rail.Recovery.Policy.Checks.{
  build_recovery_policy_checks, case_checks, incident_checks, link_checks, contact_checks,
}
use reclaim_rail.Recovery.Policy.Texts.{as_dict}
use reclaim_rail.Audit.Values.{canonicalize, canonicalize_fields, canonicalize_items}
use reclaim_rail.Audit.Chain.{
  Platform, make_chain_entry, canonicalize_material, compute_audit_hash, build_audit_entry,
  normalize_required_hash,
}
use reclaim_rail.Audit.Store.{
  of_case, insert_ordered, ordered, case_events, make_append_request, append_audit_event,
}
use reclaim_rail.Links.{PaymentLink, LinkStatus, ProviderError, make_link_request}
use reclaim_rail.Storage.{ActionStatus, RecoveryCase, RecoveryAction, RecoveryTables}
use reclaim_rail.Storage.Events.{record_event}
use reclaim_rail.Execution.{
  PreparedAction, Preparation, prepared, ExecutionResult, already_succeeded, Bounds, Surroundings,
  default_claim_timeout, default_maximum_attempts, default_link_lifetime, build_snapshot,
}
use reclaim_rail.Execution.Prepare.{
  about, check_claim, deny_action, claim_action, judge_action, start_action, prepare_action,
}
use reclaim_rail.Storage.{case_lifecycle}
use reclaim_rail.Storage.Checks.{action_checks}
use reclaim_rail.Execution.Finish.{write_failed, fail_action}
use reclaim_rail.Execution.Run.{
  LinkProvider, CustomerProvider, execute_action, found_or_created, obtain_link,
}
use reclaim_rail.Execution.Batch.{Progress, is_executable, run_each}
use reclaim_rail.Execution.Recorded.{times, recorded, run_each_records}
use reclaim_rail.Execution.Batched.{run_each-action_checks}
use reclaim_rail.Execution.Starts.{Call, count_of, starts, starts_bounded}
use reclaim_rail.Execution.Settled.{execute_settled}
use reclaim_rail.Execution.Exclusive.{claim_exclusive, reclaim-obtain_link}
use reclaim_rail.Execution.Justified.{Due, prepare_action-Due}
use reclaim_rail.Execution.Throttled.{throttled_stuck}
use reclaim_rail.Execution.Counted.{is_executable-check_claim}
use reclaim_rail.Execution.Recovered.{denied_recovered}
use reclaim_rail.Audit.Chain.Evidence.{IsDigest}
use reclaim_rail.Audit.Chain.{all_valid, verify_chain, verify_from}
use reclaim_rail.Audit.Store.{load_chain, verify_persisted}
use reclaim_rail.Storage.Chains.{IsSound}
use reclaim_rail.Execution.Audited.{run_each-IsSound}

abbrev digest : String
digest = "aaaaaaaaaaaaaaaaaaaaaaaaaaaaaaaaaaaaaaaaaaaaaaaaaaaaaaaaaaaaaaaa"

abbrev bench : Platform
bench = record {
  uuid_text = λ n. "6f1c0a52-0000-4000-8000-000000000004";
  iso_text = λ t. "2026-01-01T12:00:00.000000Z";
  isoformat = λ t. "2026-01-01T12:00:00+00:00";
  sha256_hexdigest = λ m. digest;
}

abbrev hex : ℕ → String
hex n = "6f1c0a52000040008000000000000004"

abbrev noon : Datetime
noon = record { instant = pos 43_200_000_000; tz_aware = true }

abbrev minute_past : Datetime
minute_past = record { instant = pos 43_260_000_000; tz_aware = true }

abbrev five_past : Datetime
five_past = record { instant = pos 43_500_000_000; tz_aware = true }

abbrev failed_payment : PaymentAttempt
failed_payment = record {
  id = 3;
  provider = "razorpay";
  provider_payment_id = "pay_3";
  account_id = none;
  provider_order_id = none;
  amount_minor = pos 50_000;
  currency = "INR";
  method = some "upi";
  payment_created_at = noon;
  current_state = "failed";
  state_version = 1;
  state_provider_event_id = "evt_1";
  state_webhook_event_id = 1;
  state_event_created_at = noon;
  error_code = none;
  error_description = none;
  error_source = none;
  error_step = none;
  error_reason = none;
  recovery_eligible = true;
  recovery_stopped_at = none;
  recovery_stop_reason = none;
  late_authorization_detected_at = none;
  created_at = noon;
  updated_at = noon;
}

abbrev lost_sale : RecoveryCase
lost_sale = record {
  id = 4;
  payment_attempt_id = 3;
  source_incident_id = none;
  status = CaseStatus.ready;
  amount_minor = pos 50_000;
  currency = "INR";
  payment_method = some "upi";
  recovery_attempt_count = 0;
  version = 1;
  customer_contact_allowed = true;
  active_payment_link_id = none;
  last_customer_contact_at = none;
  next_action_at = none;
  late_authorization_detected_at = none;
  opened_at = noon;
  recovered_at = none;
  closed_at = none;
  close_reason = none;
}

abbrev planned : RecoveryAction
planned = record {
  id = 9;
  recovery_case_id = 4;
  agent_run_id = 7;
  sequence_number = 1;
  idempotency_key = "action-9";
  action_type = ActionType.create_payment_link;
  status = ActionStatus.allowed;
  proposal_reason = "failed payment";
  amount_minor = some (pos 50_000);
  currency = some "INR";
  channel = none;
  target_payment_method = none;
  execute_after = none;
  policy_outcome = PolicyOutcome.allow;
  policy_guardrails = [];
  policy_check_results = [];
  policy_explanation = "All deterministic recovery guardrails passed";
  policy_version = "v1";
  policy_evaluated_at = noon;
  execution_attempt_count = 0;
  provider_action_id = none;
  provider_action_status = none;
  provider_action_url = none;
  provider_action_expires_at = none;
  last_error = none;
  started_at = none;
  completed_at = none;
  created_at = noon;
}

abbrev tables_with : RecoveryAction → RecoveryCase → RecoveryTables
tables_with a c = record { cases = c ∷ []; actions = a ∷ []; approvals = []; audit_events = [] }

abbrev bounds : Bounds
bounds = record {
  claim_timeout = default_claim_timeout;
  maximum_attempts = default_maximum_attempts;
  link_lifetime = default_link_lifetime;
}

abbrev around : Surroundings
around = record { attempts = failed_payment ∷ []; incidents = []; now = noon }

-- what a run answers
abbrev blank : PreparedAction
blank = record {
  action_id = 0;
  recovery_case_id = 0;
  provider_payment_id = "";
  customer_contact_allowed = false;
  attempt_number = 0;
  reference_id = "";
  request = record {
    amount_minor = pos 0;
    currency = "";
    reference_id = "";
    description = "";
    expire_by = none;
    notes = record { recovery_case_id = ""; recovery_action_id = "" };
    customer_email = none;
    customer_contact = none;
    notify_email = false;
    notify_sms = false;
  };
}

abbrev prepared_in : Result (Preparation × RecoveryTables) → PreparedAction
prepared_in (ok (prepared p, db)) = p
prepared_in _ = blank

abbrev tables_in {ℓ} : {A : Type ℓ} → Result (A × RecoveryTables) → RecoveryTables
tables_in (ok (answer, db)) = db
tables_in (err e) = tables_with planned lost_sale

abbrev fresh : RecoveryTables
fresh = tables_with planned lost_sale

abbrev first_run : Result (Preparation × RecoveryTables)
first_run = prepare_action bench hex around fresh 9 bounds noon

-- the same action, five minutes after its claim
abbrev second_run : Result (Preparation × RecoveryTables)
second_run = prepare_action bench hex around (tables_in first_run) 9 bounds five_past

abbrev recovered_case : RecoveryCase
recovered_case = record lost_sale {
  status = CaseStatus.recovered;
  recovered_at = some noon;
  closed_at = some noon;
}

abbrev recovered_run : Result (Preparation × RecoveryTables)
recovered_run = prepare_action bench hex around (tables_with planned recovered_case) 9 bounds noon

abbrev result_in {ℓ} : {A : Type ℓ} → A → Result (A × RecoveryTables) → A
result_in other (ok (answer, db)) = answer
result_in other (err e) = other

-- the last of three attempts
abbrev last_attempt : RecoveryAction
last_attempt = record planned {
  status = ActionStatus.executing;
  execution_attempt_count = 3;
  started_at = some noon;
}

abbrev throttled : ProviderError
throttled = record { retryable = true; status_code = some 429; provider_error_code = none }

abbrev spent : RecoveryTables
spent = tables_with last_attempt lost_sale

abbrev failed_run : Result (Bool × RecoveryTables)
failed_run = fail_action bench spent (record blank { action_id = 9 }) throttled noon (pos 3)

runs :
    (first_run ≡ ok (prepared (prepared_in first_run), tables_in first_run))
    × (second_run ≡ ok (prepared (prepared_in second_run), tables_in second_run))
    × (recovered_run ≡ ok (result_in (prepared blank) recovered_run, tables_in recovered_run))
    × (failed_run ≡ ok (true, tables_in failed_run))
unfolding fail_action write_failed prepare_action start_action check_claim deny_action judge_action
    claim_action build_snapshot make_case_snapshot make_action_proposal currency_code
    evaluate_recovery_proposal build_decision verdict stop_guardrails block_guardrails
    escalate_guardrails make_policy_decision build_recovery_policy_checks case_checks
    incident_checks link_checks contact_checks as_dict make_link_request record_event
    load_active_incident parse find put sort insert make_append_request append_audit_event
    case_events of_case ordered insert_ordered build_audit_entry make_chain_entry compute_audit_hash
    canonicalize_material canonicalize_fields canonicalize canonicalize_items
    normalize_required_hash strip lstrip rstrip is_space casefold upper decimal ◌+ℤ◌ ◌-ℤ◌
runs = (refl, refl, refl, refl)

row-planned : find (λ a. a.id) 9 fresh.actions ≡ some planned
unfolding find
row-planned = refl

row-spent : find (λ a. a.id) 9 spent.actions ≡ some last_attempt
unfolding find
row-spent = refl

case-recovered : find (λ c. c.id) 4 (tables_with planned recovered_case).cases ≡ some recovered_case
unfolding find
case-recovered = refl

prepare_action-Due_example :
    (a : RecoveryAction) × (c : RecoveryCase) × (payment : PaymentAttempt) × (find
        (λ a. a.id)
        9
        fresh.actions
      ≡ some a)
    × (a.action_type ≡ ActionType.create_payment_link)
    × (find (λ c. c.id) a.recovery_case_id fresh.cases ≡ some c)
    × (find (λ q. q.id) c.payment_attempt_id around.attempts ≡ some payment)
    × Due around c payment (prepared_in first_run)
prepare_action-Due_example =
    prepare_action-Due bench hex around fresh (tables_in first_run) 9 bounds noon
      (prepared_in first_run) runs.0

claim_exclusive_example :
    (message : String) × (prepare_action bench hex around (tables_in first_run) 9 bounds minute_past
      ≡ err (in_progress_error message))
unfolding ◌+ℤ◌
claim_exclusive_example =
    claim_exclusive bench hex around fresh (tables_in first_run) 9 bounds bounds noon minute_past
      (prepared_in first_run) runs.0 refl refl

abbrev link : PaymentLink
link = record {
  payment_link_id = "plink_1";
  short_url = "https://rzp.io/i/1";
  status = LinkStatus.created;
  amount_minor = pos 50_000;
  amount_paid_minor = pos 0;
  currency = "INR";
  reference_id = "rr_6f1c0a52000040008000000000000004";
  provider_updated_at = none;
  provider_expires_at = none;
}

abbrev provider : LinkProvider
provider = record { create_link = λ request. ok link; find_link = λ reference. ok (some link) }

reclaim-obtain_link_example :
    ((prepared_in second_run).attempt_number ≡ (prepared_in first_run).attempt_number + 1)
    × ((prepared_in second_run).reference_id ≡ (prepared_in first_run).reference_id)
    × (obtain_link provider (prepared_in second_run) ≡ (
        provider.find_link (prepared_in first_run).reference_id
        >>= found_or_created provider (prepared_in second_run)))
reclaim-obtain_link_example =
    reclaim-obtain_link bench hex around fresh (tables_in first_run) (tables_in second_run) 9 bounds
      bounds noon five_past (prepared_in first_run) (prepared_in second_run) provider runs.0 runs.1

denied_recovered_example :
    (c' : RecoveryCase) × (find (λ c. c.id) 4 (tables_in recovered_run).cases ≡ some c')
    × (c'.status ≡ CaseStatus.cancelled)
    × (case_lifecycle c' ≡ false)
denied_recovered_example =
    denied_recovered bench hex around (tables_with planned recovered_case) (tables_in recovered_run)
      9 bounds noon (result_in (prepared blank) recovered_run) planned recovered_case runs.2
      row-planned refl case-recovered refl refl

throttled_stuck_example :
    (true ≡ true)
    × (row : RecoveryAction) × (find (λ a. a.id) 9 (tables_in failed_run).actions ≡ some row)
    × (is_executable bounds.claim_timeout bounds.maximum_attempts five_past row ≡ true)
    × (prepare_action bench hex around (tables_in failed_run) 9 bounds five_past
        ≡ err (not_executable_error (about bench row " reached its execution-attempt limit")))
unfolding ◌+ℤ◌
throttled_stuck_example =
    throttled_stuck bench hex around spent (tables_in failed_run) (record blank { action_id = 9 })
      last_attempt throttled bounds noon five_past true row-spent refl refl refl refl refl runs.3
      refl refl

-- a batch of two, one of which is not there
abbrev batched : RecoveryTables
batched = (run_each bench hex around (λ id. provider) none fresh (9 ∷ 8 ∷ []) bounds noon).1

run_each_records_example :
    let r = (run_each bench hex around (λ id. provider) none fresh (9 ∷ 8 ∷ []) bounds noon).0 in
    (r ≡ err cancelled)
    ⊎ ((progress : Progress) × (r ≡ ok progress)
        × ((k : ℕ) → recorded k progress ≡ times k (9 ∷ 8 ∷ [])))
run_each_records_example =
    run_each_records bench hex around (λ id. provider) none (9 ∷ 8 ∷ []) fresh bounds noon

-- one worker claims the action, another finds it in progress, and the first one fails
abbrev shift_calls : List Call
shift_calls =
    Call.prepares 9 bounds noon
    ∷ Call.prepares 9 bounds minute_past
    ∷ Call.fails (record blank { action_id = 9 }) throttled noon
    ∷ []

count-fresh : pos (count_of 9 fresh) ≤ℤ pos 3
unfolding find
count-fresh = ground arith

starts_bounded_example :
    pos (count_of 9 fresh + starts bench hex around (pos 3) 9 shift_calls fresh) ≤ℤ pos 3
starts_bounded_example = starts_bounded bench hex around (pos 3) shift_calls 9 fresh count-fresh

run_each-action_checks_example : all action_checks batched.actions ≡ true
run_each-action_checks_example =
    run_each-action_checks bench hex around (λ id. provider) none (9 ∷ 8 ∷ []) fresh bounds noon
      refl

bench-IsDigest : IsDigest bench
unfolding normalize_required_hash strip lstrip rstrip is_space casefold
bench-IsDigest m = refl

fresh-IsSound : IsSound bench fresh 4
unfolding verify_persisted load_chain case_events ordered verify_chain verify_from
fresh-IsSound = (all_valid 0, refl, refl)

run_each-IsSound_example : IsSound bench batched 4
run_each-IsSound_example =
    run_each-IsSound bench hex around (λ id. provider) none (9 ∷ 8 ∷ []) fresh bounds noon 4
      bench-IsDigest fresh-IsSound

abbrev blocked_action : RecoveryAction
blocked_action = record planned { id = 8; status = ActionStatus.blocked }

abbrev mixed : RecoveryTables
mixed = record fresh { actions = planned ∷ blocked_action ∷ [] }

row-blocked : find (λ a. a.id) 8 mixed.actions ≡ some blocked_action
unfolding find
row-blocked = refl

execute_settled_example :
    (answer : Result ExecutionResult) × ((provider : LinkProvider)
        (customers : Option CustomerProvider)
      → execute_action bench hex around provider customers mixed 8 bounds noon ≡ (answer, mixed))
    × (((e : Exn) × (answer ≡ err e))
        ⊎ ((r : ExecutionResult) × (answer ≡ ok r)
            × (blocked_action.status ≡ ActionStatus.succeeded)
            × (r.disposition ≡ already_succeeded)))
execute_settled_example =
    execute_settled bench hex around mixed blocked_action bounds noon 8 refl row-blocked

is_executable-check_claim_example : check_claim bench planned bounds noon ≡ ok tt
is_executable-check_claim_example = is_executable-check_claim bench planned bounds noon refl refl
