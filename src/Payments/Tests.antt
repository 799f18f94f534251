-- ===== src/Payments/Tests.antt =====
-- Concrete payments, deliveries and evidence, and the theorems applied to them.
use mathlib.Core.List.{Permᴰ, Memᴰ}
use reclaim_rail.Base.{
  pos, ◌≤ℤ◌, ◌<ℤ◌, ◌≡◌, ◌≢◌, refl, ◌↔◌, ◌⊎◌, true, false, none, List, [], ◌∷◌, ok, String, Datetime,
  ◌-ℤ◌, strip, lstrip, rstrip, casefold, is_space, ap,
}
use reclaim_rail.Payments.State.{
  unknown, failed, captured, progressed, regression_blocked, terminal_state,
  decide_payment_transition, is_applied,
}
use reclaim_rail.Payments.State.Order.{decide-rank}
use reclaim_rail.Payments.State.Replay.{replay, replay-perm}
use reclaim_rail.Payments.Reliability.{
  EventReliability, stale, reordered, provider_reconciled, on_time, delayed,
  default_delay_threshold, classify_payment_event_reliability,
}
use reclaim_rail.Payments.Reliability.Classes.{classify-classes}
use reclaim_rail.Payments.Truth.{
  EvidenceFact, TruthDecision, verified_webhook, source_conflict, payment_failed, payment_confirmed,
  resolve_payment_truth, resolve_usable, is_usable, says_payment_status, says_late_authorization,
  says_recovery_status, says_provider_missing, identity_mismatch, strip_prefix?, name_of, value_of,
  is_confirmed_status, is_failed_status,
}
use reclaim_rail.Payments.Truth.Order.{resolve-perm}
use reclaim_rail.Payments.Truth.Safety.{Reported}
use reclaim_rail.Base.TextOrder.{sorted_set, insert_sorted}

decide-rank_example :
    let d = decide_payment_transition failed captured in
    (is_applied d.outcome ≡ true) × (d.next_state ≡ captured) × (d.previous_state ≡ failed)
decide-rank_example = decide-rank failed captured

replay-perm_example :
    replay unknown (captured ∷ failed ∷ []) ≡ replay unknown (failed ∷ captured ∷ [])
replay-perm_example =
    replay-perm unknown (captured ∷ failed ∷ []) (failed ∷ captured ∷ []) ∣ Permᴰ.swap refl refl ∣₁

abbrev noon : Datetime
noon = record { instant = pos 43_200_000_000; tz_aware = true }

-- three minutes later
abbrev received : Datetime
received = record { instant = pos 43_380_000_000; tz_aware = true }

abbrev webhook_delayed : EventReliability
webhook_delayed = record {
  evidence_source = "verified_webhook";
  classification = delayed;
  delivery_latency_ms = pos 180_000_000;
}

classify-classes_example :
    (noon.tz_aware ≡ true)
    × (received.tz_aware ≡ true)
    × (pos 1 ≤ℤ default_delay_threshold)
    × ((webhook_delayed.classification ≡ stale)
        ↔ (pos 604_800_000_000 <ℤ received.instant -ℤ noon.instant))
    × ((webhook_delayed.classification ≡ reordered) ↔ (
        (received.instant -ℤ noon.instant ≤ℤ pos 604_800_000_000)
        × ((progressed ≡ regression_blocked) ⊎ (progressed ≡ terminal_state))))
    × ((webhook_delayed.classification ≡ provider_reconciled) ↔ (
        (received.instant -ℤ noon.instant ≤ℤ pos 604_800_000_000)
        × (progressed ≢ regression_blocked)
        × (progressed ≢ terminal_state)
        × (strip "verified_webhook" ≡ "provider_payment_api")))
    × ((webhook_delayed.classification ≡ delayed) ↔ (
        (received.instant -ℤ noon.instant ≤ℤ pos 604_800_000_000)
        × (progressed ≢ regression_blocked)
        × (progressed ≢ terminal_state)
        × (strip "verified_webhook" ≢ "provider_payment_api")
        × (default_delay_threshold <ℤ received.instant -ℤ noon.instant)))
    × ((webhook_delayed.classification ≡ on_time) ↔ (
        (received.instant -ℤ noon.instant ≤ℤ pos 604_800_000_000)
        × (progressed ≢ regression_blocked)
        × (progressed ≢ terminal_state)
        × (strip "verified_webhook" ≢ "provider_payment_api")
        × (received.instant -ℤ noon.instant ≤ℤ default_delay_threshold)))
unfolding classify_payment_event_reliability ◌-ℤ◌ strip lstrip rstrip is_space
classify-classes_example =
    classify-classes (λ latency. latency) "verified_webhook" progressed noon received
      default_delay_threshold webhook_delayed refl

-- a verified item that is fresh without an end
abbrev item : String → String → String → EvidenceFact
item id name content = record {
  evidence_id = id;
  source = verified_webhook;
  fact_name = name;
  fact_value = content;
  content_sha256 = "e3b0c44298fc1c149afbf4c8996fb92427ae41e4649b934ca495991b7852b855";
  observed_at = noon;
  event_at = none;
  fresh_until = none;
  verified = true;
  reliability = "authoritative";
  unavailable_reason = none;
}

abbrev paid_item : EvidenceFact
paid_item = item "b" "payment.status" " Captured "

abbrev failed_item : EvidenceFact
failed_item = item "a" "payment.status" "failed"

abbrev stranger : EvidenceFact
stranger = item "c" "identity.amount" "false"

abbrev unverified : EvidenceFact
unverified = record (item "d" "payment.status" "captured") { verified = false }

abbrev conflict : TruthDecision
conflict = record {
  state = source_conflict;
  evidence_refs = "a" ∷ "b" ∷ [];
  conflict_codes = "confirmed_and_failed_payment_evidence" ∷ [];
}

resolve-conflict :
    resolve_payment_truth (paid_item ∷ failed_item ∷ unverified ∷ []) noon ≡ ok conflict
unfolding resolve_payment_truth resolve_usable is_usable says_payment_status says_late_authorization
    says_recovery_status says_provider_missing identity_mismatch strip_prefix? name_of value_of
    strip lstrip rstrip casefold is_space sorted_set insert_sorted
resolve-conflict = refl

-- the evidence of a payment that one source calls captured and another failed
abbrev disputed : List EvidenceFact
disputed = paid_item ∷ failed_item ∷ unverified ∷ []

abbrev NoLate : List EvidenceFact → Type 0
NoLate xs = ¬ Reported says_late_authorization xs noon

resolve-perm_example :
    resolve_payment_truth (paid_item ∷ failed_item ∷ []) noon
    ≡ resolve_payment_truth (failed_item ∷ paid_item ∷ []) noon
resolve-perm_example =
    resolve-perm (paid_item ∷ failed_item ∷ []) (failed_item ∷ paid_item ∷ []) noon
      (Permᴰ.swap refl refl)

paid-Reported : Reported (says_payment_status is_confirmed_status) disputed noon
unfolding is_usable says_payment_status name_of value_of strip lstrip rstrip casefold is_space
paid-Reported = (paid_item, Memᴰ.head refl, refl, refl)

failure-Reported : Reported (says_payment_status is_failed_status) disputed noon
unfolding is_usable says_payment_status name_of value_of strip lstrip rstrip casefold is_space
failure-Reported = (failed_item, Memᴰ.tail (Memᴰ.head refl), refl, refl)

disputed-NoLate : NoLate disputed
unfolding says_late_authorization name_of value_of strip lstrip rstrip casefold is_space
disputed-NoLate (f, Memᴰ.head e, u, h) = cc (ap says_late_authorization e)
disputed-NoLate (f, Memᴰ.tail (Memᴰ.head e), u, h) = cc (ap says_late_authorization e)
disputed-NoLate (f, Memᴰ.tail (Memᴰ.tail (Memᴰ.head e)), u, h) = cc (ap says_late_authorization e)
disputed-NoLate (f, Memᴰ.tail (Memᴰ.tail (Memᴰ.tail m)), u, h) = elim m [ ]

abbrev mistaken : TruthDecision
mistaken = record {
  state = source_conflict;
  evidence_refs = "b" ∷ "c" ∷ [];
  conflict_codes = "identity_amount_mismatch" ∷ [];
}

resolve-mistaken : resolve_payment_truth (paid_item ∷ stranger ∷ []) noon ≡ ok mistaken
unfolding resolve_payment_truth resolve_usable is_usable says_payment_status says_late_authorization
    says_recovery_status says_provider_missing identity_mismatch strip_prefix? name_of value_of
    strip lstrip rstrip casefold is_space sorted_set insert_sorted
resolve-mistaken = refl

abbrev failed_truth : TruthDecision
failed_truth = record { state = payment_failed; evidence_refs = "a" ∷ []; conflict_codes = [] }

resolve-failed_truth : resolve_payment_truth (failed_item ∷ unverified ∷ []) noon ≡ ok failed_truth
unfolding resolve_payment_truth resolve_usable is_usable says_payment_status says_late_authorization
    says_recovery_status says_provider_missing identity_mismatch strip_prefix? name_of value_of
    strip lstrip rstrip casefold is_space sorted_set insert_sorted
resolve-failed_truth = refl

abbrev paid_truth : TruthDecision
paid_truth = record { state = payment_confirmed; evidence_refs = "b" ∷ []; conflict_codes = [] }

resolve-paid_truth : resolve_payment_truth (paid_item ∷ []) noon ≡ ok paid_truth
unfolding resolve_payment_truth resolve_usable is_usable says_payment_status says_late_authorization
    says_recovery_status says_provider_missing identity_mismatch strip_prefix? name_of value_of
    strip lstrip rstrip casefold is_space sorted_set insert_sorted
resolve-paid_truth = refl
