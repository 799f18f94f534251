-- ===== src/Audit/Tests.antt =====
-- One case with one event, and the event that is appended to it.
use reclaim_rail.Base.{
  ◌==◌, pos, ◌≡◌, refl, ◌↔◌, true, none, some, [], ◌∷◌, length, ok, Datetime, strip, lstrip, rstrip,
  is_space, casefold, if◌then◌else◌,
}
use reclaim_rail.Audit.Values.{
  Fields, end, field, text, uuid, moment, int, sequence, cons, nil, canonicalize,
  canonicalize_fields, canonicalize_items,
}
use reclaim_rail.Audit.Values.Canonical.{canonicalize_idem}
use reclaim_rail.Audit.Chain.{
  Platform, ChainEntry, Verification, all_valid, make_chain_entry, canonicalize_material,
  compute_audit_hash, normalize_required_hash, verify_from, verify_chain,
}
use reclaim_rail.Audit.Chain.Linked.{IsChain, verify-IsChain}
use reclaim_rail.Audit.Store.{
  AuditTables, AppendRequest, policy, of_case, insert_ordered, ordered, case_events,
  make_append_request, load_chain, verify_persisted,
}

-- texts that stand for those of a platform; the digest tells the first entry of a chain from others
abbrev bench : Platform
bench = record {
  uuid_text = λ n. "6f1c0a52-0000-4000-8000-000000000004";
  iso_text = λ t. "2026-01-01T12:00:00.000000Z";
  isoformat = λ t. "2026-01-01T12:00:00+00:00";
  sha256_hexdigest = λ m.
      if m.sequence_number == 1
      then "aaaaaaaaaaaaaaaaaaaaaaaaaaaaaaaaaaaaaaaaaaaaaaaaaaaaaaaaaaaaaaaa"
      else "bbbbbbbbbbbbbbbbbbbbbbbbbbbbbbbbbbbbbbbbbbbbbbbbbbbbbbbbbbbbbbbb";
}

abbrev noon : Datetime
noon = record { instant = pos 43_200_000_000; tz_aware = true }

abbrev raw_data : Fields
raw_data = field (some "approval_id") (uuid 4) (
    field (some "expires_at") (moment noon)
      (field (some "codes") (sequence (cons (int (pos 1)) nil)) end))

abbrev stored_data : Fields
stored_data = field (some "approval_id") (text "6f1c0a52-0000-4000-8000-000000000004") (
    field (some "expires_at") (text "2026-01-01T12:00:00.000000Z")
      (field (some "codes") (sequence (cons (int (pos 1)) nil)) end))

canonicalize-raw_data : canonicalize_fields bench.uuid_text bench.iso_text raw_data ≡ ok stored_data
unfolding canonicalize_fields canonicalize canonicalize_items
canonicalize-raw_data = refl

canonicalize_idem_example :
    canonicalize_fields bench.uuid_text bench.iso_text stored_data ≡ ok stored_data
canonicalize_idem_example =
    canonicalize_idem bench.uuid_text bench.iso_text raw_data stored_data canonicalize-raw_data

abbrev first_entry : ChainEntry
first_entry = record {
  recovery_case_id = 4;
  sequence_number = 1;
  event_type = "approval.requested";
  actor_type = "policy";
  event_data = stored_data;
  previous_event_hash = none;
  event_hash = "aaaaaaaaaaaaaaaaaaaaaaaaaaaaaaaaaaaaaaaaaaaaaaaaaaaaaaaaaaaaaaaa";
  occurred_at = noon;
  agent_run_id = none;
  recovery_action_id = some 9;
  hash_algorithm = "sha256";
}

verify-IsChain_example :
    (((v : Verification) × (verify_chain bench (first_entry ∷ []) ≡ ok v) × (v.is_valid ≡ true))
      ↔ IsChain bench (first_entry ∷ []))
    × (IsChain bench (first_entry ∷ [])
        ↔ (verify_chain bench (first_entry ∷ []) ≡ ok (all_valid (length (first_entry ∷ [])))))
verify-IsChain_example = verify-IsChain bench (first_entry ∷ [])

abbrev trail : AuditTables
trail = record { cases = 4 ∷ 5 ∷ []; events = first_entry ∷ [] }

abbrev raw_request : AppendRequest
raw_request = record {
  event_type = " approval.expired ";
  actor_type = policy;
  event_data = raw_data;
  occurred_at = noon;
  agent_run_id = none;
  recovery_action_id = some 9;
}

abbrev request : AppendRequest
request = record raw_request { event_type = "approval.expired"; event_data = stored_data }

make-request : make_append_request bench raw_request ≡ ok request
unfolding make_append_request canonicalize_fields canonicalize canonicalize_items strip lstrip
    rstrip is_space
make-request = refl

verify-trail : verify_persisted bench trail 4 ≡ ok (all_valid 1)
unfolding verify_persisted load_chain case_events of_case ordered insert_ordered make_chain_entry
    verify_chain verify_from compute_audit_hash canonicalize_material canonicalize_fields
    canonicalize canonicalize_items normalize_required_hash strip lstrip rstrip is_space casefold
verify-trail = refl
