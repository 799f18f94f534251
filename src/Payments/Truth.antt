-- ===== src/Payments/Truth.antt =====
-- apps/api/app/domain/payments/truth.py, with the enumerations that it takes from
-- apps/api/app/domain/recovery/contracts.py
pub mod Order
pub mod Safety
use Prim.Native.Char.{Char, code}
use Prim.Native.String.{count}
use Prim.Native.String as Str
use reclaim_rail.Base.{
  String, Bool, true, false, not, ◌&&◌, ◌||◌, Option, none, some, is_some, List, [], ◌∷◌, map, ◌++◌,
  any, filter, filter_map, nonempty, leb, ◌==◌, Result, ok, err, value_error, ◌>>=◌, ◌>>◌, raise_if,
  Datetime, not_after, require_timezone_aware, require_optional_aware, strip, casefold, is_empty,
  str_eq, if◌then◌else◌,
}
use reclaim_rail.Base.TextOrder.{sorted_set}

pub data PaymentEvidenceSource : Type 0 where
  provider_payment_api provider_order_api verified_webhook merchant_database : PaymentEvidenceSource
  recovery_state reconciliation payment_lab recovery_link : PaymentEvidenceSource

-- `PaymentEvidenceSource.value`
abbrev pub source_value : PaymentEvidenceSource → String
source_value provider_payment_api = "provider_payment_api"
source_value provider_order_api = "provider_order_api"
source_value verified_webhook = "verified_webhook"
source_value merchant_database = "merchant_database"
source_value recovery_state = "recovery_state"
source_value reconciliation = "reconciliation"
source_value payment_lab = "payment_lab"
source_value recovery_link = "recovery_link"

pub data PaymentTruthState : Type 0 where
  payment_confirmed payment_failed payment_pending outcome_unknown : PaymentTruthState
  source_conflict late_authorization recovery_already_active : PaymentTruthState
  recovery_confirmed manual_investigation_required : PaymentTruthState

pub record EvidenceFact : Type 0 where
  pub evidence_id : String
  pub source : PaymentEvidenceSource
  pub fact_name : String
  pub fact_value : String
  pub content_sha256 : String
  pub observed_at : Datetime
  pub event_at : Option Datetime
  pub fresh_until : Option Datetime
  pub verified : Bool
  pub reliability : String
  pub unavailable_reason : Option String

-- `character in hexdigits`
abbrev is_hex : Char → Bool
is_hex c =
    (leb b'0' (code c) && leb (code c) b'9')
    || (leb b'a' (code c) && leb (code c) b'f')
    || (leb b'A' (code c) && leb (code c) b'F')

abbrev pub all_hex : String → Bool
all_hex Str.[] = true
all_hex (Str.◌∷◌ c s) = is_hex c && all_hex s

-- `reliability in {"authoritative", "corroborating", "weak"}`
abbrev pub is_reliability : String → Bool
is_reliability r = str_eq r "authoritative" || str_eq r "corroborating" || str_eq r "weak"

-- `PaymentTruthEvidenceFact.__post_init__`
unfoldable pub make_evidence_fact : EvidenceFact → Result EvidenceFact
make_evidence_fact f = do
  raise_if (is_empty (strip f.evidence_id)) (value_error "evidence_id cannot be empty")
  raise_if (is_empty (strip f.fact_name)) (value_error "fact_name cannot be empty")
  raise_if (is_empty (strip f.fact_value)) (value_error "fact_value cannot be empty")
  let digest = casefold (strip f.content_sha256)
  raise_if (not (count digest == 64) || not (all_hex digest))
      (value_error "content_sha256 must be a SHA-256 hex digest")
  require_timezone_aware f.observed_at (value_error "observed_at must be timezone-aware")
  require_optional_aware f.event_at (value_error "event_at must be timezone-aware")
  require_optional_aware f.fresh_until (value_error "fresh_until must be timezone-aware")
  raise_if (not (is_reliability f.reliability))
      (value_error "reliability must be authoritative, corroborating, or weak")
  ok (record f { content_sha256 = digest })

-- `is_fresh_at`
abbrev pub is_fresh_at : Datetime → Option Datetime → Bool
is_fresh_at resolved_at none = true
is_fresh_at resolved_at (some until) = not_after resolved_at until

pub record TruthDecision : Type 0 where
  pub state : PaymentTruthState
  pub evidence_refs : List String
  pub conflict_codes : List String

-- membership in the sets of status texts
abbrev pub is_confirmed_status : String → Bool
is_confirmed_status s = str_eq s "captured" || str_eq s "paid" || str_eq s "refunded"

abbrev pub is_failed_status : String → Bool
is_failed_status s = str_eq s "failed"

abbrev pub is_pending_status : String → Bool
is_pending_status s =
    str_eq s "created" || str_eq s "pending" || str_eq s "attempted" || str_eq s "authorized"

abbrev pub is_active_recovery_status : String → Bool
is_active_recovery_status s =
    str_eq s "active"
    || str_eq s "ready"
    || str_eq s "awaiting_approval"
    || str_eq s "scheduled"
    || str_eq s "executing"
    || str_eq s "waiting"

abbrev pub is_confirmed_recovery_status : String → Bool
is_confirmed_recovery_status s = str_eq s "recovered" || str_eq s "paid" || str_eq s "verified"

abbrev pub is_true_value : String → Bool
is_true_value s = str_eq s "1" || str_eq s "true" || str_eq s "yes"

abbrev pub is_false_value : String → Bool
is_false_value s = str_eq s "0" || str_eq s "false" || str_eq s "no"

-- `item.fact_name.strip().casefold()` and `item.fact_value.strip().casefold()`
unfoldable pub name_of : EvidenceFact → String
name_of f = casefold (strip f.fact_name)

unfoldable pub value_of : EvidenceFact → String
value_of f = casefold (strip f.fact_value)

-- `item.verified and item.is_fresh_at(resolved_at)`
unfoldable pub is_usable : Datetime → EvidenceFact → Bool
is_usable resolved_at f = f.verified && is_fresh_at resolved_at f.fresh_until

-- a truthy `unavailable_reason`
abbrev pub is_unavailable : Option String → Bool
is_unavailable none = false
is_unavailable (some reason) = not (is_empty reason)

-- the tests of one usable item, each with the fact that it is about
unfoldable pub says_provider_missing : EvidenceFact → Bool
says_provider_missing f =
    str_eq (name_of f) "provider.matching_payment_count" && str_eq (strip f.fact_value) "0"

unfoldable pub says_payment_status : (String → Bool) → EvidenceFact → Bool
says_payment_status test f =
    (str_eq (name_of f) "payment.status" || str_eq (name_of f) "order.status") && test (value_of f)

unfoldable pub says_recovery_status : (String → Bool) → EvidenceFact → Bool
says_recovery_status test f = str_eq (name_of f) "recovery.status" && test (value_of f)

unfoldable pub says_late_authorization : EvidenceFact → Bool
says_late_authorization f =
    str_eq (name_of f) "payment.late_authorization" && is_true_value (value_of f)

-- the rest of the text behind a prefix that it begins with
unfoldable pub strip_prefix? : String → String → Option String
strip_prefix? Str.[] s = some s
strip_prefix? (Str.◌∷◌ p ps) Str.[] = none
strip_prefix? (Str.◌∷◌ p ps) (Str.◌∷◌ c s) =
    let rest = strip_prefix? ps s in if code p == code c then rest else none

-- the identity that an item refutes
unfoldable pub identity_mismatch : EvidenceFact → Option String
unfolding strip_prefix?
identity_mismatch f =
    if is_false_value (value_of f) then strip_prefix? "identity." (name_of f) else none

abbrev mismatch_code : String → String
mismatch_code name = Str.◌++◌ "identity_" (Str.◌++◌ name "_mismatch")

abbrev without_conflict : List String → PaymentTruthState → TruthDecision
without_conflict refs state = record { state = state; evidence_refs = refs; conflict_codes = [] }

-- the part of `resolve_payment_truth` below the choice of the usable items
unfoldable pub resolve_usable : List EvidenceFact → TruthDecision
unfolding sorted_set
resolve_usable usable =
    let refs = sorted_set (map (λ f. f.evidence_id) usable) in
    let provider_unavailable = any (λ f. is_unavailable f.unavailable_reason) usable in
    let provider_payment_missing = any says_provider_missing usable in
    let late_authorized = any says_late_authorization usable in
    let identity_mismatches = sorted_set (filter_map identity_mismatch usable) in
    let confirmed = any (says_payment_status is_confirmed_status) usable in
    let is_authorized = any (says_payment_status (λ s. str_eq s "authorized")) usable in
    let failed = any (says_payment_status is_failed_status) usable in
    let pending = any (says_payment_status is_pending_status) usable in
    let contradiction = confirmed && failed && not late_authorized in
    if nonempty identity_mismatches || contradiction
    then record {
      state = source_conflict;
      evidence_refs = refs;
      conflict_codes =
          map mismatch_code identity_mismatches
          ++ (if contradiction then "confirmed_and_failed_payment_evidence" ∷ [] else []);
    }
    else if (provider_unavailable || provider_payment_missing) && not confirmed
    then without_conflict refs manual_investigation_required
    else if any (says_recovery_status is_confirmed_recovery_status) usable
    then without_conflict refs recovery_confirmed
    else if late_authorized && (confirmed || is_authorized)
    then without_conflict refs late_authorization
    else if confirmed
    then without_conflict refs payment_confirmed
    else if any (says_recovery_status is_active_recovery_status) usable
    then without_conflict refs recovery_already_active
    else if failed
    then without_conflict refs payment_failed
    else if pending
    then without_conflict refs payment_pending
    else without_conflict refs manual_investigation_required

unfoldable pub resolve_payment_truth : List EvidenceFact → Datetime → Result TruthDecision
resolve_payment_truth evidence resolved_at = do
  require_timezone_aware resolved_at (value_error "Truth resolution time must be timezone-aware")
  let usable = filter (is_usable resolved_at) evidence
  ok (if nonempty usable then resolve_usable usable else without_conflict [] outcome_unknown)
