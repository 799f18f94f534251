-- ===== src/Audit/Chain.antt =====
-- The hash chain of apps/api/app/services/recovery_audit.py: what is hashed, the entries, and the
-- verification of a chain. `Platform` is the code outside the repository that it calls.
pub mod Linked
pub mod Evidence
use Prim.Native.Char.{Char, code}
use Prim.Native.String.{count}
use Prim.Native.String as Str
use reclaim_rail.Base.{
  ℕ, ◌+◌, ◌==◌, leb, ℤ, String, Bool, true, false, not, ◌&&◌, ◌||◌, Option, none, some, List, [],
  ◌∷◌, Result, ok, value_error, ◌>>=◌, ◌>>◌, raise_if, Datetime, require_timezone_aware, strip,
  casefold, is_empty, str_eq, if◌then◌else◌,
}
use reclaim_rail.Audit.Values.{Fields, normalize_event_data, normalize_timestamp}

pub data VerificationReason : Type 0 where
  valid case_mismatch sequence_gap previous_hash_mismatch : VerificationReason
  event_hash_mismatch unsupported_hash_algorithm : VerificationReason

pub record ChainEntry : Type 0 where
  pub recovery_case_id : ℕ
  pub sequence_number : ℕ
  pub event_type : String
  pub actor_type : String
  pub event_data : Fields
  pub previous_event_hash : Option String
  pub event_hash : String
  pub occurred_at : Datetime
  pub agent_run_id : Option ℕ
  pub recovery_action_id : Option ℕ
  pub hash_algorithm : String

-- the dictionary that is serialised, without its constant schema; times are texts already
pub record Material : Type 0 where
  pub recovery_case_id : ℕ
  pub sequence_number : ℕ
  pub event_type : String
  pub actor_type : String
  pub event_data : Fields
  pub previous_event_hash : Option String
  pub occurred_at : String
  pub agent_run_id : Option ℕ
  pub recovery_action_id : Option ℕ

-- the texts of identifiers and times (`iso_text` that of a time in UTC to the microsecond, `isoformat`
-- that of a time as it is), and SHA-256 of the JSON text of the material, in hexadecimal
pub record Platform : Type 0 where
  pub uuid_text : ℕ → String
  pub iso_text : ℤ → String
  pub isoformat : Datetime → String
  pub sha256_hexdigest : Material → String

pub record Verification : Type 0 where
  pub is_valid : Bool
  pub reason : VerificationReason
  pub checked_event_count : ℕ
  pub broken_sequence_number : Option ℕ

-- `character in "0123456789abcdef"`
abbrev is_lower_hex : Char → Bool
is_lower_hex c =
    (leb b'0' (code c) && leb (code c) b'9') || (leb b'a' (code c) && leb (code c) b'f')

abbrev all_lower_hex : String → Bool
all_lower_hex Str.[] = true
all_lower_hex (Str.◌∷◌ c s) = is_lower_hex c && all_lower_hex s

-- `_normalize_required_hash` and `_normalize_optional_hash`
unfoldable pub normalize_required_hash : String → Result String
normalize_required_hash value = do
  let normalized = casefold (strip value)
  raise_if (not (count normalized == 64) || not (all_lower_hex normalized))
      (value_error "Audit hash must be a 64-character hexadecimal SHA-256 digest")
  ok normalized

abbrev pub normalize_optional_hash : Option String → Result (Option String)
normalize_optional_hash none = ok none
normalize_optional_hash (some value) = do h ← normalize_required_hash value; ok (some h)

abbrev pub supported_hash_algorithm : String
supported_hash_algorithm = "sha256"

-- `RecoveryAuditChainEntry.__post_init__`
unfoldable pub make_chain_entry : ChainEntry → Result ChainEntry
make_chain_entry e = do
  raise_if (not (leb 1 e.sequence_number))
      (value_error "Audit sequence number must be at least one")
  raise_if (is_empty (strip e.event_type)) (value_error "Audit event type cannot be empty")
  raise_if (is_empty (casefold (strip e.actor_type)))
      (value_error "Audit actor type cannot be empty")
  require_timezone_aware e.occurred_at (value_error "Audit timestamp must be timezone-aware")
  previous ← normalize_optional_hash e.previous_event_hash
  event_hash ← normalize_required_hash e.event_hash
  ok (record e {
    event_type = strip e.event_type;
    actor_type = casefold (strip e.actor_type);
    previous_event_hash = previous;
    event_hash = event_hash;
    hash_algorithm = casefold (strip e.hash_algorithm);
  })

abbrev broken : VerificationReason → ℕ → ChainEntry → Result Verification
broken reason checked e = ok (record {
  is_valid = false;
  reason = reason;
  checked_event_count = checked;
  broken_sequence_number = some e.sequence_number;
})

abbrev pub all_valid : ℕ → Verification
all_valid checked = record {
  is_valid = true;
  reason = valid;
  checked_event_count = checked;
  broken_sequence_number = none;
}

-- `a != b` of two optional hashes
abbrev pub same_hash : Option String → Option String → Bool
same_hash none none = true
same_hash (some a) (some b) = str_eq a b
same_hash _ _ = false

-- the last of the tests of one entry
abbrev check_hash : ChainEntry → ℕ → Result Verification → String → Result Verification
check_hash e checked rest expected_hash =
    if not (str_eq e.event_hash expected_hash) then broken event_hash_mismatch checked e else rest

module _ (platform : Platform) where
  -- `canonicalize_recovery_audit_material` up to the serialisation; the arguments are those fields
  -- of the entry that are not its hash
  unfoldable pub canonicalize_material : ChainEntry → Result Material
  canonicalize_material e = do
    raise_if (not (leb 1 e.sequence_number))
        (value_error "Audit sequence number must be at least one")
    raise_if (is_empty (strip e.event_type)) (value_error "Audit event type cannot be empty")
    raise_if (is_empty (casefold (strip e.actor_type)))
        (value_error "Audit actor type cannot be empty")
    event_data ← normalize_event_data platform.uuid_text platform.iso_text e.event_data
    occurred_at ← normalize_timestamp platform.iso_text e.occurred_at
    previous ← normalize_optional_hash e.previous_event_hash
    ok (record {
      recovery_case_id = e.recovery_case_id;
      sequence_number = e.sequence_number;
      event_type = strip e.event_type;
      actor_type = casefold (strip e.actor_type);
      event_data = event_data;
      previous_event_hash = previous;
      occurred_at = occurred_at;
      agent_run_id = e.agent_run_id;
      recovery_action_id = e.recovery_action_id;
    })

  -- `compute_recovery_audit_hash`
  unfoldable pub compute_audit_hash : ChainEntry → Result String
  compute_audit_hash e = do
    material ← canonicalize_material e
    ok (platform.sha256_hexdigest material)

  -- `build_recovery_audit_entry`; the hash and the algorithm of the argument are not read
  unfoldable pub build_audit_entry : ChainEntry → Result ChainEntry
  build_audit_entry e = do
    event_hash ← compute_audit_hash e
    make_chain_entry
        (record e { event_hash = event_hash; hash_algorithm = supported_hash_algorithm })

  -- the loop of `verify_recovery_audit_chain`, after `checked` entries
  unfoldable pub verify_from : ℕ → Option String → ℕ → List ChainEntry → Result Verification
  verify_from expected_case expected_previous checked [] = ok (all_valid checked)
  verify_from expected_case expected_previous checked (e ∷ es) =
      let rest = verify_from expected_case (some e.event_hash) (checked + 1) es in
      if not (e.recovery_case_id == expected_case)
      then broken case_mismatch checked e
      else if not (e.sequence_number == checked + 1)
      then broken sequence_gap checked e
      else if not (str_eq e.hash_algorithm supported_hash_algorithm)
      then broken unsupported_hash_algorithm checked e
      else if not (same_hash e.previous_event_hash expected_previous)
      then broken previous_hash_mismatch checked e
      else compute_audit_hash e >>= check_hash e checked rest

  -- `verify_recovery_audit_chain`
  unfoldable pub verify_chain : List ChainEntry → Result Verification
  verify_chain [] = ok (all_valid 0)
  verify_chain (e ∷ es) = verify_from e.recovery_case_id none 0 (e ∷ es)
