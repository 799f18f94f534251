-- ===== src/Audit/Store.antt =====
-- apps/api/app/services/recovery_audit_store.py: the rows of `recovery_audit_events` and the statements
-- on them. A case's row is locked while its chain grows, so appends to one chain follow one another.
pub mod Reload
pub mod Rows
pub mod Built
pub mod Appended
use reclaim_rail.Base.{
  ℕ, ◌+◌, ◌==◌, leb, String, Bool, true, false, not, Option, none, some, List, [], ◌∷◌, ◌++◌, any,
  filter, map_ok, Result, ok, lookup_error, value_error, ◌>>=◌, ◌>>◌, raise_if, Datetime,
  require_timezone_aware, strip, is_empty, if◌then◌else◌,
}
use Prim.Native.String as Str
use reclaim_rail.Audit.Values.{Fields, normalize_event_data}
use reclaim_rail.Audit.Chain.{
  Platform, ChainEntry, Verification, make_chain_entry, build_audit_entry, verify_chain,
}

-- apps/api/app/db/models/recovery.py
pub data AuditActor : Type 0 where
  system agent policy worker operator razorpay : AuditActor

abbrev pub actor_value : AuditActor → String
actor_value system = "system"
actor_value agent = "agent"
actor_value policy = "policy"
actor_value worker = "worker"
actor_value operator = "operator"
actor_value razorpay = "razorpay"

-- the cases that there are, and the rows of the audit events, in the order of their insertion
pub record AuditTables : Type 0 where
  pub cases : List ℕ
  pub events : List ChainEntry

pub record AppendRequest : Type 0 where
  pub event_type : String
  pub actor_type : AuditActor
  pub event_data : Fields
  pub occurred_at : Datetime
  pub agent_run_id : Option ℕ
  pub recovery_action_id : Option ℕ

-- `where(recovery_case_id == id)`
unfoldable pub of_case : ℕ → ChainEntry → Bool
of_case id e = e.recovery_case_id == id

-- `order_by(sequence_number)`
unfoldable pub insert_ordered : ChainEntry → List ChainEntry → List ChainEntry
insert_ordered e [] = e ∷ []
insert_ordered e (f ∷ fs) =
    let rest = insert_ordered e fs in
    if leb e.sequence_number f.sequence_number then e ∷ f ∷ fs else f ∷ rest

unfoldable pub ordered : List ChainEntry → List ChainEntry
unfolding insert_ordered
ordered [] = []
ordered (e ∷ es) = insert_ordered e (ordered es)

-- `order_by(sequence_number.desc()).limit(1)`
abbrev pub latest : List ChainEntry → Option ChainEntry
latest [] = none
latest (e ∷ []) = some e
latest (e ∷ f ∷ fs) = latest (f ∷ fs)

unfoldable pub case_events : ℕ → AuditTables → List ChainEntry
unfolding of_case ordered
case_events id db = ordered (filter (of_case id) db.events)

abbrev pub next_number : Option ChainEntry → ℕ
next_number none = 1
next_number (some e) = e.sequence_number + 1

abbrev pub chained_hash : Option ChainEntry → Option String
chained_hash none = none
chained_hash (some e) = some e.event_hash

module _ (platform : Platform) where
  -- `RecoveryAuditAppendRequest.__post_init__`
  unfoldable pub make_append_request : AppendRequest → Result AppendRequest
  make_append_request r = do
    raise_if (is_empty (strip r.event_type)) (value_error "Audit event type cannot be empty")
    require_timezone_aware r.occurred_at (value_error "Audit timestamp must be timezone-aware")
    event_data ← normalize_event_data platform.uuid_text platform.iso_text r.event_data
    ok (record r { event_type = strip r.event_type; event_data = event_data })

  -- the arguments of `build_recovery_audit_entry`; the hash and its algorithm are computed there
  abbrev pub next_entry : ℕ → AppendRequest → Option ChainEntry → ChainEntry
  next_entry id r previous = record {
    recovery_case_id = id;
    sequence_number = next_number previous;
    event_type = r.event_type;
    actor_type = actor_value r.actor_type;
    event_data = r.event_data;
    previous_event_hash = chained_hash previous;
    event_hash = "";
    occurred_at = r.occurred_at;
    agent_run_id = r.agent_run_id;
    recovery_action_id = r.recovery_action_id;
    hash_algorithm = "";
  }

  -- `append_recovery_audit_event`
  unfoldable pub append_audit_event :
      AuditTables → ℕ → AppendRequest → Result (ChainEntry × AuditTables)
  append_audit_event db id r = do
    raise_if (not (any (λ c. c == id) db.cases)) (
        lookup_error
          (Str.◌++◌ "Recovery case " (Str.◌++◌ (platform.uuid_text id) " does not exist")))
    e ← build_audit_entry platform (next_entry id r (latest (case_events id db)))
    ok (e, record db { events = db.events ++ (e ∷ []) })

  -- `load_recovery_audit_chain`, each row through `recovery_audit_model_to_chain_entry`
  unfoldable pub load_chain : AuditTables → ℕ → Result (List ChainEntry)
  load_chain db id = map_ok make_chain_entry (case_events id db)

  -- `verify_persisted_recovery_audit_chain`
  unfoldable pub verify_persisted : AuditTables → ℕ → Result Verification
  verify_persisted db id = do entries ← load_chain db id; verify_chain platform entries
