-- ===== src/Audit/Values.antt =====
-- The event data of an audit event: `_canonicalize` and `normalize_recovery_audit_event_data` of
-- apps/api/app/services/recovery_audit.py. A float is the number of its IEEE 754 bits; a value of a
-- class that the code does not take carries the name of its class. `enum` is a member of an
-- enumeration that is not itself a text or a number.
pub mod Canonical
use reclaim_rail.Base.{
  ℕ, ◌/◌, ◌%◌, ◌^◌, ◌==◌, ℤ, String, Bool, not, Option, none, some, Result, ok, err, type_error,
  value_error, ◌>>=◌, ◌>>◌, raise_if, Datetime, require_timezone_aware,
}
use Prim.Native.String as Str

mutual
  pub data Value : Type 0 where
    null : Value
    text : String → Value
    flag : Bool → Value
    int : ℤ → Value
    float : ℕ → Value
    uuid : ℕ → Value
    moment : Datetime → Value
    enum : Value → Value
    mapping : Fields → Value
    sequence : Items → Value
    other : String → Value

  -- the items of a mapping, in order; `none` is a key that is not a string
  pub data Fields : Type 0 where
    end : Fields
    field : Option String → Value → Fields → Fields

  pub data Items : Type 0 where
    nil : Items
    cons : Value → Items → Items

-- `math.isfinite`: the exponent is not all ones
abbrev pub is_finite : ℕ → Bool
is_finite bits = not ((bits / 2 ^ 52) % 2048 == 2047)

-- `if not isinstance(key, str): raise`
abbrev pub string_key : Option String → Result String
string_key none = err (type_error "Audit event-data keys must be strings")
string_key (some key) = ok key

-- `_normalize_timestamp`, with the platform's text of a time in UTC
abbrev pub normalize_timestamp : (ℤ → String) → Datetime → Result String
normalize_timestamp iso_text t = do
  require_timezone_aware t (value_error "Audit timestamp must be timezone-aware")
  ok (iso_text t.instant)

-- `uuid_text` and `iso_text` are the texts that the platform has for identifiers and times.
module _ (uuid_text : ℕ → String) (iso_text : ℤ → String) where
  unfoldable mutual
    pub canonicalize : Value → Result Value
    canonicalize null = ok null
    canonicalize (text s) = ok (text s)
    canonicalize (flag b) = ok (flag b)
    canonicalize (int n) = ok (int n)
    canonicalize (float bits) = do
      raise_if (not (is_finite bits))
          (value_error "Audit event data cannot contain non-finite numbers")
      ok (float bits)
    canonicalize (uuid n) = ok (text (uuid_text n))
    canonicalize (moment t) = do s ← normalize_timestamp iso_text t; ok (text s)
    canonicalize (enum v) = canonicalize v
    canonicalize (mapping fs) = do gs ← canonicalize_fields fs; ok (mapping gs)
    canonicalize (sequence vs) = do ws ← canonicalize_items vs; ok (sequence ws)
    canonicalize (other name) =
        err (type_error (Str.◌++◌ "Unsupported audit event-data value: " name))

    pub canonicalize_fields : Fields → Result Fields
    canonicalize_fields end = ok end
    canonicalize_fields (field key v fs) = do
      k ← string_key key
      w ← canonicalize v
      gs ← canonicalize_fields fs
      ok (field (some k) w gs)

    pub canonicalize_items : Items → Result Items
    canonicalize_items nil = ok nil
    canonicalize_items (cons v vs) = do
      w ← canonicalize v
      ws ← canonicalize_items vs
      ok (cons w ws)

-- `normalize_recovery_audit_event_data`
abbrev pub normalize_event_data : (ℕ → String) → (ℤ → String) → Fields → Result Fields
normalize_event_data = canonicalize_fields
