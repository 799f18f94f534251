-- ===== src/Links.antt =====
-- apps/api/app/integrations/razorpay/payment_links.py: the request for a payment link, with the checks
-- of its fields, what is sent of it, and the link that Razorpay answers.
use Prim.Native.String.{count}
use reclaim_rail.Base.{
  ℕ, leb, ℤ, pos, leb_ℤ, String, Bool, not, ◌&&◌, ◌||◌, Option, none, some, is_some, Result, ok,
  value_error, validation_error, ◌>>=◌, ◌>>◌, raise_if, Datetime, strip, upper, is_empty,
}

pub data LinkStatus : Type 0 where
  created partially_paid paid expired cancelled : LinkStatus

abbrev pub link_status_value : LinkStatus → String
link_status_value created = "created"
link_status_value partially_paid = "partially_paid"
link_status_value paid = "paid"
link_status_value expired = "expired"
link_status_value cancelled = "cancelled"

-- the notes that the service sends
pub record LinkNotes : Type 0 where
  pub recovery_case_id : String
  pub recovery_action_id : String

pub record LinkRequest : Type 0 where
  pub amount_minor : ℤ
  pub currency : String
  pub reference_id : String
  pub description : String
  pub expire_by : Option Datetime
  pub notes : LinkNotes
  pub customer_email : Option String
  pub customer_contact : Option String
  pub notify_email : Bool
  pub notify_sms : Bool

pub record PaymentLink : Type 0 where
  pub payment_link_id : String
  pub short_url : String
  pub status : LinkStatus
  pub amount_minor : ℤ
  pub amount_paid_minor : ℤ
  pub currency : String
  pub reference_id : String
  pub provider_updated_at : Option ℤ
  pub provider_expires_at : Option Datetime

-- `RazorpayPaymentCustomer`, what is used of it
pub record PaymentCustomer : Type 0 where
  pub email : Option String
  pub contact : Option String

pub record ProviderError : Type 0 where
  pub retryable : Bool
  pub status_code : Option ℕ
  pub provider_error_code : Option String

-- `Field(min_length=..., max_length=...)` after `str_strip_whitespace`; the error is the library's, and
-- carries the name of the field here
abbrev pub text_field : String → String → ℕ → ℕ → Result String
text_field name raw least most = do
  let value = strip raw
  raise_if (not (leb least (count value)) || not (leb (count value) most)) (validation_error name)
  ok value

abbrev pub aware_field : Option Datetime → Result (Unit {0})
aware_field none = ok tt
aware_field (some t) =
    raise_if (not t.tz_aware) (value_error "Payment-link expiry must be timezone-aware")

-- `normalize_notes`, for one entry with a key that is a constant of the program
abbrev pub note_value : String → Result String
note_value raw = do
  let value = strip raw
  raise_if (is_empty value) (value_error "Payment-link notes cannot contain empty keys or values")
  raise_if (not (leb (count value) 256))
      (value_error "Payment-link note keys and values cannot exceed 256 characters")
  ok value

-- `RazorpayPaymentLinkRequest`, made without the contact of the customer
unfoldable pub make_link_request : LinkRequest → Result LinkRequest
make_link_request r = do
  raise_if (leb_ℤ r.amount_minor (pos 0)) (validation_error "amount_minor")
  currency ← text_field "currency" r.currency 3 3
  reference_id ← text_field "reference_id" r.reference_id 1 40
  description ← text_field "description" r.description 1 2048
  aware_field r.expire_by
  case_note ← note_value r.notes.recovery_case_id
  action_note ← note_value r.notes.recovery_action_id
  raise_if (r.notify_email && not (is_some r.customer_email))
      (value_error "Email notification requires a transient customer email")
  raise_if (r.notify_sms && not (is_some r.customer_contact))
      (value_error "SMS notification requires a transient customer contact")
  ok (record r {
    currency = upper currency;
    reference_id = reference_id;
    description = description;
    notes = record { recovery_case_id = case_note; recovery_action_id = action_note };
  })
