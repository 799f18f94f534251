-- ===== src/Payments/State.antt =====
-- apps/api/app/domain/payments/state_machine.py
pub mod Order
pub mod Replay
use reclaim_rail.Base.{String, Bool, true, false, ◌||◌, Option, none, some, str_eq, if◌then◌else◌}

pub data PaymentState : Type 0 where
  unknown created failed authorized captured refunded : PaymentState

pub data TransitionOutcome : Type 0 where
  applied ignored : TransitionOutcome

pub data TransitionReason : Type 0 where
  initialized progressed late_authorization duplicate_state : TransitionReason
  regression_blocked terminal_state invalid_target : TransitionReason

-- `PaymentState.value`
abbrev pub value : PaymentState → String
value unknown = "unknown"
value created = "created"
value failed = "failed"
value authorized = "authorized"
value captured = "captured"
value refunded = "refunded"

-- `PaymentState(text)`, with `none` where it raises
unfoldable pub parse : String → Option PaymentState
parse text =
    if str_eq text "unknown"
    then some unknown
    else if str_eq text "created"
    then some created
    else if str_eq text "failed"
    then some failed
    else if str_eq text "authorized"
    then some authorized
    else if str_eq text "captured"
    then some captured
    else if str_eq text "refunded"
    then some refunded
    else none

-- `a is b`
abbrev pub same : PaymentState → PaymentState → Bool
same unknown unknown = true
same created created = true
same failed failed = true
same authorized authorized = true
same captured captured = true
same refunded refunded = true
same _ _ = false

-- `state in STOP_RECOVERY_STATES`
abbrev pub stops_recovery : PaymentState → Bool
stops_recovery authorized = true
stops_recovery captured = true
stops_recovery refunded = true
stops_recovery _ = false

-- `incoming in ALLOWED_TRANSITIONS[current]`
abbrev pub allowed : PaymentState → PaymentState → Bool
allowed unknown unknown = false
allowed unknown _ = true
allowed created failed = true
allowed created authorized = true
allowed created captured = true
allowed created refunded = true
allowed failed authorized = true
allowed failed captured = true
allowed failed refunded = true
allowed authorized captured = true
allowed authorized refunded = true
allowed captured refunded = true
allowed _ _ = false

pub record Decision : Type 0 where
  pub previous_state : PaymentState
  pub next_state : PaymentState
  pub outcome : TransitionOutcome
  pub reason : TransitionReason
  pub late : Bool
  pub stop_recovery : Bool

-- `decision.applied`
abbrev pub is_applied : TransitionOutcome → Bool
is_applied applied = true
is_applied ignored = false

-- a decision that changes nothing
abbrev ignore : PaymentState → TransitionReason → Bool → Decision
ignore current reason stopped = record {
  previous_state = current;
  next_state = current;
  outcome = ignored;
  reason = reason;
  late = false;
  stop_recovery = stopped;
}

-- `current is FAILED and incoming in {AUTHORIZED, CAPTURED}`
abbrev pub is_late : PaymentState → PaymentState → Bool
is_late failed authorized = true
is_late failed captured = true
is_late _ _ = false

unfoldable pub decide_payment_transition : PaymentState → PaymentState → Decision
decide_payment_transition current incoming =
    let stopped = stops_recovery current in
    let late_authorized = is_late current incoming in
    if same incoming unknown
    then ignore current invalid_target stopped
    else if same incoming current
    then ignore current duplicate_state stopped
    else if same current refunded
    then ignore current terminal_state true
    else if allowed current incoming
    then record {
      previous_state = current;
      next_state = incoming;
      outcome = applied;
      reason =
          if late_authorized
          then late_authorization
          else if same current unknown
          then initialized
          else progressed;
      late = late_authorized;
      stop_recovery = stopped || stops_recovery incoming;
    }
    else ignore current regression_blocked stopped
