-- ===== src/Outbox.antt =====
-- apps/api/app/services/outbox_dispatcher.py with the table of apps/api/app/db/models/outbox.py: events
-- wait in the outbox until a dispatcher has put them on the stream.
pub mod Settled
pub mod Published
mod Tests
use Prim.Native.String as Str
use reclaim_rail.Base.{
  ℕ, zero, suc, ◌+◌, ◌==◌, leb, ℤ, String, Bool, true, false, not, ◌&&◌, ◌||◌, Option, none, some,
  List, [], ◌∷◌, any, map, take, filter, length, Datetime, before, not_after, shift, ◌-ℤ◌,
  if◌then◌else◌,
}
use reclaim_rail.Base.Rows.{sort}
use reclaim_rail.Audit.Values.{Fields}

pub data MessageStatus : Type 0 where
  pending publishing published failed : MessageStatus

pub record OutboxMessage : Type 0 where
  pub id : ℕ
  pub webhook_event_id : ℕ
  pub topic : String
  pub payload : Fields
  pub status : MessageStatus
  pub attempt_count : ℕ
  pub available_at : Datetime
  pub claimed_at : Option Datetime
  pub published_at : Option Datetime
  pub broker_message_id : Option String
  pub last_error : Option String
  pub created_at : Datetime

-- the numbers of the configuration that the modelled part reads; times in microseconds
pub record DispatcherConfig : Type 0 where
  pub batch_size : ℕ
  pub claim_timeout : ℤ
  pub max_attempts : ℕ

pub record ClaimedMessage : Type 0 where
  pub id : ℕ
  pub topic : String
  pub payload : Fields
  pub attempt_count : ℕ

pub record DispatchResult : Type 0 where
  pub claimed : ℕ
  pub published : ℕ
  pub retried : ℕ
  pub failed : ℕ

-- the answer of the broker: the identifier that it gives, or the text of the exception with its type
pub data BrokerAnswer : Type 0 where
  accepted raised : String → BrokerAnswer

abbrev pub is_pending : MessageStatus → Bool
is_pending pending = true
is_pending _ = false

abbrev pub is_published : MessageStatus → Bool
is_published published = true
is_published _ = false

abbrev pub is_publishing : MessageStatus → Bool
is_publishing publishing = true
is_publishing _ = false

-- `text[:n]`
unfoldable pub truncate : ℕ → String → String
truncate zero s = ""
truncate (suc n) Str.[] = ""
truncate (suc n) (Str.◌∷◌ c s) = Str.◌∷◌ c (truncate n s)

-- `update(...).where(p).values(f)`
abbrev pub update_where :
    (OutboxMessage → Bool)
    → (OutboxMessage → OutboxMessage)
    → List OutboxMessage
    → List OutboxMessage
update_where p f rows = map (λ m. if p m then f m else m) rows

-- `claimed_at is not None and claimed_at < stale_before`
abbrev pub claimed_before : Option Datetime → Datetime → Bool
claimed_before none t = false
claimed_before (some c) t = before c t

abbrev pub is_stale : Datetime → OutboxMessage → Bool
is_stale stale_before m = is_publishing m.status && claimed_before m.claimed_at stale_before

abbrev pub release : Datetime → OutboxMessage → OutboxMessage
release now m = record m {
  status = pending;
  claimed_at = none;
  available_at = now;
  last_error = some "Dispatcher claim timed out before publication";
}

abbrev pub claimable : Datetime → OutboxMessage → Bool
claimable now m = is_pending m.status && not_after m.available_at now

-- `order_by(available_at, created_at)`
abbrev pub available_first : OutboxMessage → OutboxMessage → Bool
available_first a b =
    before a.available_at b.available_at
    || (not (before b.available_at a.available_at) && not_after a.created_at b.created_at)

abbrev pub claim : Datetime → OutboxMessage → OutboxMessage
claim now m = record m {
  status = publishing;
  claimed_at = some now;
  attempt_count = m.attempt_count + 1;
  last_error = none;
}

-- what the caller gets of a row that is claimed
abbrev pub to_claimed : OutboxMessage → ClaimedMessage
to_claimed m = record {
  id = m.id;
  topic = m.topic;
  payload = m.payload;
  attempt_count = m.attempt_count;
}

abbrev pub stale_limit : DispatcherConfig → Datetime → Datetime
stale_limit config now = record now { instant = now.instant -ℤ config.claim_timeout }

-- among the rows that the query selects, the key says which row it is
abbrev pub in_batch : List OutboxMessage → OutboxMessage → Bool
in_batch batch m = any (λ b. b.id == m.id) batch

-- `claim_outbox_messages`, at the time `now`; no row is locked by another session
unfoldable pub claim_messages :
    DispatcherConfig → Datetime → List OutboxMessage → List ClaimedMessage × List OutboxMessage
claim_messages config now rows =
    let released = update_where (is_stale (stale_limit config now)) (release now) rows in
    let batch = take config.batch_size (sort available_first (filter (claimable now) released)) in
    (
      map (λ m. to_claimed (claim now m)) batch,
      update_where (λ m. claimable now m && in_batch batch m) (claim now) released,
    )

-- `id == message.id` and `status == PUBLISHING`
abbrev pub still_claimed : ClaimedMessage → OutboxMessage → Bool
still_claimed message m = (m.id == message.id) && is_publishing m.status

abbrev pub as_published : Datetime → String → OutboxMessage → OutboxMessage
as_published now broker_id m = record m {
  status = published;
  broker_message_id = some broker_id;
  published_at = some now;
  claimed_at = none;
  last_error = none;
}

-- `mark_outbox_message_published`
unfoldable pub mark_published :
    ClaimedMessage → String → Datetime → List OutboxMessage → List OutboxMessage
mark_published message broker_id now rows =
    update_where (still_claimed message) (as_published now broker_id) rows

abbrev pub gives_up : DispatcherConfig → ClaimedMessage → Bool
gives_up config message = leb config.max_attempts message.attempt_count

abbrev pub as_failure : Bool → Datetime → ℤ → String → OutboxMessage → OutboxMessage
as_failure permanently now delay error m = record m {
  status = if permanently then failed else pending;
  available_at = if permanently then now else shift now delay;
  claimed_at = none;
  last_error = some (truncate 2000 error);
}

-- `record_outbox_message_failure`; `delay` is what `calculate_retry_delay_seconds` answers
unfoldable pub record_failure :
    DispatcherConfig
    → ClaimedMessage
    → String
    → Datetime
    → ℤ
    → List OutboxMessage
    → Bool × List OutboxMessage
record_failure config message error now delay rows =
    let permanently = gives_up config message in
    (
      permanently,
      update_where (still_claimed message) (as_failure permanently now delay error) rows,
    )

abbrev pub counted_published : DispatchResult → DispatchResult
counted_published r = record r { published = r.published + 1 }

abbrev pub counted_failure : Bool → DispatchResult → DispatchResult
counted_failure true r = record r { failed = r.failed + 1 }
counted_failure false r = record r { retried = r.retried + 1 }

-- The broker's answer to a message, the time at which a message's end is recorded, and the delay
-- before the next attempt, which is random and in floating point.
module _ (broker : ClaimedMessage → BrokerAnswer) (clock : ClaimedMessage → Datetime)
    (retry_delay : ℕ → ℤ) (config : DispatcherConfig) where
  -- the end of one message
  unfoldable pub finish :
      BrokerAnswer
      → ClaimedMessage
      → DispatchResult
      → List OutboxMessage
      → DispatchResult × List OutboxMessage
  finish (accepted broker_id) message r rows =
      (counted_published r, mark_published message broker_id (clock message) rows)
  finish (raised error) message r rows =
      let (permanently, rows') =
        record_failure config message error (clock message) (retry_delay message.attempt_count)
          rows in
      (counted_failure permanently r, rows')

  unfoldable pub dispatch_each :
      List ClaimedMessage
      → DispatchResult
      → List OutboxMessage
      → DispatchResult × List OutboxMessage
  dispatch_each [] r rows = (r, rows)
  dispatch_each (message ∷ messages) r rows =
      let (r', rows') = finish (broker message) message r rows in dispatch_each messages r' rows'

  -- `dispatch_outbox_batch`
  unfoldable pub dispatch_batch :
      Datetime → List OutboxMessage → DispatchResult × List OutboxMessage
  dispatch_batch now rows =
      let (messages, claimed_rows) = claim_messages config now rows in
      dispatch_each messages
        (record { claimed = length messages; published = 0; retried = 0; failed = 0 }) claimed_rows
