-- ===== src/Outbox/Tests.antt =====
-- Two messages, one that the broker takes and one that it refuses.
use mathlib.Core.List.{Memᴰ}
use reclaim_rail.Base.{
  ◌+◌, ◌==◌, ◌-ℤ◌, pos, ◌≡◌, refl, true, false, none, List, [], ◌∷◌, any, length, ◌⊎◌,
  if◌then◌else◌, Datetime,
}
use reclaim_rail.Base.Rows.{insert, sort}
use reclaim_rail.Audit.Values.{end}
use reclaim_rail.Outbox.{
  OutboxMessage, DispatcherConfig, ClaimedMessage, BrokerAnswer, accepted, raised, pending,
  published, claim_messages, mark_published, record_failure, truncate, finish, dispatch_each,
  dispatch_batch, as_published,
}
use reclaim_rail.Outbox.Settled.{unsettled, dispatch_settles}
use reclaim_rail.Outbox.Published.{Taken, published_accepted, ended_stays}

abbrev noon : Datetime
noon = record { instant = pos 43_200_000_000; tz_aware = true }

abbrev config : DispatcherConfig
config = record { batch_size = 10; claim_timeout = pos 60_000_000; max_attempts = 5 }

abbrev first : OutboxMessage
first = record {
  id = 1;
  webhook_event_id = 11;
  topic = "payment.webhook";
  payload = end;
  status = pending;
  attempt_count = 0;
  available_at = noon;
  claimed_at = none;
  published_at = none;
  broker_message_id = none;
  last_error = none;
  created_at = noon;
}

abbrev second : OutboxMessage
second = record first { id = 2; webhook_event_id = 12; attempt_count = 4 }

abbrev sent : OutboxMessage
sent = record first { id = 3; webhook_event_id = 13; status = published; attempt_count = 1 }

abbrev outbox : List OutboxMessage
outbox = first ∷ second ∷ sent ∷ []

abbrev broker : ClaimedMessage → BrokerAnswer
broker c = if c.id == 1 then accepted "1-0" else raised "ConnectionError: refused"

abbrev clock : ClaimedMessage → Datetime
clock c = noon

claims-second : any (λ c. c.id == 2) (claim_messages config noon outbox).0 ≡ true
unfolding claim_messages sort insert ◌-ℤ◌
claims-second = refl

dispatch_settles_example :
    let (r, rows') = dispatch_batch broker clock (λ n. pos 1_000_000) config noon outbox in
    (any (unsettled 2) rows' ≡ false)
    × (r.claimed ≡ length (claim_messages config noon outbox).0)
    × (r.published + r.retried + r.failed ≡ r.claimed)
dispatch_settles_example =
    dispatch_settles broker clock (λ n. pos 1_000_000) config noon outbox 2 claims-second

abbrev done : OutboxMessage
done = as_published noon "1-0" (record first { attempt_count = 1 })

done-stored : Memᴰ done (dispatch_batch broker clock (λ n. pos 1_000_000) config noon outbox).1
unfolding dispatch_batch dispatch_each finish mark_published record_failure truncate claim_messages
    sort insert ◌-ℤ◌
done-stored = Memᴰ.head refl

published_accepted_example :
    Memᴰ done outbox
    ⊎ Taken broker clock (λ n. pos 1_000_000) config 1 (claim_messages config noon outbox).0
published_accepted_example =
    published_accepted broker clock (λ n. pos 1_000_000) config noon outbox done done-stored refl

ended_stays_example :
    Memᴰ sent (dispatch_batch broker clock (λ n. pos 1_000_000) config noon outbox).1
ended_stays_example =
    ended_stays broker clock (λ n. pos 1_000_000) config noon outbox sent
      (Memᴰ.tail (Memᴰ.tail (Memᴰ.head refl))) refl refl
