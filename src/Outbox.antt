-- ===== src/Outbox.antt =====
-- backend/src/services/outbox.service.ts and outboxRelay.service.ts: events are written beside the
-- data that they tell of, claimed in batches, and published to Kafka with retries.
pub mod Claim
pub mod Health
pub mod Lifecycle
pub mod Relay
use hop_drop.Common.{
  ℕ, zero, suc, ◌+◌, ◌-◌, ◌*◌, ◌^◌, min, String, Bool, true, false, ◌&&◌, Option, none, some, List,
  [], ◌∷◌, leb, if◌then◌else◌,
}
use hop_drop.Json.{Fields, end}
use hop_drop.Model.OutboxEvent.{
  OutboxEvent, OutboxEventStatus, pending, processing, published, failed, Topic,
  outbox_retention_seconds,
}
use hop_drop.Collection.{Collection, update_by_id, insert, update_many}
use hop_drop.Store.{Bus}

pub record AppendOutboxEventInput : Type 0 where
  pub topic : Topic
  pub event_type : String
  pub aggregate_type : String
  pub aggregate_id : ℕ
  pub partition_key : Option ℕ
  pub payload : Fields
  pub headers : Option Fields
  pub available_at : Option ℕ

abbrev pub or_else {ℓ} : {A : Type ℓ} → Option A → A → A
or_else none b = b
or_else (some a) b = a

unfoldable pub new_event : ℕ → AppendOutboxEventInput → OutboxEvent
new_event now e = record {
  topic = e.topic;
  event_type = e.event_type;
  aggregate_type = e.aggregate_type;
  aggregate_id = e.aggregate_id;
  partition_key = e.partition_key;
  payload = e.payload;
  headers = or_else e.headers end;
  status = pending;
  attempts = 0;
  available_at = or_else e.available_at now;
  published_at = none;
  last_error = none;
  expires_at = none;
  created_at = now;
}

-- `appendOutboxEvents`
unfoldable pub append_events : ℕ → List AppendOutboxEventInput → Bus → Bus
append_events now [] b = b
append_events now (e ∷ es) b = append_events now es (record b {
  outbox = insert b.next_event_id (new_event now e) b.outbox;
  next_event_id = suc b.next_event_id;
})

abbrev pub is_pending : OutboxEventStatus → Bool
is_pending pending = true
is_pending _ = false

abbrev pub is_processing : OutboxEventStatus → Bool
is_processing processing = true
is_processing _ = false

-- The query of `claimOutboxBatch`.
unfoldable pub is_due : ℕ → OutboxEvent → Bool
is_due now e = is_pending e.status && leb e.available_at now

-- `sort: { createdAt: 1 }` on the documents that are due, the first of them.
unfoldable pub oldest_due : ℕ → Collection OutboxEvent → Option (ℕ × OutboxEvent)
unfolding is_due
oldest_due now [] = none
oldest_due now ((j, e) ∷ c) =
    let rest = oldest_due now c in
    if is_due now e
    then (elim rest [
      | none ↦ some (j, e)
      | some (k, f) ↦ if leb e.created_at f.created_at then some (j, e) else some (k, f)
    ])
    else rest

-- Its update: `$set` the status and `$inc` the attempts.
unfoldable pub claim : OutboxEvent → OutboxEvent
claim e = record e { status = processing; attempts = e.attempts + 1 }

-- `claimOutboxBatch`: the claimed events, as updated, and the collection after.
unfoldable pub claim_outbox_batch :
    ℕ → ℕ → Collection OutboxEvent → List (ℕ × OutboxEvent) × Collection OutboxEvent
unfolding claim oldest_due
claim_outbox_batch zero now c = ([], c)
claim_outbox_batch (suc limit) now c = elim (oldest_due now c) [
  | none ↦ ([], c)
  | some (k, e) ↦
      let (claimed, c') = claim_outbox_batch limit now (update_by_id k claim c) in
      ((k, claim e) ∷ claimed, c')
]

unfoldable pub publish : ℕ → OutboxEvent → OutboxEvent
publish now e = record e {
  status = published;
  published_at = some now;
  last_error = none;
  expires_at = some (now + outbox_retention_seconds * 1000);
}

unfoldable pub mark_outbox_event_published : ℕ → ℕ → Collection OutboxEvent → Collection OutboxEvent
mark_outbox_event_published now k c = update_by_id k (publish now) c

-- `Math.min(30000, 1000 * 2 ** Math.max(0, attempts - 1))`; `-` stops at 0.
unfoldable pub retry_delay_ms : ℕ → ℕ
retry_delay_ms attempts = min 30000 (1000 * 2 ^ (attempts - 1))

unfoldable pub retry_or_fail : ℕ → String → ℕ → OutboxEvent → OutboxEvent
unfolding retry_delay_ms
retry_or_fail now message max_attempts e =
    if leb max_attempts e.attempts
    then record e {
      status = failed;
      last_error = some message;
      expires_at = some (now + outbox_retention_seconds * 1000);
    }
    else record e {
      status = pending;
      last_error = some message;
      available_at = now + retry_delay_ms e.attempts;
    }

-- A missing event is left alone: `update_by_id` does nothing then.
unfoldable pub release_outbox_event :
    ℕ → ℕ → String → ℕ → Collection OutboxEvent → Collection OutboxEvent
unfolding retry_or_fail
release_outbox_event now k message max_attempts c =
    update_by_id k (retry_or_fail now message max_attempts) c

unfoldable pub requeue : ℕ → OutboxEvent → OutboxEvent
requeue now e = record e { status = pending; available_at = now }

unfoldable pub requeue_processing_outbox_events :
    ℕ → Collection OutboxEvent → Collection OutboxEvent
requeue_processing_outbox_events now c = update_many (λ e. is_processing e.status) (requeue now) c
