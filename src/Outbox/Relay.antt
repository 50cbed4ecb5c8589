-- ===== src/Outbox/Relay.antt =====
-- backend/src/services/outboxRelay.service.ts: one pass over a claimed batch, and the start of the
-- relay. Kafka is a parameter: `send` says how the broker answers a message, with `none` for an
-- acknowledgement and the error's text otherwise.
use hop_drop.Common.{
  ℕ, String, Bool, true, false, Option, none, some, List, [], ◌∷◌, ◌++◌, if◌then◌else◌,
}
use hop_drop.Env.{Env, dispatches_async}
use hop_drop.Model.OutboxEvent.{OutboxEvent, Topic}
use hop_drop.Collection.{Collection}
use hop_drop.Json.{Fields}
use hop_drop.Outbox.{
  or_else, claim_outbox_batch, mark_outbox_event_published, release_outbox_event,
  requeue_processing_outbox_events,
}

-- The message that `publishKafkaMessage` is given.
pub record KafkaMessage : Type 0 where
  pub topic : Topic
  pub key : ℕ
  pub headers : Fields
  pub event_id : ℕ
  pub event_type : String
  pub aggregate_type : String
  pub aggregate_id : ℕ
  pub schema_version : ℕ
  pub occurred_at : ℕ
  pub payload : Fields

unfoldable pub kafka_message : ℕ → OutboxEvent → KafkaMessage
kafka_message k e = record {
  topic = e.topic;
  key = or_else e.partition_key e.aggregate_id;
  headers = e.headers;
  event_id = k;
  event_type = e.event_type;
  aggregate_type = e.aggregate_type;
  aggregate_id = e.aggregate_id;
  schema_version = 1;
  occurred_at = e.created_at;
  payload = e.payload;
}

-- The module's `isRunning` and `relayTimer`, the collection, and the events that reached Kafka.
pub record Relay : Type 0 where
  pub is_running : Bool
  pub timer : Bool
  pub outbox : Collection OutboxEvent
  pub sent : List KafkaMessage

module _ (env : Env) (send : KafkaMessage → Option String) where
  -- The body of the loop over the claimed events.
  unfoldable pub relay_event : ℕ → ℕ × OutboxEvent → Relay → Relay
  relay_event now (k, e) r = elim (send (kafka_message k e)) [
    | none ↦ record r {
      outbox = mark_outbox_event_published now k r.outbox;
      sent = r.sent ++ kafka_message k e ∷ [];
    }
    | some message ↦ record r {
      outbox = release_outbox_event now k message env.outbox_max_attempts r.outbox;
    }
  ]

  unfoldable pub relay_events : ℕ → List (ℕ × OutboxEvent) → Relay → Relay
  unfolding relay_event
  relay_events now [] r = r
  relay_events now (e ∷ es) r = relay_events now es (relay_event now e r)

  unfoldable pub flush_outbox_batch : ℕ → Relay → Relay
  unfolding relay_events
  flush_outbox_batch now r =
      if r.is_running
      then r
      else (let (claimed, c) = claim_outbox_batch env.outbox_batch_size now r.outbox in
          record (relay_events now claimed (record r { is_running = true; outbox = c })) {
            is_running = false;
          })

  unfoldable pub start_outbox_relay : ℕ → Relay → Relay
  unfolding flush_outbox_batch
  start_outbox_relay now r =
      if dispatches_async env
      then record (flush_outbox_batch now
          (record r { outbox = requeue_processing_outbox_events now r.outbox })) { timer = true }
      else r

  unfoldable pub stop_outbox_relay : Relay → Relay
  stop_outbox_relay r = record r { timer = false }
