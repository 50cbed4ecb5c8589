-- ===== src/Consumers/Dispatch.antt =====
-- The two ways of a message: at once, or over the outbox, Kafka and
-- services/notification-consumer.
use hop_drop.Consumers.Notifier.{handle_message}
use hop_drop.Common.{[], ◌∷◌, ◌++◌, suc, ◌≡◌, ℕ}
use hop_drop.Store.{Bus}
use hop_drop.Outbox.Relay.{kafka_message}
use hop_drop.Model.OutboxEvent.{OutboxEvent}
use hop_drop.Env.{Env}

-- The event that the outbox holds for the consumer, under the next identifier.
abbrev pub Queues : ℕ → Bus → Bus → OutboxEvent → Type 0
Queues now b queued e = queued ≡ record b {
  next_event_id = suc b.next_event_id;
  outbox = b.outbox ++ (b.next_event_id, e) ∷ [];
}

module _ (on off : Env) (now : ℕ) (b c : Bus) where
  -- `queued` holds an event, and the consumer does with it, at whatever time it comes to it, what is
  -- done at once then.
  abbrev pub IsDispatched : (Env → ℕ → Bus → Bus) → Type 0
  IsDispatched act =
      (e : OutboxEvent) × Queues now b (act on now b) e
      × ((k later : ℕ) → handle_message later (kafka_message k e) c ≡ act off later c)
