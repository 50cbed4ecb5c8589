-- ===== src/Payment/Webhook.antt =====
-- The provider's webhook in backend/src/services/payment.service.ts. A body is a number with the
-- event that it spells.
use hop_drop.Collection.{find_all, update_by_id, find_one, exists, insert}
use hop_drop.Common.{
  ◌+◌, ◌*◌, ltb, suc, String, Bool, Option, none, some, ◌==◌, if◌then◌else◌, ok, ℕ,
}
use hop_drop.Payment.{has_order, completed, Provider}
use hop_drop.Model.Transaction.{Transaction, failed, OrderId}
use hop_drop.Store.{Store, Action, require, guard, ◌>>=◌, ◌>>◌}

pub data WebhookEvent : Type 0 where
  payment_captured payment_failed : WebhookEvent
  other_event : String → WebhookEvent

-- `payload.payload.payment.entity`, with its `id` and `order_id`
pub record PaymentEntity : Type 0 where
  pub id : ℕ
  pub order_id : Option OrderId

pub record WebhookBody : Type 0 where
  pub raw : ℕ
  pub event : WebhookEvent
  pub payment_entity : Option PaymentEntity

pub data Receipt : Type 0 where
  received received_before : Receipt

abbrev pub event_name : WebhookEvent → String
event_name payment_captured = "payment.captured"
event_name payment_failed = "payment.failed"
event_name (other_event e) = e

-- `Transaction.findOneAndUpdate` on the order
unfoldable pub update_order_row : OrderId → (Transaction → Transaction) → Store → Store
update_order_row order f s = elim (find_one (has_order order) s.transactions) [
  | none ↦ s
  | some (k, t) ↦ record s { transactions = update_by_id k f s.transactions }
]

-- What an event does to the ledger.
unfoldable pub apply_event : WebhookEvent → PaymentEntity → Store → Store
unfolding update_order_row
apply_event payment_captured e s = elim e.order_id [
  | none ↦ s
  | some order ↦
      update_order_row order (λ t. record t { razorpay_payment_id = some e.id; status = completed })
        s
]
apply_event payment_failed e s = elim e.order_id [
  | none ↦ s
  | some order ↦ update_order_row order (λ t. record t { status = failed }) s
]
apply_event (other_event name) e s = s

abbrev pub is_processed : ℕ → Store → Bool
is_processed id s = exists (λ w. w.event_id == id) s.webhooks

-- `ProcessedWebhook.create`, under the unique index on `eventId`
unfoldable pub record_webhook : PaymentEntity → WebhookEvent → Store → Store
record_webhook e event s = record s {
  webhooks =
      insert s.next_id
        (record {
          event_id = e.id;
          event = event_name event;
          order_id = e.order_id;
          processed_at = s.now;
        })
        s.webhooks;
  next_id = suc s.next_id;
}

-- `handleWebhook`
unfoldable pub handle_webhook : Provider → WebhookBody → Option ℕ → Action Receipt
unfolding record_webhook apply_event
handle_webhook provider body signature = do
  sig ← require signature 400 "Missing webhook signature"
  guard (provider.webhook_digest body.raw == sig) 400 "Invalid webhook signature"
  λ s. elim body.payment_entity [
    | none ↦ (ok received, s)
    | some e ↦
        if is_processed e.id s
        then (ok received_before, s)
        else (ok received, apply_event body.event e (record_webhook e body.event s))
  ]

-- The rows of backend/src/models/ProcessedWebhook.ts are kept for 72 hours.
abbrev pub webhook_ttl_ms : ℕ
webhook_ttl_ms = 72 * 60 * 60 * 1000

-- The sweep of the database over the index with `expireAfterSeconds`.
unfoldable pub expire_webhooks : Store → Store
expire_webhooks s = record s {
  webhooks = find_all (λ w. ltb s.now (w.processed_at + webhook_ttl_ms)) s.webhooks;
}
