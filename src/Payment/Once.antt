-- ===== src/Payment/Once.antt =====
-- How often the webhook of backend/src/services/payment.service.ts applies a message, while the rows
-- of backend/src/models/ProcessedWebhook.ts last.
use mathlib.Core.Path.{subst}
use hop_drop.Payment.Webhook.{
  received_before, event_name, received, payment_captured, payment_failed, other_event,
  WebhookEvent, update_order_row, apply_event, is_processed, record_webhook, PaymentEntity,
  WebhookBody, handle_webhook, expire_webhooks, webhook_ttl_ms,
}
use hop_drop.Collection.Laws.{exists-insert}
use hop_drop.Common.{
  ok, ℕ, ◌+◌, ◌<◌, refl, ap, ◌∙◌, inl, inr, Bool, true, ◌&&◌, Option, none, some, List, [], ◌∷◌,
  arith, ltb, leb, ◌==◌, Bool-cases, Option-cases, ◌≡◌,
}
use hop_drop.Payment.{has_order, Provider}
use hop_drop.Collection.{find_one, Collection, find_all, exists}
use hop_drop.Model.Transaction.{OrderId, Transaction}
use hop_drop.Store.{ProcessedWebhook, Store}

-- What goes on after a message: time, the sweep of the database, messages with or without a
-- signature, and whatever other handlers make of the rest of the store.
pub data WebhookStep : Type 0 where
  wait : ℕ → WebhookStep
  sweep : WebhookStep
  message : WebhookBody → Option ℕ → WebhookStep
  elsewhere : Store → WebhookStep

unfoldable pub on_webhook_step : Provider → WebhookStep → Store → Store
unfolding handle_webhook expire_webhooks
on_webhook_step provider (wait n) s = record s { now = s.now + n }
on_webhook_step provider sweep s = expire_webhooks s
on_webhook_step provider (message body signature) s = (handle_webhook provider body signature s).1
on_webhook_step provider (elsewhere x) s = record x { webhooks = s.webhooks; now = s.now }

unfoldable pub on_webhook_steps : Provider → List WebhookStep → Store → Store
unfolding on_webhook_step
on_webhook_steps provider [] s = s
on_webhook_steps provider (x ∷ xs) s = on_webhook_steps provider xs (on_webhook_step provider x s)

abbrev pub waited : List WebhookStep → ℕ
waited [] = 0
waited (wait n ∷ xs) = n + waited xs
waited (_ ∷ xs) = waited xs

module _ {A : Type 0} (p q : A → Bool) (imply : (a : A) → p a ≡ true → q a ≡ true) where
  exists-imply : (c : Collection A) → exists p c ≡ true → exists q c ≡ true
  unfolding exists
  exists-imply [] h = cc
  exists-imply ((k, a) ∷ c) h = ground (arith, imply a, exists-imply c)

  exists-find_all : (c : Collection A) → exists p c ≡ true → exists p (find_all q c) ≡ true
  unfolding exists find_all
  exists-find_all [] h = cc
  exists-find_all ((k, a) ∷ c) h = ground (arith, imply a, exists-find_all c)

-- What an event leaves as it is: all but the ledger.
module _ {B : Type 0} (view : Store → B)
    (kept : (s : Store) (ts : Collection Transaction)
      → view (record s { transactions = ts }) ≡ view s) where
  update_order_row-view :
      (order : OrderId) (f : Transaction → Transaction) (s : Store)
      → view (update_order_row order f s) ≡ view s
  unfolding update_order_row
  update_order_row-view order f s =
      elim (Option-cases (find_one (has_order order) s.transactions)) [
        | inl e ↦ rw (e, update_order_row) refl
        | inr (found, e) ↦ rw (e, update_order_row) (kept s _)
      ]

  apply_event-view :
      (event : WebhookEvent) (e : PaymentEntity) (s : Store) → view (apply_event event e s) ≡ view s
  unfolding apply_event
  apply_event-view payment_captured e s = elim (Option-cases e.order_id) [
    | inl q ↦ rw q refl
    | inr (order, q) ↦ rw q (update_order_row-view order _ s)
  ]
  apply_event-view payment_failed e s = elim (Option-cases e.order_id) [
    | inl q ↦ rw q refl
    | inr (order, q) ↦ rw q (update_order_row-view order _ s)
  ]
  apply_event-view (other_event name) e s = refl

abbrev new_row : PaymentEntity → WebhookEvent → Store → ProcessedWebhook
new_row e event s = record {
  event_id = e.id;
  event = event_name event;
  order_id = e.order_id;
  processed_at = s.now;
}

-- The row of a payment that is at least as young as a time.
abbrev is_row_since : ℕ → ℕ → ProcessedWebhook → Bool
is_row_since id since w = w.event_id == id && leb since w.processed_at

module _ (provider : Provider) (id since : ℕ) where
  -- The row of the payment is there, and will be for a while.
  abbrev RecordedFor : ℕ → Store → Type 0
  RecordedFor n s =
      (exists (is_row_since id since) s.webhooks ≡ true) × (s.now + n < since + webhook_ttl_ms)

  Recorded-view :
      (n : ℕ) (s s' : Store)
      → s'.webhooks ≡ s.webhooks
      → s'.now ≡ s.now
      → RecordedFor n s
      → RecordedFor n s'
  Recorded-view n s s' w t h = (ap (exists (is_row_since id since)) w ∙ h.0, omega (arith, h.1))

  applied-RecordedFor :
      (n : ℕ) (event : WebhookEvent) (e : PaymentEntity) (s : Store)
      → RecordedFor n (record_webhook e event s)
      → RecordedFor n (apply_event event e (record_webhook e event s))
  applied-RecordedFor n event e s h =
      Recorded-view n (record_webhook e event s) (apply_event event e (record_webhook e event s))
        (apply_event-view (λ s. s.webhooks) (λ s ts. refl) event e (record_webhook e event s))
        (apply_event-view (λ s. s.now) (λ s ts. refl) event e (record_webhook e event s)) h

  handle_webhook-RecordedFor :
      (n : ℕ) (body : WebhookBody) (signature : Option ℕ) (s : Store)
      → RecordedFor n s
      → RecordedFor n (handle_webhook provider body signature s).1
  unfolding handle_webhook record_webhook
  handle_webhook-RecordedFor n body none s h = h
  handle_webhook-RecordedFor n body (some sig) s h =
      elim (Bool-cases (provider.webhook_digest body.raw == sig)) [
        | inr forged ↦ rw forged h
        | inl signed ↦ elim (Option-cases body.payment_entity) [
          | inl q ↦ rw signed (rw q h)
          | inr (e, q) ↦ elim (Bool-cases (is_processed e.id s)) [
            | inl before ↦ rw signed (rw q (rw before h))
            | inr fresh ↦ rw signed (
                rw q (
                  rw fresh (
                    applied-RecordedFor n body.event e s (
                      (ground (
                        arith,
                        exists-insert (is_row_since id since) s.next_id (new_row e body.event s)
                            s.webhooks,
                        h.0,
                      )),
                      h.1,
                    ))))
          ]
        ]
      ]

  on_webhook_steps-RecordedFor :
      (xs : List WebhookStep) (s : Store)
      → RecordedFor (waited xs) s
      → RecordedFor 0 (on_webhook_steps provider xs s)
  unfolding on_webhook_steps on_webhook_step expire_webhooks
  on_webhook_steps-RecordedFor [] s h = h
  on_webhook_steps-RecordedFor (wait n ∷ xs) s h =
      on_webhook_steps-RecordedFor xs _ (h.0, omega (arith, h.1))
  on_webhook_steps-RecordedFor (sweep ∷ xs) s h = on_webhook_steps-RecordedFor xs _ (
    exists-find_all (is_row_since id since) (λ w. ltb s.now (w.processed_at + webhook_ttl_ms))
        (λ w row. ground (arith, h.1)) s.webhooks h.0,
    h.1,
  )
  on_webhook_steps-RecordedFor (message body signature ∷ xs) s h =
      on_webhook_steps-RecordedFor xs _ (handle_webhook-RecordedFor (waited xs) body signature s h)
  on_webhook_steps-RecordedFor (elsewhere x ∷ xs) s h = on_webhook_steps-RecordedFor xs _ h

  first_row :
      (body : WebhookBody) (e : PaymentEntity) (sig n : ℕ) (s s' : Store)
      → body.payment_entity ≡ some e
      → e.id ≡ id
      → s.now ≡ since
      → handle_webhook provider body (some sig) s ≡ (ok received, s')
      → n < webhook_ttl_ms
      → RecordedFor n s'
  unfolding handle_webhook record_webhook
  first_row body e sig n s s' q same start h short =
      elim (Bool-cases (provider.webhook_digest body.raw == sig)) [
        | inr forged ↦ cc (rw forged at h)
        | inl signed ↦ elim (Bool-cases (is_processed e.id s)) [
          | inl before ↦ cc (rw (signed, q, before) at h)
          | inr fresh ↦ subst (RecordedFor n) (ap (λ x. x.1) (rw (signed, q, fresh) at h)) (
              applied-RecordedFor n body.event e s (
                ground (
                  arith,
                  exists-insert (is_row_since id since) s.next_id (new_row e body.event s)
                      s.webhooks,
                ),
                omega arith,
              ))
        ]
      ]

-- Only the first message about a payment has an effect, for 72 hours: once one is answered as
-- received for the first time, a signed message about the same payment is answered as received
-- before and changes nothing, whatever its event, and whatever messages, sweeps of the database
-- and changes of other collections come in between.
pub webhook_once :
    (provider : Provider) (b1 b2 : WebhookBody) (e1 e2 : PaymentEntity) (sig1 sig2 : ℕ)
    (steps : List WebhookStep) (s s' : Store)
    → b1.payment_entity ≡ some e1
    → b2.payment_entity ≡ some e2
    → e1.id ≡ e2.id
    → handle_webhook provider b1 (some sig1) s ≡ (ok received, s')
    → waited steps < webhook_ttl_ms
    → provider.webhook_digest b2.raw ≡ sig2
    → let s2 = on_webhook_steps provider steps s' in
      handle_webhook provider b2 (some sig2) s2 ≡ (ok received_before, s2)
unfolding handle_webhook
webhook_once provider b1 b2 e1 e2 sig1 sig2 steps s s' q1 q2 same h short valid =
    let s2 = on_webhook_steps provider steps s' in
    let row =
      on_webhook_steps-RecordedFor provider e2.id s.now steps s'
        (first_row provider e2.id s.now b1 e1 sig1 (waited steps) s s' q1 same refl h short) in
    let known : is_processed e2.id s2 ≡ true =
      exists-imply (is_row_since e2.id s.now) (λ w. w.event_id == e2.id) (λ w p. ground (arith, p))
        s2.webhooks row.0 in
    let signed : (provider.webhook_digest b2.raw == sig2) ≡ true = ground arith in
    rw signed (rw q2 (rw known refl))
