-- ===== src/Payment.antt =====
-- backend/src/services/payment.service.ts: orders at the payment provider, their confirmation by
-- the client, and the provider's webhook. The provider's digests are a parameter, and its answer
-- to an order is an argument. Identifiers of the provider are numbers.
pub mod Orders
pub mod Confirm
pub mod Webhook
pub mod Trust
pub mod Once
use hop_drop.Model.Transaction.{for_trip, for_delivery, draft_trip_deposit}
use hop_drop.Collection.{update_by_id, Collection}
use hop_drop.Model.Transaction.{
  completed, initiated, same_order, Description, Transaction, TransactionType, OrderId, Signature,
  provider_order, mock_order, digest, mock_signature,
}
use hop_drop.Store.{Action}
use hop_drop.Env.{Env}
use hop_drop.Model.Trip.{Trip}
use hop_drop.Common.{
  Option, none, some, [], ◌∷◌, ⊤, ltb, if◌then◌else◌, ok, ℕ, Bool, true, false, ◌==◌,
}

-- The keyed digests of node's `crypto` under the provider's two secrets, as the numbers that they
-- spell.
pub record Provider : Type 0 where
  pub payment_digest : OrderId → ℕ → ℕ
  pub webhook_digest : ℕ → ℕ

-- `verifySignature`
unfoldable pub verify_signature : Env → Provider → OrderId → ℕ → Signature → Bool
verify_signature env provider (mock_order k) payment mock_signature = env.demo_mode
verify_signature env provider (provider_order k) payment mock_signature = false
verify_signature env provider order payment (digest d) = provider.payment_digest order payment == d

-- The newest document that a query finds: `findOne` with `sort({ createdAt: -1 })`.
unfoldable pub find_newest :
    (Transaction → Bool) → Collection Transaction → Option (ℕ × Transaction)
find_newest p [] = none
find_newest p ((k, t) ∷ c) =
    let rest = find_newest p c in
    if p t
    then (elim rest [
      | none ↦ some (k, t)
      | some (j, u) ↦ if ltb t.created_at u.created_at then some (j, u) else some (k, t)
    ])
    else rest

abbrev pub has_order : OrderId → Transaction → Bool
has_order order t = elim t.razorpay_order_id [ none ↦ false | some o ↦ same_order o order ]

abbrev pub same_description : Description → Description → Bool
same_description (for_trip a) (for_trip b) = a == b
same_description (for_delivery a) (for_delivery b) = a == b
same_description draft_trip_deposit draft_trip_deposit = true
same_description _ _ = false

abbrev pub save_transaction : ℕ → (Transaction → Transaction) → Action ⊤
save_transaction k f s = (ok tt, record s { transactions = update_by_id k f s.transactions })

abbrev pub save_trip : ℕ → (Trip → Trip) → Action ⊤
save_trip k f s = (ok tt, record s { trips = update_by_id k f s.trips })

-- A payment that is not made yet.
unfoldable pub initiated_row : ℕ → ℕ → TransactionType → ℕ → OrderId → Description → Transaction
initiated_row now user type amount order description = record {
  user = user;
  match = none;
  type = type;
  amount = amount;
  razorpay_order_id = some order;
  razorpay_payment_id = none;
  razorpay_signature = none;
  status = initiated;
  description = description;
  created_at = now;
}

-- What a confirmation sets on its row.
unfoldable pub paid_row : ℕ → Signature → Transaction → Transaction
paid_row payment signature t = record t {
  razorpay_payment_id = some payment;
  razorpay_signature = some signature;
  status = completed;
}
