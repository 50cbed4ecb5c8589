-- ===== src/Payment/Orders.antt =====
-- The orders of backend/src/services/payment.service.ts.
use hop_drop.Payment.{
  initiated_row, same_description, save_trip, verify_signature, Provider, find_newest,
}
use hop_drop.Escrow.{create_transactions}
use hop_drop.Collection.{find_by_id, update_by_id}
use hop_drop.Model.DeliveryRequest.{DeliveryRequest, PaymentStatus, paid, unpaid}
use hop_drop.Model.Transaction.{
  same_type, Transaction, TransactionStatus, OrderId, provider_order, mock_order, Signature,
  initiated, pending, safety_deposit, delivery_payment, for_trip, for_delivery,
}
use hop_drop.Store.{modify, Store, Action, pure, throw, require, guard, gets, ◌>>=◌, ◌>>◌}
use hop_drop.Env.{Env}
use hop_drop.Common.{
  ◌*◌, String, Bool, true, false, ◌&&◌, Option, none, some, [], ◌∷◌, leb, ◌==◌, if◌then◌else◌,
  or_num, round_div, ℕ, api,
}
use hop_drop.MatchService.Confirm.{fetch_request, save_request}

-- How the provider answers to an order, behind the circuit breaker; an error has the whole text
-- of the message that the code makes of it.
pub data OrderAnswer : Type 0 where
  order_created : ℕ → OrderAnswer
  breaker_open : OrderAnswer
  provider_error : String → OrderAnswer

-- `createOrder`
unfoldable pub create_order : Env → OrderAnswer → Action OrderId
create_order env (order_created k) s = pure (provider_order k) s
create_order env breaker_open s =
    if env.demo_mode
    then pure (mock_order s.now) s
    else throw (api 503 "Payment provider is temporarily unavailable. Please try again shortly.") s
create_order env (provider_error message) s =
    if env.demo_mode then pure (mock_order s.now) s else throw (api 502 message) s

-- `createStandaloneOrder`, for a whole amount
unfoldable pub create_standalone_order : Env → ℕ → OrderAnswer → Action (OrderId × ℕ)
unfolding create_order
create_standalone_order env amount answer = do
  guard (leb 100 amount) 400 "Invalid amount: minimum amount is 100 paise (₹1)"
  order ← create_order env answer
  pure (order, amount)

-- `verifyStandalonePayment`, with all three fields given
unfoldable pub verify_standalone_payment : Env → Provider → OrderId → ℕ → Signature → Action Bool
verify_standalone_payment env provider order payment signature = do
  guard (verify_signature env provider order payment signature) 400
      "Invalid payment signature. Verification failed."
  pure true

-- What an order request answers with: the payment is made, or there is an order for an amount.
pub data OrderResult : Type 0 where
  already_paid : OrderResult
  to_pay : OrderId → Option ℕ → OrderResult

abbrev pub is_open : TransactionStatus → Bool
is_open initiated = true
is_open pending = true
is_open _ = false

-- The query for a deposit of a trip that is not made yet.
unfoldable pub is_open_deposit_of : ℕ → ℕ → Transaction → Bool
is_open_deposit_of user trip t =
    t.user == user
    && same_type t.type safety_deposit
    && is_open t.status
    && same_description t.description (for_trip trip)

-- The row for a trip's order: a new one, or the one without an order.
unfoldable pub record_deposit_order : ℕ → ℕ → ℕ → OrderId → Option (ℕ × Transaction) → Store → Store
record_deposit_order user trip amount order existing s = elim existing [
  | some (k, t) ↦ record s {
    transactions =
        update_by_id k (λ t. record t { razorpay_order_id = some order; amount = amount })
          s.transactions;
  }
  | none ↦
      create_transactions
        (initiated_row s.now user safety_deposit amount order (for_trip trip) ∷ []) s
]

-- The order of a row, if it has one.
unfoldable pub order_of : Option (ℕ × Transaction) → Option (OrderId × ℕ)
order_of none = none
order_of (some (k, t)) = elim t.razorpay_order_id [ none ↦ none | some o ↦ some (o, t.amount) ]

-- `createTripDepositOrder` once there is no order to give back.
unfoldable pub new_deposit_order :
    Env → OrderAnswer → ℕ → ℕ → ℕ → Option (ℕ × Transaction) → Action OrderResult
unfolding create_order record_deposit_order
new_deposit_order env answer trip user amount existing = do
  order ← create_order env answer
  modify (record_deposit_order user trip amount order existing)
  save_trip trip (λ t. record t { safety_deposit_amount = some amount })
  pure (to_pay order (some amount))

unfoldable deposit_order :
    Env
    → OrderAnswer
    → ℕ
    → ℕ
    → ℕ
    → Option (ℕ × Transaction)
    → Option (OrderId × ℕ)
    → Action OrderResult
unfolding new_deposit_order
deposit_order env answer trip user amount existing (some (order, a)) = pure (to_pay order (some a))
deposit_order env answer trip user amount existing none =
    new_deposit_order env answer trip user amount existing

-- `createTripDepositOrder`
unfoldable pub create_trip_deposit_order : Env → OrderAnswer → ℕ → ℕ → Action OrderResult
unfolding is_open_deposit_of deposit_order order_of
create_trip_deposit_order env answer trip user = do
  found ← gets (λ s. find_by_id trip s.trips)
  t ← require found 404 "Trip not found"
  guard (t.carrier == user) 403 "Forbidden"
  existing ← gets (λ s. find_newest (is_open_deposit_of user trip) s.transactions)
  if t.safety_deposit_paid
      then pure already_paid
      else deposit_order env answer trip user
          (or_num t.safety_deposit_amount env.default_safety_deposit_paise) existing
          (order_of existing)

-- `createDeliveryOrder` once there is no order to give back.
unfoldable pub new_delivery_order : Env → OrderAnswer → ℕ → ℕ → ℕ → Action OrderResult
unfolding create_order
new_delivery_order env answer request user amount = do
  order ← create_order env answer
  save_request request (λ r. record r { payment_order_id = some order; total_charge = some amount })
  modify (λ s.
      create_transactions
        (initiated_row s.now user delivery_payment amount order (for_delivery request) ∷ []) s)
  pure (to_pay order (some amount))

unfoldable delivery_order :
    Env
    → OrderAnswer
    → ℕ
    → ℕ
    → DeliveryRequest
    → Option OrderId
    → PaymentStatus
    → Action OrderResult
unfolding new_delivery_order
delivery_order env answer request user r (some order) paid = pure already_paid
delivery_order env answer request user r (some order) unpaid = pure (to_pay order r.total_charge)
delivery_order env answer request user r _ _ =
    new_delivery_order env answer request user
      (or_num r.total_charge (round_div (r.parcel.weight_g * 100 * 100) 1000))

-- `createDeliveryOrder`
unfoldable pub create_delivery_order : Env → OrderAnswer → ℕ → ℕ → Action OrderResult
unfolding delivery_order
create_delivery_order env answer request user = do
  r ← fetch_request request "Delivery request not found"
  guard (r.sender == user) 403 "Forbidden"
  delivery_order env answer request user r r.payment_order_id r.payment_status
