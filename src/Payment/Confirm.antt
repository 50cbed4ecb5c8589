-- ===== src/Payment/Confirm.antt =====
-- How backend/src/services/payment.service.ts confirms a payment that the client reports.
use hop_drop.Outbox.{AppendOutboxEventInput}
use hop_drop.Json.{Json, num, obj, field, end, flag, text, Fields}
use hop_drop.Model.Trip.{Trip, TripStatus, active, full, in_transit, completed, cancelled}
use hop_drop.Model.Transaction.{
  provider_order, mock_order, is_completed, same_type, Transaction, TransactionType, OrderId,
  Signature, safety_deposit, delivery_payment,
}
use hop_drop.Common.Int.{◌+ℤ◌, pos}
use hop_drop.Escrow.{hold_funds, update_wallet, sender_payment}
use hop_drop.MatchService.Confirm.{is_hold_of, is_paid_status, fetch_request, save_request}
use hop_drop.Model.DeliveryRequest.{PaymentStatus, DeliveryRequest}
use hop_drop.Notify.{append_outbox_events, emit_to_user, notify_user}
use hop_drop.Payment.{save_trip, paid_row, has_order, save_transaction, verify_signature, Provider}
use hop_drop.Collection.{exists, find_one, find_by_id}
use hop_drop.Env.{Env}
use hop_drop.Common.{
  String, Bool, true, ◌&&◌, none, some, [], ◌∷◌, ⊤, ◌==◌, if◌then◌else◌, or_num, ok, ℕ,
}
use hop_drop.Store.{Action, pure, require, guard, gets, ◌>>=◌, ◌>>◌}
use hop_drop.Model.OutboxEvent.{Topic}

-- What a confirmation answers: done now, or before.
pub data Confirmation : Type 0 where
  confirmed idempotent : Confirmation

-- The query for the row of a payment.
unfoldable pub is_payment_row : OrderId → ℕ → TransactionType → Transaction → Bool
is_payment_row order user type t = has_order order t && t.user == user && same_type t.type type

-- `User.findByIdAndUpdate` with `$inc` on what is held
abbrev pub inc_escrow_held : ℕ → ℕ → Action ⊤
inc_escrow_held user amount s =
    (ok tt, update_wallet user (λ w. record w { escrow_held = w.escrow_held +ℤ pos amount }) s)

abbrev status_payload : String → String → ℕ → Fields
status_payload type key k =
    field "status" (text "success") (field "type" (text type) (field key (num k) end))

-- The texts of a trip's status and of an order in a message.
abbrev pub trip_status_name : TripStatus → String
trip_status_name active = "active"
trip_status_name full = "full"
trip_status_name in_transit = "in_transit"
trip_status_name completed = "completed"
trip_status_name cancelled = "cancelled"

abbrev pub order_json : OrderId → Json
order_json (provider_order k) = num k
order_json (mock_order k) = obj (field "mock_order" (num k) end)

-- The event of a deposit that is paid.
abbrev pub deposit_event : ℕ → Trip → ℕ → ℕ → AppendOutboxEventInput
deposit_event trip t user payment = record {
  topic = Topic.trip;
  event_type = "TripUpdated";
  aggregate_type = "trip";
  aggregate_id = trip;
  partition_key = some trip;
  payload = field "tripId" (num trip) (
      field "carrierId" (num user) (
        field "status" (text (trip_status_name t.status)) (
          field "safetyDepositPaid" (flag true) (
            field "safetyDepositTransactionId" (num payment)
              (field "updates" (obj (field "safetyDepositPaid" (flag true) end)) end)))));
  headers = none;
  available_at = none;
}

module _ (env : Env) where
  -- The writes of `confirmTripDeposit`
  unfoldable pub lock_deposit : ℕ → Trip → ℕ → ℕ → Signature → ℕ → Transaction → Action Confirmation
  lock_deposit trip t user payment signature k tx = do
    save_transaction k (paid_row payment signature)
    inc_escrow_held user tx.amount
    save_trip trip
        (λ t. record t { safety_deposit_paid = true; safety_deposit_transaction_id = some payment })
    append_outbox_events (deposit_event trip t user payment ∷ [])
    notify_user env user "Safety Deposit Locked"
        "Your safety deposit is held in escrow for this trip." "payment" none
    emit_to_user env user "payment:status" (status_payload "safety_deposit" "tripId" trip)
    pure confirmed

  -- The hold of a payment whose request is matched.
  unfoldable pub hold_matched : DeliveryRequest → Transaction → Action ⊤
  hold_matched r tx = elim r.match [
    | none ↦ pure tt
    | some match ↦ (do
      existing ← gets (λ s. exists (is_hold_of match) s.transactions)
      if existing
          then pure tt
          else hold_funds env match (or_num r.total_charge tx.amount) sender_payment)
  ]

  -- What `confirmDeliveryPayment` sends once the payment is held.
  unfoldable pub announce_payment : ℕ → ℕ → ℕ → OrderId → ℕ → Action Confirmation
  announce_payment request user charge order payment = do
    notify_user env user "Payment Confirmed" "Your delivery payment is now secured in escrow."
        "payment" none
    emit_to_user env user "payment:status" (status_payload "delivery_payment" "requestId" request)
    append_outbox_events (
        record {
          topic = Topic.payment;
          event_type = "DeliveryPaid";
          aggregate_type = "delivery_request";
          aggregate_id = request;
          partition_key = some request;
          payload = field "requestId" (num request) (
              field "userId" (num user) (
                field "paymentStatus" (text "paid") (
                  field "totalCharge" (num charge) (
                    field "razorpayOrderId" (order_json order)
                      (field "razorpayPaymentId" (num payment) end)))));
          headers = none;
          available_at = none;
        }
        ∷ [])
    pure confirmed

module _ (env : Env) (provider : Provider) where
  -- `confirmTripDeposit`
  unfoldable pub confirm_trip_deposit : ℕ → ℕ → OrderId → ℕ → Signature → Action Confirmation
  unfolding is_payment_row
  confirm_trip_deposit trip user order payment signature = do
    found ← gets (λ s. find_by_id trip s.trips)
    t ← require found 404 "Trip not found"
    guard (t.carrier == user) 403 "Forbidden"
    guard (verify_signature env provider order payment signature) 400 "Invalid payment signature"
    row ← gets (λ s. find_one (is_payment_row order user safety_deposit) s.transactions)
    tx ← require row 404 "Deposit transaction not found"
    if is_completed tx.1.status && t.safety_deposit_paid
        then pure idempotent
        else lock_deposit env trip t user payment signature tx.0 tx.1

  -- `confirmDeliveryPayment`
  unfoldable pub confirm_delivery_payment : ℕ → ℕ → OrderId → ℕ → Signature → Action Confirmation
  unfolding is_payment_row
  confirm_delivery_payment request user order payment signature = do
    r ← fetch_request request "Delivery request not found"
    guard (r.sender == user) 403 "Forbidden"
    guard (verify_signature env provider order payment signature) 400 "Invalid payment signature"
    if is_paid_status r.payment_status then pure idempotent else (do
      row ← gets (λ s. find_one (is_payment_row order user delivery_payment) s.transactions)
      tx ← require row 404 "Delivery payment transaction not found"
      save_transaction tx.0 (paid_row payment signature)
      save_request request (λ r. record r { payment_status = PaymentStatus.paid })
      hold_matched env r tx.1
      announce_payment env request user (or_num r.total_charge tx.1.amount) order payment)
