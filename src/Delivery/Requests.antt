-- ===== src/Delivery/Requests.antt =====
-- Requests in backend/src/services/delivery.service.ts: created with a quote, updated, cancelled.
use hop_drop.Messages.{delivery_status_name, package_json, window_json, location_json, opt_num}
use hop_drop.Collection.{insert, Collection, update_many}
use hop_drop.MatchService.Status.{timeline_entry, push_entry}
use hop_drop.Model.DeliveryRequest.{
  Recipient, DeliveryWindow, Package, unpaid, DeliveryRequest, DeliveryStatus, PaymentStatus,
  pending, cancelled,
}
use hop_drop.Model.Trip.{same_category, Location, Trip, TripStatus}
use hop_drop.Pricing.{calculate_quote}
use hop_drop.Transactions.{run_in_transaction}
use hop_drop.Env.{Env}
use hop_drop.Escrow.{update_wallet}
use hop_drop.Model.Match.{Match, MatchStatus, TimelineEvent}
use hop_drop.Model.User.{Wallet}
use hop_drop.Outbox.{AppendOutboxEventInput, or_else}
use hop_drop.Common.{
  suc, ◌+◌, ◌*◌, String, ◌&&◌, ◌||◌, Option, ltb, leb, ◌==◌, if◌then◌else◌, or_num, any, ℕ, Bool,
  true, false, some, none, [], ◌∷◌,
}
use hop_drop.Common.Int.{pos, ◌+ℤ◌, ◌-ℤ◌}
use hop_drop.Json.{Json, Fields, num, text, obj, field, end}
use hop_drop.Store.{Action, pure, guard, gets, modify, when, ◌>>=◌, ◌>>◌}
use hop_drop.MatchService.Confirm.{
  fetch_request, save_request, has_status, payment_name, is_paid_status,
}
use hop_drop.Model.OutboxEvent.{Topic}
use hop_drop.Notify.{append_outbox_events}

-- The payload that the three events share, with `more` after it.
abbrev pub request_payload : ℕ → DeliveryRequest → Fields → Fields
request_payload request r more = field "requestId" (num request) (
    field "senderId" (num r.sender) (
      field "origin" (location_json r.origin) (
        field "destination" (location_json r.destination) (
          field "preferredDeliveryWindow" (window_json r.preferred_delivery_window) (
            field "package" (package_json r.parcel) (
              field "status" (text (delivery_status_name r.status))
                (field "paymentStatus" (text (payment_name r.payment_status)) more)))))))

abbrev pub request_event : String → ℕ → Fields → AppendOutboxEventInput
request_event event request payload = record {
  topic = Topic.delivery;
  event_type = event;
  aggregate_type = "delivery_request";
  aggregate_id = request;
  partition_key = some request;
  payload = payload;
  headers = none;
  available_at = none;
}

-- What a sender sends for a new request.
pub record RequestInput : Type 0 where
  pub origin : Location
  pub destination : Location
  pub parcel : Package
  pub recipient : Recipient
  pub preferred_delivery_window : DeliveryWindow

unfoldable pub draft_request : ℕ → ℕ → RequestInput → DeliveryRequest
draft_request now user i = record {
  sender = user;
  origin = i.origin;
  destination = i.destination;
  parcel = i.parcel;
  recipient = i.recipient;
  preferred_delivery_window = i.preferred_delivery_window;
  status = pending;
  quoted_price = none;
  platform_fee = none;
  total_charge = none;
  match = none;
  payment_order_id = none;
  payment_status = unpaid;
  expires_at = some (now + 24 * 60 * 60 * 1000);
}

abbrev pub is_active_trip : TripStatus → Bool
is_active_trip TripStatus.active = true
is_active_trip _ = false

-- The query for a trip that could take the package; `in_city` is the search by name.
unfoldable pub is_candidate : (String → String → Bool) → RequestInput → Trip → Bool
is_candidate in_city i t =
    in_city i.origin.city t.origin.city
    && in_city i.destination.city t.destination.city
    && is_active_trip t.status
    && t.safety_deposit_paid
    && leb i.parcel.weight_g t.available_capacity.weight_g
    && any (same_category i.parcel.category) t.available_capacity.allowed_categories

-- `findOne` with `sort({ pricePerKg: 1 })`
unfoldable pub find_cheapest : (Trip → Bool) → Collection Trip → Option Trip
find_cheapest p [] = none
find_cheapest p ((k, t) ∷ c) =
    let rest = find_cheapest p c in
    if p t
    then (elim rest [
      | none ↦ some t
      | some u ↦ if leb t.price_per_kg u.price_per_kg then some t else some u
    ])
    else rest

-- The trip's carrier is not populated there, so a quote has no bonus.
unfoldable pub with_quote : Env → Option Trip → DeliveryRequest → DeliveryRequest
with_quote env none r = r
with_quote env (some t) r =
    let q = calculate_quote env t.price_per_kg none r.preferred_delivery_window r.parcel in
    record r {
      quoted_price = some q.carrier_earning;
      platform_fee = some q.platform_fee;
      total_charge = some q.total_charge;
    }

-- `createDeliveryRequest`
unfoldable pub create_delivery_request :
    Env → (String → String → Bool) → ℕ → RequestInput → Action DeliveryRequest
unfolding draft_request is_candidate find_cheapest with_quote
create_delivery_request env in_city user i = run_in_transaction env.topology (do
  now ← gets (λ s. s.now)
  request ← gets (λ s. s.next_id)
  trip ← gets (λ s. find_cheapest (is_candidate in_city i) s.trips)
  let draft = with_quote env trip (draft_request now user i)
  modify (λ s. record s { requests = insert s.next_id draft s.requests; next_id = suc s.next_id })
  append_outbox_events (
      request_event "DeliveryRequested" request
        (request_payload request draft (field "totalCharge" (opt_num draft.total_charge) end))
      ∷ [])
  pure draft)

-- `getRequestById`
unfoldable pub get_request_by_id : ℕ → ℕ → Action DeliveryRequest
get_request_by_id user request = do
  r ← fetch_request request "Delivery request not found"
  guard (r.sender == user) 403 "Forbidden"
  pure r

-- The parts of a request that its sender may update.
pub record RequestUpdate : Type 0 where
  pub origin : Option Location
  pub destination : Option Location
  pub parcel : Option Package
  pub recipient : Option Recipient
  pub preferred_delivery_window : Option DeliveryWindow

unfoldable pub updated_request : RequestUpdate → DeliveryRequest → DeliveryRequest
updated_request u r = record r {
  origin = or_else u.origin r.origin;
  destination = or_else u.destination r.destination;
  parcel = or_else u.parcel r.parcel;
  recipient = or_else u.recipient r.recipient;
  preferred_delivery_window = or_else u.preferred_delivery_window r.preferred_delivery_window;
}

abbrev pub is_pending_request : DeliveryStatus → Bool
is_pending_request pending = true
is_pending_request _ = false

abbrev pub is_cancelled_request : DeliveryStatus → Bool
is_cancelled_request cancelled = true
is_cancelled_request _ = false

-- `updateRequest`; the raw body goes into the event.
unfoldable pub update_request : ℕ → ℕ → RequestUpdate → Json → Action DeliveryRequest
unfolding updated_request
update_request user request u body = do
  r ← fetch_request request "Delivery request not found"
  guard (r.sender == user) 403 "Forbidden"
  guard (is_pending_request r.status) 400 "Only pending delivery requests can be updated"
  save_request request (updated_request u)
  append_outbox_events (
      request_event "DeliveryUpdated" request
        (request_payload request (updated_request u r) (field "updates" body end))
      ∷ [])
  pure (updated_request u r)

-- The matches that a cancellation takes along.
unfoldable pub is_open_match_of : ℕ → Match → Bool
is_open_match_of request m =
    m.delivery_request == request
    && (has_status m.status MatchStatus.proposed
        || has_status m.status MatchStatus.carrier_accepted
        || has_status m.status MatchStatus.sender_confirmed
        || has_status m.status MatchStatus.active
        || has_status m.status MatchStatus.pickup_pending)

unfoldable pub cancelled_match : ℕ → ℕ → Match → Match
cancelled_match now sender m =
    push_entry
      (timeline_entry now TimelineEvent.cancelled sender
        (some (obj (field "reason" (text "delivery_cancelled") end))))
      (record m { status = MatchStatus.cancelled })

-- Whether a cancellation pays back: paid, and a charge that is not 0.
unfoldable pub is_refundable : DeliveryRequest → Bool
is_refundable r = is_paid_status r.payment_status && ltb 0 (or_num r.total_charge 0)

abbrev pub refund_wallet : ℕ → Wallet → Wallet
refund_wallet charge w = record {
  balance = w.balance +ℤ pos charge;
  escrow_held = w.escrow_held -ℤ pos charge;
}

unfoldable pub cancelled_request : Bool → DeliveryRequest → DeliveryRequest
cancelled_request refund r = record r {
  status = cancelled;
  payment_status = if refund then PaymentStatus.refunded else r.payment_status;
}

-- The writes of `cancelRequest`
unfoldable pub cancel_writes : ℕ → ℕ → DeliveryRequest → Action DeliveryRequest
unfolding is_refundable cancelled_request is_open_match_of cancelled_match
cancel_writes user request r = do
  when (is_refundable r) (modify (update_wallet user (refund_wallet (or_num r.total_charge 0))))
  save_request request (cancelled_request (is_refundable r))
  modify (λ s. record s {
    matches = update_many (is_open_match_of request) (cancelled_match s.now r.sender) s.matches;
  })
  append_outbox_events (
      request_event "DeliveryCancelled" request
        (request_payload request (cancelled_request (is_refundable r) r) end)
      ∷ [])
  pure (cancelled_request (is_refundable r) r)

-- `cancelRequest`
unfoldable pub cancel_request : ℕ → ℕ → Action DeliveryRequest
cancel_request user request = do
  r ← fetch_request request "Delivery request not found"
  guard (r.sender == user) 403 "Forbidden"
  if is_cancelled_request r.status then pure r else cancel_writes user request r
