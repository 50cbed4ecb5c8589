-- ===== src/Consumers/Indexer.antt =====
-- services/search-indexer/src/server.ts: what is sent to the routing search for an event.
use hop_drop.Consumers.{fields_of, id_or, get_field}
use hop_drop.Common.{
  str_eq, ℕ, String, false, Option, none, some, List, [], ◌∷◌, ◌++◌, if◌then◌else◌,
}
use hop_drop.Model.OutboxEvent.{Topic}
use hop_drop.Accounts.Text.{is_empty}
use hop_drop.Outbox.Relay.{KafkaMessage}
use hop_drop.Json.{Json, Fields, null, flag, num, text, end, field}

-- A field that is undefined is left out of the JSON.
abbrev pub opt_field : String → Option Json → Fields → Fields
opt_field name none more = more
opt_field name (some j) more = field name j more

-- `a || b`, where a number is an identifier
abbrev first_of : Option Json → Option Json → Option Json
first_of none b = b
first_of (some null) b = b
first_of (some (flag false)) b = b
first_of (some (text t)) b = if is_empty t then b else some (text t)
first_of (some j) b = some j

-- `a || null`
abbrev or_null : Option Json → Json
or_null a = elim (first_of a none) [ none ↦ null | some j ↦ j ]

-- The path and the body of a request to the routing search.
pub data IndexWrite : Type 0 where
  trip_upsert delivery_request_upsert location_upsert : Fields → IndexWrite

abbrev event_fields : KafkaMessage → Fields
event_fields m =
    field "event_type" (text m.event_type) (field "occurred_at" (num m.occurred_at) end)

-- `handleTripLifecycle`
unfoldable pub trip_writes : KafkaMessage → List IndexWrite
unfolding get_field
trip_writes m =
    let p = m.payload in
    trip_upsert (
      field "trip_id" (num (id_or (get_field "tripId" p) m.aggregate_id)) (
        opt_field "carrier_id" (get_field "carrierId" p) (
          opt_field "origin" (get_field "origin" p) (
            opt_field "destination" (get_field "destination" p) (
              opt_field "departure_time" (get_field "departureTime" p) (
                opt_field "price_per_kg" (get_field "pricePerKg" p) (
                  opt_field "available_capacity" (get_field "availableCapacity" p) (
                    opt_field "status" (get_field "status" p) (
                      opt_field "safety_deposit_paid" (get_field "safetyDepositPaid" p)
                        (event_fields m))))))))))
    ∷ []

-- The write for the place of a role, if it has a city; its identifier is that of the request with
-- the role.
unfoldable pub location_writes : KafkaMessage → ℕ → String → Fields → List IndexWrite
unfolding get_field
location_writes m request role place = writes_for (first_of (get_field "city" place) none)
  where
    writes_for : Option Json → List IndexWrite
    writes_for none = []
    writes_for (some city) =
        location_upsert (
          field "entity_id" (num request) (
            field "entity_kind" (text "delivery_request") (
              field "role" (text role) (
                field "city" city (
                  field "place_id"
                    (or_null (first_of (get_field "placeId" place) (get_field "place_id" place)))
                    (field "latitude" (or_null (get_field "latitude" place)) (
                      field "longitude" (or_null (get_field "longitude" place))
                        (event_fields m))))))))
        ∷ []

-- `handleDeliveryLifecycle`; the requests are sent side by side.
unfoldable pub delivery_writes : KafkaMessage → List IndexWrite
unfolding location_writes get_field
delivery_writes m =
    let p = m.payload in
    let request = id_or (get_field "requestId" p) m.aggregate_id in
    delivery_request_upsert (
        field "delivery_request_id" (num request) (
          opt_field "sender_id" (first_of (get_field "senderId" p) (get_field "userId" p)) (
            opt_field "origin" (get_field "origin" p) (
              opt_field "destination" (get_field "destination" p) (
                opt_field "pickup_window"
                  (first_of (get_field "pickupWindow" p) (get_field "preferredDeliveryWindow" p))
                  (opt_field "package" (get_field "package" p) (
                    opt_field "status" (get_field "status" p) (
                      opt_field "payment_status" (get_field "paymentStatus" p) (
                        opt_field "total_charge" (get_field "totalCharge" p)
                          (event_fields m))))))))))
      ∷ location_writes m request "origin" (fields_of (get_field "origin" p))
    ++ location_writes m request "destination" (fields_of (get_field "destination" p))

-- `handlePaymentLifecycle`
unfoldable pub payment_writes : KafkaMessage → List IndexWrite
unfolding get_field
payment_writes m =
    let p = m.payload in
    if str_eq m.event_type "DeliveryPaid"
    then delivery_request_upsert (
        field "delivery_request_id" (num (id_or (get_field "requestId" p) m.aggregate_id)) (
          opt_field "sender_id" (get_field "userId" p) (
            opt_field "payment_status" (get_field "paymentStatus" p)
              (opt_field "total_charge" (get_field "totalCharge" p) (event_fields m)))))
      ∷ []
    else []

-- `handleMessage`
unfoldable pub index_writes : KafkaMessage → List IndexWrite
unfolding trip_writes delivery_writes payment_writes
index_writes m = writes_on m.topic
  where
    writes_on : Topic → List IndexWrite
    writes_on Topic.trip = trip_writes m
    writes_on Topic.delivery = delivery_writes m
    writes_on Topic.payment = payment_writes m
    writes_on _ = []
