-- ===== src/Consumers/Triggers.antt =====
-- Whether the events of the services of backend/src make services/matching-orchestrator ask for a
-- search.
use hop_drop.Payment.Confirm.{deposit_event}
use hop_drop.Matching.Search.{for_trip, for_request, Search}
use hop_drop.Delivery.Requests.{
  is_active_trip, request_payload, request_event, is_cancelled_request,
}
use hop_drop.Json.{end, Fields}
use hop_drop.TripService.Trips.{trip_payload, trip_event}
use hop_drop.Model.Trip.{TripStatus, Trip}
use hop_drop.Consumers.Orchestrator.{deposit_is_paid, search_for}
use hop_drop.Common.{Bool, true, false, ◌&&◌, ℕ, ◌≡◌, refl, Option, none, some, if◌then◌else◌}
use hop_drop.Model.DeliveryRequest.{DeliveryRequest, DeliveryStatus}
use hop_drop.Consumers.{get_field}
use hop_drop.Outbox.{new_event, AppendOutboxEventInput}
use hop_drop.Outbox.Relay.{kafka_message}

-- The search that is asked for after an event, under any identifier and at any time.
abbrev pub Asks : AppendOutboxEventInput → Option Search → Type 0
Asks input search = (k now : ℕ) → search_for (kafka_message k (new_event now input)) ≡ search

requested_search :
    (request : ℕ) (r : DeliveryRequest) (more : Fields) (status : DeliveryStatus)
    → r.status ≡ status
    → Asks
        (request_event "DeliveryRequested" request (request_payload request r more))
        (if is_cancelled_request status then none else some (for_request request))
unfolding search_for kafka_message new_event get_field
requested_search request r more DeliveryStatus.pending h k now = rw h refl
requested_search request r more DeliveryStatus.matched h k now = rw h refl
requested_search request r more DeliveryStatus.pickup_otp_sent h k now = rw h refl
requested_search request r more DeliveryStatus.picked_up h k now = rw h refl
requested_search request r more DeliveryStatus.in_transit h k now = rw h refl
requested_search request r more DeliveryStatus.delivery_otp_sent h k now = rw h refl
requested_search request r more DeliveryStatus.delivered h k now = rw h refl
requested_search request r more DeliveryStatus.cancelled h k now = rw h refl
requested_search request r more DeliveryStatus.expired h k now = rw h refl
requested_search request r more DeliveryStatus.created h k now = rw h refl

updated_search :
    (request : ℕ) (r : DeliveryRequest) (more : Fields) (status : DeliveryStatus)
    → r.status ≡ status
    → Asks
        (request_event "DeliveryUpdated" request (request_payload request r more))
        (if is_cancelled_request status then none else some (for_request request))
unfolding search_for kafka_message new_event get_field
updated_search request r more DeliveryStatus.pending h k now = rw h refl
updated_search request r more DeliveryStatus.matched h k now = rw h refl
updated_search request r more DeliveryStatus.pickup_otp_sent h k now = rw h refl
updated_search request r more DeliveryStatus.picked_up h k now = rw h refl
updated_search request r more DeliveryStatus.in_transit h k now = rw h refl
updated_search request r more DeliveryStatus.delivery_otp_sent h k now = rw h refl
updated_search request r more DeliveryStatus.delivered h k now = rw h refl
updated_search request r more DeliveryStatus.cancelled h k now = rw h refl
updated_search request r more DeliveryStatus.expired h k now = rw h refl
updated_search request r more DeliveryStatus.created h k now = rw h refl

posted_search :
    (trip : ℕ) (t : Trip) (status : TripStatus) (paid : Bool)
    → t.status ≡ status
    → t.safety_deposit_paid ≡ paid
    → Asks
        (trip_event "TripPosted" trip (trip_payload trip t end))
        (if is_active_trip status && paid then some (for_trip trip) else none)
unfolding search_for kafka_message new_event get_field deposit_is_paid
posted_search trip t TripStatus.active true h g k now = rw (h, g) refl
posted_search trip t TripStatus.active false h g k now = rw (h, g) refl
posted_search trip t TripStatus.full paid h g k now = rw h refl
posted_search trip t TripStatus.in_transit paid h g k now = rw h refl
posted_search trip t TripStatus.completed paid h g k now = rw h refl
posted_search trip t TripStatus.cancelled paid h g k now = rw h refl

deposit_search :
    (trip user payment : ℕ) (t : Trip) (status : TripStatus)
    → t.status ≡ status
    → Asks
        (deposit_event trip t user payment)
        (if is_active_trip status then some (for_trip trip) else none)
unfolding search_for kafka_message new_event get_field deposit_is_paid
deposit_search trip user payment t TripStatus.active h k now = rw h refl
deposit_search trip user payment t TripStatus.full h k now = rw h refl
deposit_search trip user payment t TripStatus.in_transit h k now = rw h refl
deposit_search trip user payment t TripStatus.completed h k now = rw h refl
deposit_search trip user payment t TripStatus.cancelled h k now = rw h refl

-- The events of a request make the orchestrator ask for a search for that request, unless it is
-- cancelled. The event of a posted trip makes it ask for a search for that trip exactly where the
-- trip is active and its deposit is paid, and the event of a deposit that is paid later where the
-- trip is active.
pub events_searched :
    (request trip user payment : ℕ) (r : DeliveryRequest) (t : Trip) (more : Fields)
    → Asks
        (request_event "DeliveryRequested" request (request_payload request r more))
        (if is_cancelled_request r.status then none else some (for_request request))
      × Asks
          (request_event "DeliveryUpdated" request (request_payload request r more))
          (if is_cancelled_request r.status then none else some (for_request request))
      × Asks
          (trip_event "TripPosted" trip (trip_payload trip t end))
          (if is_active_trip t.status && t.safety_deposit_paid then some (for_trip trip) else none)
      × Asks
          (deposit_event trip t user payment)
          (if is_active_trip t.status then some (for_trip trip) else none)
events_searched request trip user payment r t more = (
  requested_search request r more r.status refl,
  updated_search request r more r.status refl,
  posted_search trip t t.status t.safety_deposit_paid refl refl,
  deposit_search trip user payment t t.status refl,
)
