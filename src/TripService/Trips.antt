-- ===== src/TripService/Trips.antt =====
-- Trips in backend/src/services/trip.service.ts: posted, shown, updated, cancelled.
use hop_drop.Collection.{update_by_id, exists, insert, find_by_id}
use hop_drop.Delivery.Requests.{refund_wallet}
use hop_drop.Escrow.{same_id, update_wallet, create_transactions}
use hop_drop.Model.Trip.{
  TransportDetails, TransportMode, Capacity, Location, Trip, TripStatus, active, cancelled,
}
use hop_drop.MatchService.Confirm.{has_status}
use hop_drop.Messages.{location_json}
use hop_drop.Outbox.{or_else, AppendOutboxEventInput}
use hop_drop.Payment.{save_trip}
use hop_drop.Transactions.{run_in_transaction}
use hop_drop.Env.{Env}
use hop_drop.Model.Match.{Match, MatchStatus}
use hop_drop.Model.Transaction.{Transaction, TransactionType, TransactionStatus, plain}
use hop_drop.Model.User.{User, Role, carrier}
use hop_drop.Common.{
  suc, ◌+◌, ◌-◌, ◌*◌, String, not, ◌&&◌, ◌||◌, Option, ◌++◌, ⊤, ltb, ◌==◌, if◌then◌else◌, or_num,
  any, ℕ, Bool, true, false, some, none, [], ◌∷◌,
}
use hop_drop.Json.{Json, Fields, num, text, flag, obj, field, end}
use hop_drop.Store.{
  Store, Action, pure, require, guard, gets, modify, when, ◌>>=◌, ◌>>◌, Job, trip_two_hour_reminder,
  trip_thirty_min_reminder,
}
use hop_drop.Model.OutboxEvent.{Topic}
use hop_drop.Notify.{append_outbox_events, on_bus}
use hop_drop.Payment.Confirm.{trip_status_name}

-- `BLOCKING_MATCH_STATUSES`
unfoldable pub is_blocking : ℕ → Match → Bool
is_blocking trip m =
    m.trip == trip
    && (has_status m.status MatchStatus.carrier_accepted
        || has_status m.status MatchStatus.sender_confirmed
        || has_status m.status MatchStatus.active
        || has_status m.status MatchStatus.pickup_pending
        || has_status m.status MatchStatus.picked_up
        || has_status m.status MatchStatus.in_transit
        || has_status m.status MatchStatus.delivery_pending
        || has_status m.status MatchStatus.delivered)

-- The matches in whose custody a package may be, or soon is.
unfoldable pub is_in_custody : ℕ → Match → Bool
is_in_custody trip m =
    m.trip == trip
    && (has_status m.status MatchStatus.sender_confirmed
        || has_status m.status MatchStatus.active
        || has_status m.status MatchStatus.pickup_pending
        || has_status m.status MatchStatus.picked_up
        || has_status m.status MatchStatus.in_transit
        || has_status m.status MatchStatus.delivery_pending)

abbrev capacity_json : Capacity → Json
capacity_json c = obj (field "weightG" (num c.weight_g) end)

abbrev pub trip_payload : ℕ → Trip → Fields → Fields
trip_payload trip t more = field "tripId" (num trip) (
    field "carrierId" (num t.carrier) (
      field "origin" (location_json t.origin) (
        field "destination" (location_json t.destination) (
          field "departureTime" (num t.departure_time) (
            field "pricePerKg" (num t.price_per_kg) (
              field "availableCapacity" (capacity_json t.available_capacity) (
                field "status" (text (trip_status_name t.status))
                  (field "safetyDepositPaid" (flag t.safety_deposit_paid) more))))))))

abbrev pub trip_event : String → ℕ → Fields → AppendOutboxEventInput
trip_event event trip payload = record {
  topic = Topic.trip;
  event_type = event;
  aggregate_type = "trip";
  aggregate_id = trip;
  partition_key = some trip;
  payload = payload;
  headers = none;
  available_at = none;
}

abbrev is_carrier_role : Role → Bool
is_carrier_role carrier = true
is_carrier_role _ = false

-- `$addToSet` of the role and `$inc` of the trips
unfoldable pub count_trip : User → User
count_trip u = record u {
  role = if any is_carrier_role u.role then u.role else u.role ++ carrier ∷ [];
  total_trips_as_carrier = u.total_trips_as_carrier + 1;
}

-- A reminder is queued if its time is still to come.
unfoldable pub queue_reminder : (ℕ → ℕ → Job) → ℕ → ℕ → ℕ → Action ⊤
queue_reminder job trip departure before = do
  now ← gets (λ s. s.now)
  when (ltb (now + before) departure)
      (on_bus (λ now b. record b { jobs = b.jobs ++ job trip (departure - now - before) ∷ [] }))

-- The trip as it is posted: active, and with its deposit taken as paid in the demo mode or if the
-- body says so.
unfoldable pub posted_trip : Env → ℕ → Trip → Trip
posted_trip env user t = record t {
  carrier = user;
  status = active;
  safety_deposit_paid = env.demo_mode || t.safety_deposit_paid;
}

-- `createTrip`, for a body that fills the fields of a trip
unfoldable pub create_trip : Env → ℕ → Trip → Action Trip
unfolding count_trip posted_trip queue_reminder
create_trip env user payload = do
  posted ← run_in_transaction env.topology (do
    trip ← gets (λ s. s.next_id)
    modify (λ s. record s {
      trips = insert s.next_id (posted_trip env user payload) s.trips;
      next_id = suc s.next_id;
      users = update_by_id user count_trip s.users;
    })
    append_outbox_events
        (trip_event "TripPosted" trip (trip_payload trip (posted_trip env user payload) end) ∷ [])
    pure trip)
  queue_reminder trip_two_hour_reminder posted payload.departure_time (2 * 60 * 60 * 1000)
  queue_reminder trip_thirty_min_reminder posted payload.departure_time (30 * 60 * 1000)
  pure (posted_trip env user payload)

-- Ticket numbers are for the owner only.
unfoldable pub without_ticket : Trip → Trip
without_ticket t = record t {
  transport_details = elim t.transport_details [
    | none ↦ none
    | some d ↦ some (record d { pnr = none; seat_number = none })
  ];
}

-- `getTripById`
unfoldable pub get_trip_by_id : ℕ → Option ℕ → Action Trip
unfolding without_ticket
get_trip_by_id trip user = do
  found ← gets (λ s. find_by_id trip s.trips)
  t ← require found 404 "Trip not found"
  pure (if same_id user t.carrier then t else without_ticket t)

-- The parts of a trip that its carrier may update.
pub record TripUpdate : Type 0 where
  pub origin : Option Location
  pub destination : Option Location
  pub departure_time : Option ℕ
  pub estimated_arrival_time : Option ℕ
  pub mode_of_transport : Option TransportMode
  pub transport_details : Option TransportDetails
  pub available_capacity : Option Capacity
  pub price_per_kg : Option ℕ
  pub pickup_instructions : Option String
  pub dropoff_instructions : Option String

abbrev or_old {ℓ} : {A : Type ℓ} → Option A → Option A → Option A
or_old none old = old
or_old (some new) old = some new

unfoldable pub updated_trip : TripUpdate → Trip → Trip
updated_trip u t = record t {
  origin = or_else u.origin t.origin;
  destination = or_else u.destination t.destination;
  departure_time = or_else u.departure_time t.departure_time;
  estimated_arrival_time = or_old u.estimated_arrival_time t.estimated_arrival_time;
  mode_of_transport = or_else u.mode_of_transport t.mode_of_transport;
  transport_details = or_old u.transport_details t.transport_details;
  available_capacity = or_else u.available_capacity t.available_capacity;
  price_per_kg = or_else u.price_per_kg t.price_per_kg;
  pickup_instructions = or_old u.pickup_instructions t.pickup_instructions;
  dropoff_instructions = or_old u.dropoff_instructions t.dropoff_instructions;
}

-- `updateTrip`; the raw body goes into the event.
unfoldable pub update_trip : ℕ → ℕ → TripUpdate → Json → Action Trip
unfolding is_blocking updated_trip
update_trip user trip u body = do
  found ← gets (λ s. find_by_id trip s.trips)
  t ← require found 404 "Trip not found"
  guard (t.carrier == user) 403 "Forbidden"
  has_accepted_matches ← gets (λ s. exists (is_blocking trip) s.matches)
  guard (not has_accepted_matches) 400 "Trip cannot be edited once matches are accepted"
  save_trip trip (updated_trip u)
  append_outbox_events (
      trip_event "TripUpdated" trip
        (trip_payload trip (updated_trip u t) (field "updates" body end))
      ∷ [])
  pure (updated_trip u t)

abbrev pub is_cancelled_trip : TripStatus → Bool
is_cancelled_trip cancelled = true
is_cancelled_trip _ = false

-- The row of a refund.
unfoldable pub refund_row : ℕ → ℕ → ℕ → Transaction
refund_row now user amount = record {
  user = user;
  match = none;
  type = TransactionType.refund;
  amount = amount;
  razorpay_order_id = none;
  razorpay_payment_id = none;
  razorpay_signature = none;
  status = TransactionStatus.completed;
  description = plain "Refund for cancelled trip";
  created_at = now;
}

unfoldable pub is_deposit_due : Trip → Bool
is_deposit_due t = t.safety_deposit_paid && ltb 0 (or_num t.safety_deposit_amount 0)

unfoldable pub refund_deposit : ℕ → ℕ → Store → Store
unfolding refund_row
refund_deposit user amount s =
    create_transactions (refund_row s.now user amount ∷ [])
      (update_wallet user (refund_wallet amount) s)

unfoldable pub cancelled_trip : Trip → Trip
cancelled_trip t = record t { status = cancelled }

-- The writes of `cancelTrip`
unfoldable pub cancel_trip_writes : ℕ → ℕ → Trip → Action Trip
unfolding is_deposit_due refund_deposit cancelled_trip
cancel_trip_writes user trip t = do
  save_trip trip cancelled_trip
  when (is_deposit_due t) (modify (refund_deposit user (or_num t.safety_deposit_amount 0)))
  append_outbox_events (
      trip_event "TripCancelled" trip (
        field "tripId" (num trip)
          (field "carrierId" (num t.carrier) (field "status" (text "cancelled") end)))
      ∷ [])
  pure (cancelled_trip t)

-- `cancelTrip`
unfoldable pub cancel_trip : ℕ → ℕ → Action Trip
unfolding is_in_custody
cancel_trip user trip = do
  found ← gets (λ s. find_by_id trip s.trips)
  t ← require found 404 "Trip not found"
  guard (t.carrier == user) 403 "Forbidden"
  in_custody ← gets (λ s. exists (is_in_custody trip) s.matches)
  if is_cancelled_trip t.status then pure t else (do
    guard (not in_custody) 400
        "Cannot cancel trip with active deliveries in progress. Please complete or resolve active deliveries first."
    cancel_trip_writes user trip t)
