-- ===== src/MatchService/Status.antt =====
-- The status changes of backend/src/services/match.service.ts, with the mapping of statuses and the
-- event types of backend/src/events/domainEvents.ts.
use hop_drop.Model.Match.{
  proposed, carrier_accepted, sender_confirmed, active, pickup_pending, picked_up, in_transit,
  delivery_pending, delivered, cancelled, disputed, MatchStatus, TimelineEvent,
}
use hop_drop.Json.{end, field}
use hop_drop.Model.OutboxEvent.{Topic}
use hop_drop.Model.DeliveryRequest.{DeliveryStatus}
use hop_drop.Store.{pure, require, gets, ◌>>=◌, ◌>>◌, Action}
use hop_drop.Notify.{append_outbox_events, emit_to_match, emit_to_user}
use hop_drop.Json.{end, num, text, Json, field, obj, Fields}
use hop_drop.Collection.{find_by_id, update_by_id}
use hop_drop.Outbox.{AppendOutboxEventInput}
use hop_drop.Env.{Env}
use hop_drop.Model.DeliveryRequest.{DeliveryStatus}
use hop_drop.Model.Match.{Match, MatchStatus, TimelineEntry, TimelineEvent}
use hop_drop.Common.{String, Option, none, some, [], ◌∷◌, ◌++◌, ⊤, ok, ℕ}

-- `mapMatchStatusToDeliveryStatus`: a status that the table leaves out is `pending`.
unfoldable pub map_match_status_to_delivery_status : MatchStatus → DeliveryStatus
map_match_status_to_delivery_status proposed = DeliveryStatus.matched
map_match_status_to_delivery_status carrier_accepted = DeliveryStatus.matched
map_match_status_to_delivery_status sender_confirmed = DeliveryStatus.matched
map_match_status_to_delivery_status active = DeliveryStatus.matched
map_match_status_to_delivery_status pickup_pending = DeliveryStatus.pickup_otp_sent
map_match_status_to_delivery_status picked_up = DeliveryStatus.picked_up
map_match_status_to_delivery_status in_transit = DeliveryStatus.in_transit
map_match_status_to_delivery_status delivery_pending = DeliveryStatus.delivery_otp_sent
map_match_status_to_delivery_status delivered = DeliveryStatus.delivered
map_match_status_to_delivery_status cancelled = DeliveryStatus.cancelled
map_match_status_to_delivery_status disputed = DeliveryStatus.pending

-- `timelineEventMap` of `updateMatchStatus`
unfoldable pub timeline_event_of : MatchStatus → TimelineEvent
timeline_event_of proposed = TimelineEvent.match_proposed
timeline_event_of carrier_accepted = TimelineEvent.carrier_accepted
timeline_event_of sender_confirmed = TimelineEvent.sender_confirmed
timeline_event_of active = TimelineEvent.payment_done
timeline_event_of pickup_pending = TimelineEvent.pickup_otp_generated
timeline_event_of picked_up = TimelineEvent.pickup_verified
timeline_event_of in_transit = TimelineEvent.pickup_verified
timeline_event_of delivery_pending = TimelineEvent.delivery_otp_generated
timeline_event_of delivered = TimelineEvent.delivery_verified
timeline_event_of cancelled = TimelineEvent.cancelled
timeline_event_of disputed = TimelineEvent.disputed

-- The text of a status.
abbrev pub status_name : MatchStatus → String
status_name proposed = "proposed"
status_name carrier_accepted = "carrier_accepted"
status_name sender_confirmed = "sender_confirmed"
status_name active = "active"
status_name pickup_pending = "pickup_pending"
status_name picked_up = "picked_up"
status_name in_transit = "in_transit"
status_name delivery_pending = "delivery_pending"
status_name delivered = "delivered"
status_name cancelled = "cancelled"
status_name disputed = "disputed"

-- `getMatchStatusEventType`
unfoldable pub get_match_status_event_type : MatchStatus → String
get_match_status_event_type proposed = "MatchProposed"
get_match_status_event_type carrier_accepted = "CarrierAccepted"
get_match_status_event_type sender_confirmed = "SenderConfirmed"
get_match_status_event_type active = "MatchActivated"
get_match_status_event_type pickup_pending = "PickupOtpGenerated"
get_match_status_event_type picked_up = "PickupVerified"
get_match_status_event_type in_transit = "TransitStarted"
get_match_status_event_type delivery_pending = "DeliveryOtpGenerated"
get_match_status_event_type delivered = "DeliveryCompleted"
get_match_status_event_type cancelled = "MatchCancelled"
get_match_status_event_type disputed = "MatchDisputed"

-- `{ ...metadata, status }`; no caller gives a status of its own.
abbrev pub with_status : Fields → String → Fields
with_status end status = field "status" (text status) end
with_status (field k v fs) status = field k v (with_status fs status)

abbrev pub timeline_entry : ℕ → TimelineEvent → ℕ → Option Json → TimelineEntry
timeline_entry now event actor metadata = record {
  event = event;
  timestamp = now;
  actor = some actor;
  metadata = metadata;
}

-- `match.timeline.push` and `save`, with the other changed paths.
abbrev pub push_entry : TimelineEntry → Match → Match
push_entry e m = record m { timeline = m.timeline ++ e ∷ [] }

abbrev pub save_match : ℕ → (Match → Match) → Action ⊤
save_match match f s = (ok tt, record s { matches = update_by_id match f s.matches })

abbrev pub set_request_status : ℕ → DeliveryStatus → Action ⊤
set_request_status request status s = (
  ok tt,
  record s { requests = update_by_id request (λ r. record r { status = status }) s.requests },
)

-- What `updateMatchStatus` sets on the document.
unfoldable pub with_new_status : ℕ → MatchStatus → ℕ → Fields → Match → Match
unfolding timeline_event_of
with_new_status now status actor metadata m =
    push_entry
      (timeline_entry now (timeline_event_of status) actor
        (some (obj (with_status metadata (status_name status)))))
      (record m { status = status })

abbrev pub status_event : ℕ → Match → MatchStatus → ℕ → Fields → AppendOutboxEventInput
unfolding get_match_status_event_type
status_event match m status actor metadata = record {
  topic = Topic.match;
  event_type = get_match_status_event_type status;
  aggregate_type = "match";
  aggregate_id = match;
  partition_key = some match;
  payload = field "matchId" (num match) (
      field "tripId" (num m.trip) (
        field "deliveryRequestId" (num m.delivery_request) (
          field "carrierId" (num m.carrier) (
            field "senderId" (num m.sender) (
              field "previousStatus" (text (status_name m.status)) (
                field "status" (text (status_name status))
                  (field "actorId" (num actor) (field "metadata" (obj metadata) end))))))));
  headers = none;
  available_at = none;
}

module _ (env : Env) where
  -- `updateMatchStatus`
  unfoldable pub update_match_status : ℕ → MatchStatus → ℕ → Fields → Action Match
  unfolding with_new_status map_match_status_to_delivery_status
  update_match_status match status actor metadata = do
    now ← gets (λ s. s.now)
    found ← gets (λ s. find_by_id match s.matches)
    current ← require found 404 "Match not found"
    save_match match (with_new_status now status actor metadata)
    set_request_status current.delivery_request (map_match_status_to_delivery_status status)
    let payload =
        field "matchId" (num match)
          (field "status" (text (status_name status)) (field "at" (num now) end))
    emit_to_user env current.carrier "match:status_changed" payload
    emit_to_user env current.sender "match:status_changed" payload
    emit_to_match env match "match:status_changed" payload
    append_outbox_events (status_event match current status actor metadata ∷ [])
    pure (with_new_status now status actor metadata current)
