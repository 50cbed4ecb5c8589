-- ===== src/Consumers/Notifier.antt =====
-- services/notification-consumer/src/server.ts: the notifications and the realtime messages that the
-- backend has left to the outbox.
use hop_drop.Notify.{
  create_notification, store_and_announce, notification_json, stored_metadata,
  publish_realtime_event,
}
use hop_drop.Store.{to_trip, to_match, Bus, to_user, RealtimeMessage, Notification, Target}
use hop_drop.Consumers.{fields_of, get_inner, id_or, get_field}
use hop_drop.Model.OutboxEvent.{Topic}
use hop_drop.Common.{str_eq, ℕ, String, Option, none, some, if◌then◌else◌}
use hop_drop.Outbox.Relay.{KafkaMessage}
use hop_drop.Json.{Json, Fields, null, text, obj, end}

abbrev text_of : Option Json → String
text_of (some (text t)) = t
text_of _ = ""

-- `payload.metadata || {}`
abbrev metadata_or_empty : Option Json → Json
metadata_or_empty none = obj end
metadata_or_empty (some null) = obj end
metadata_or_empty (some j) = j

abbrev target_of : String → ℕ → Option Target
target_of type id =
    if str_eq type "user"
    then some (to_user id)
    else if str_eq type "match"
    then some (to_match id)
    else if str_eq type "trip"
    then some (to_trip id)
    else none

-- The message in the payload of an event; one without a target reaches nobody.
unfoldable pub realtime_of : Fields → Option RealtimeMessage
unfolding get_field
realtime_of payload =
    elim (target_of (text_of (get_inner "target" "type" payload))
      (id_or (get_inner "target" "id" payload) 0)) [
        | none ↦ none
        | some target ↦ some (record {
          target = target;
          event = text_of (get_field "event" payload);
          payload = fields_of (get_field "payload" payload);
        })
      ]

unfoldable pub publish_if : Option RealtimeMessage → Bus → Bus
unfolding publish_realtime_event
publish_if none b = b
publish_if (some m) b = publish_realtime_event m b

-- The notification that an event asks for, made at the consumer's time.
unfoldable pub notification_of : Fields → ℕ → Bus → Notification
unfolding get_field stored_metadata create_notification
notification_of payload now b =
    create_notification (id_or (get_field "userId" payload) 0) (text_of (get_field "title" payload))
      (text_of (get_field "body" payload)) (text_of (get_field "type" payload))
      (stored_metadata (metadata_or_empty (get_field "metadata" payload))) now b

-- `handleMessage`, at a time
unfoldable pub handle_message : ℕ → KafkaMessage → Bus → Bus
unfolding notification_of realtime_of publish_if publish_realtime_event notification_json
handle_message now m b = handle_on m.topic
  where
    handle_on : Topic → Bus
    handle_on Topic.notification = store_and_announce (notification_of m.payload now b) b
    handle_on Topic.realtime = publish_if (realtime_of m.payload) b
    handle_on _ = b
