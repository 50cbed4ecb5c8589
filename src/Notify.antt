-- ===== src/Notify.antt =====
-- backend/src/services/notification.service.ts (with realtime.service.ts) and the append of
-- outbox.service.ts as actions. They touch the bus alone. With the relay on, a message becomes an
-- outbox event; otherwise it is published at once.
use hop_drop.Json.{flag, Json, Fields, num, text, obj, end, field}
use hop_drop.Store.{Notification, Bus, Action, Target, to_user, to_match, to_trip, RealtimeMessage}
use hop_drop.Common.{
  length, ℕ, String, false, Option, none, some, List, [], ◌∷◌, ◌++◌, if◌then◌else◌, ok, ⊤,
}
use hop_drop.Env.{Env, dispatches_async}
use hop_drop.Model.OutboxEvent.{Topic}
use hop_drop.Outbox.{AppendOutboxEventInput, append_events}

-- An action on the bus, at the store's time.
abbrev pub on_bus : (ℕ → Bus → Bus) → Action ⊤
on_bus f s = (ok tt, record s { bus = f s.now s.bus })

abbrev pub append_outbox_events : List AppendOutboxEventInput → Action ⊤
append_outbox_events events = on_bus (λ now. append_events now events)

abbrev pub target_id : Target → ℕ
target_id (to_user k) = k
target_id (to_match k) = k
target_id (to_trip k) = k

abbrev target_type : Target → String
target_type (to_user k) = "user"
target_type (to_match k) = "match"
target_type (to_trip k) = "trip"

-- `publishRealtimeEvent`: a failure of Redis is logged, and the handler goes on.
unfoldable pub publish_realtime_event : RealtimeMessage → Bus → Bus
publish_realtime_event m b = record b { realtime = b.realtime ++ m ∷ [] }

abbrev keep_object : String → Fields → Fields → Fields
keep_object key end rest = rest
keep_object key sub rest = field key (obj sub) rest

-- mongoose's `minimize`, on by default: objects without fields are not stored, at any depth.
unfoldable pub minimized : Fields → Fields
minimized end = end
minimized (field key (obj sub) rest) = keep_object key (minimized sub) (minimized rest)
minimized (field key j rest) = field key j (minimized rest)

abbrev object_or_none : Fields → Option Json
object_or_none end = none
object_or_none fields = some (obj fields)

-- What a document keeps of its path `metadata`, which may have any value.
unfoldable pub stored_metadata : Json → Option Json
unfolding minimized
stored_metadata (obj fields) = object_or_none (minimized fields)
stored_metadata j = some j

-- `Notification.create`; a notification's identifier is its place in the collection.
unfoldable pub create_notification :
    ℕ → String → String → String → Option Json → ℕ → Bus → Notification
create_notification user title body type metadata now b = record {
  id = length b.notifications;
  user = user;
  title = title;
  body = body;
  type = type;
  read = false;
  metadata = metadata;
  created_at = now;
  updated_at = now;
}

abbrev with_metadata : Option Json → Fields → Fields
with_metadata none rest = rest
with_metadata (some j) rest = field "metadata" j rest

-- `notification.toJSON()`, with mongoose's version key
unfoldable pub notification_json : Notification → Fields
notification_json n = field "_id" (num n.id) (
    field "user" (num n.user) (
      field "title" (text n.title) (
        field "body" (text n.body) (
          field "type" (text n.type) (
            field "read" (flag n.read) (
              with_metadata n.metadata (
                field "createdAt" (num n.created_at)
                  (field "updatedAt" (num n.updated_at) (field "__v" (num 0) end)))))))))

-- The message about a new notification.
abbrev pub announcement : Notification → RealtimeMessage
announcement n = record {
  target = to_user n.user;
  event = "notification:new";
  payload = notification_json n;
}

-- A notification that is stored and announced.
abbrev pub store_and_announce : Notification → Bus → Bus
store_and_announce n b =
    publish_realtime_event (announcement n) (record b { notifications = b.notifications ++ n ∷ [] })

-- The event of a realtime message.
abbrev pub dispatch_input : Target → String → Fields → AppendOutboxEventInput
dispatch_input target event payload = record {
  topic = Topic.realtime;
  event_type = "RealtimeDispatchRequested";
  aggregate_type = target_type target;
  aggregate_id = target_id target;
  partition_key = some (target_id target);
  payload =
      field "target"
        (obj (field "type" (text (target_type target)) (field "id" (num (target_id target)) end)))
        (field "event" (text event) (field "payload" (obj payload) end));
  headers = none;
  available_at = none;
}

-- The event of a notification.
abbrev pub notification_input : ℕ → String → String → String → Json → AppendOutboxEventInput
notification_input user title body type details = record {
  topic = Topic.notification;
  event_type = "UserNotificationDispatchRequested";
  aggregate_type = "user";
  aggregate_id = user;
  partition_key = some user;
  payload = field "userId" (num user) (
      field "title" (text title)
        (field "body" (text body) (field "type" (text type) (field "metadata" details end))));
  headers = none;
  available_at = none;
}

module _ (env : Env) where
  -- `emitToUser`, `emitToMatch` and `emitToTrip` on the bus.
  unfoldable pub emit : Target → String → Fields → ℕ → Bus → Bus
  unfolding publish_realtime_event append_events
  emit target event payload now b =
      if dispatches_async env
      then append_events now (dispatch_input target event payload ∷ []) b
      else publish_realtime_event (record { target = target; event = event; payload = payload }) b

  abbrev pub emit_to_user : ℕ → String → Fields → Action ⊤
  emit_to_user user event payload = on_bus (emit (to_user user) event payload)

  abbrev pub emit_to_match : ℕ → String → Fields → Action ⊤
  emit_to_match match event payload = on_bus (emit (to_match match) event payload)

  abbrev pub emit_to_trip : ℕ → String → Fields → Action ⊤
  emit_to_trip trip event payload = on_bus (emit (to_trip trip) event payload)

  unfoldable pub notify : ℕ → String → String → String → Option Fields → ℕ → Bus → Bus
  unfolding publish_realtime_event append_events stored_metadata create_notification
      notification_json
  notify user title body type metadata now b =
      let details : Json = elim metadata [ none ↦ obj end | some fields ↦ obj fields ] in
      let stored : Option Json = elim metadata [
        | none ↦ none
        | some fields ↦ stored_metadata (obj fields)
      ] in
      if dispatches_async env
      then append_events now (notification_input user title body type details ∷ []) b
      else store_and_announce (create_notification user title body type stored now b) b

  -- `notifyUser`
  abbrev pub notify_user : ℕ → String → String → String → Option Fields → Action ⊤
  notify_user user title body type metadata = on_bus (notify user title body type metadata)
