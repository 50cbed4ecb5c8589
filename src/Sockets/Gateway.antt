-- ===== src/Sockets/Gateway.antt =====
-- services/realtime-gateway/src/server.ts: a gateway for the sockets that stands by itself. It passes
-- on what the backend publishes over Redis, and shares the positions with the other gateways. It has
-- no database: whoever is logged in may enter the room of a match or of a trip.
pub mod Addressed
use hop_drop.Collection.{without_id, find_by_id, insert, update_by_id, Collection}
use hop_drop.Messages.{int_json}
use hop_drop.Common.Int.{ℤ}
use hop_drop.Json.{end, num, field, Fields}
use hop_drop.Sockets.{
  named_room, same_room, trip_room, match_room, user_room, Room, Socket, join, join_user,
}
use hop_drop.Common.{
  [], any, suc, true, ◌==◌, ◌∷◌, List, false, none, some, ◌-◌, Bool, Option, String, if◌then◌else◌,
  ℕ, ◌++◌,
}
use hop_drop.Accounts.Sessions.{TokenKind, TokenPayload, Jwt}

-- `RealtimeTarget`
pub data RealtimeTarget : Type 0 where
  user match trip : ℕ → RealtimeTarget
  room : String → RealtimeTarget
  broadcast : RealtimeTarget

-- `RealtimeDispatchMessage`
pub record DispatchMessage : Type 0 where
  pub origin : Option ℕ
  pub target : RealtimeTarget
  pub event : String
  pub payload : Fields

-- What a socket is sent.
pub record Sent : Type 0 where
  pub receiver : ℕ
  pub message : DispatchMessage

pub record Gateway : Type 0 where
  pub instance_id : ℕ
  pub next_socket : ℕ
  pub active_connections : ℕ
  pub sockets : Collection Socket
  pub published : List DispatchMessage
  pub log : List Sent

-- `resolveRoom`
unfoldable pub resolve_room : RealtimeTarget → Option Room
resolve_room (user k) = some (user_room k)
resolve_room (match k) = some (match_room k)
resolve_room (trip k) = some (trip_room k)
resolve_room (room name) = some (named_room name)
resolve_room broadcast = none

-- Whether a socket is reached by an emission to a room, or to all.
abbrev pub is_reached : Option Room → Socket → Bool
is_reached none k = true
is_reached (some r) k = any (same_room r) k.rooms

unfoldable pub send_all : Option Room → DispatchMessage → Collection Socket → List Sent
send_all r m [] = []
send_all r m ((i, k) ∷ c) =
    let rest = send_all r m c in
    if is_reached r k then record { receiver = k.user; message = m } ∷ rest else rest

-- `emitMessage`
unfoldable pub emit_message : DispatchMessage → Gateway → Gateway
unfolding send_all resolve_room
emit_message m g = record g { log = g.log ++ send_all (resolve_room m.target) m g.sockets }

-- `publishMessage`
unfoldable pub publish_message : DispatchMessage → Gateway → Gateway
publish_message m g = record g {
  published = g.published ++ record m { origin = some g.instance_id } ∷ [];
}

-- `connection`, with the user of a token that is checked.
unfoldable pub open_connection : Option TokenPayload → Gateway → Gateway
open_connection none g = g
open_connection (some p) g = record g {
  next_socket = suc g.next_socket;
  active_connections = suc g.active_connections;
  sockets = insert g.next_socket (record { user = p.id; rooms = [] }) g.sockets;
}

-- What a client sends on a socket.
pub data ClientMessage : Type 0 where
  join_user_room join_match_room join_trip_room : ℕ → ClientMessage
  update_location : ℕ → ℤ → ℤ → ClientMessage

abbrev pub location_message : String → ℕ → ℕ → ℕ → ℤ → ℤ → DispatchMessage
location_message event now from about lat lng = record {
  origin = none;
  target = RealtimeTarget.match about;
  event = event;
  payload = field "matchId" (num about) (
      field "lat" (int_json lat)
        (field "lng" (int_json lng) (field "at" (num now) (field "userId" (num from) end))));
}

-- The publications of a position: the second is not tried where the first fails.
unfoldable pub fan_out : Bool → Bool → DispatchMessage → DispatchMessage → Gateway → Gateway
unfolding publish_message
fan_out false second m n g = g
fan_out true false m n g = publish_message m g
fan_out true true m n g = publish_message n (publish_message m g)

unfoldable pub location_on : ℕ → Bool → Bool → ℕ → ℤ → ℤ → Option Socket → Gateway → Gateway
unfolding fan_out emit_message
location_on now first second about lat lng none g = g
location_on now first second about lat lng (some k) g =
    let m = location_message "location:update" now k.user about lat lng in
    let n = location_message "carrier:location" now k.user about lat lng in
    fan_out first second m n (emit_message n (emit_message m g))

abbrev pub with_rooms : ℕ → (Socket → Socket) → Gateway → Gateway
with_rooms socket f g = record g { sockets = update_by_id socket f g.sockets }

-- The handlers of a socket; `first` and `second` say whether Redis takes the publications.
unfoldable pub on_client_message : ℕ → Bool → Bool → ℕ → ClientMessage → Gateway → Gateway
unfolding join_user join location_on
on_client_message now first second socket (join_user_room k) g = with_rooms socket (join_user k) g
on_client_message now first second socket (join_match_room k) g =
    with_rooms socket (join (match_room k)) g
on_client_message now first second socket (join_trip_room k) g =
    with_rooms socket (join (trip_room k)) g
on_client_message now first second socket (update_location about lat lng) g =
    location_on now first second about lat lng (find_by_id socket g.sockets) g

-- `disconnect`
unfoldable pub end_connection : ℕ → Gateway → Gateway
end_connection socket g = record g {
  active_connections = g.active_connections - 1;
  sockets = without_id socket g.sockets;
}

abbrev pub same_origin : Option ℕ → ℕ → Bool
same_origin none k = false
same_origin (some j) k = j == k

-- A message of the channel; its own are not sent twice.
unfoldable pub on_channel_message : DispatchMessage → Gateway → Gateway
unfolding emit_message
on_channel_message m g = if same_origin m.origin g.instance_id then g else emit_message m g

-- What can happen at a gateway, in any order.
pub data GatewayEvent : Type 0 where
  opens : ℕ → List ℕ → GatewayEvent
  says : ℕ → Bool → Bool → ℕ → ClientMessage → GatewayEvent
  ends : ℕ → GatewayEvent
  hears : DispatchMessage → GatewayEvent

unfoldable pub on_event : Jwt → GatewayEvent → Gateway → Gateway
unfolding open_connection on_client_message end_connection on_channel_message
on_event jwt (opens now token) g = open_connection (jwt.verify TokenKind.access now token) g
on_event jwt (says now first second socket m) g = on_client_message now first second socket m g
on_event jwt (ends socket) g = end_connection socket g
on_event jwt (hears m) g = on_channel_message m g

unfoldable pub on_events : Jwt → List GatewayEvent → Gateway → Gateway
unfolding on_event
on_events jwt [] g = g
on_events jwt (e ∷ es) g = on_events jwt es (on_event jwt e g)
