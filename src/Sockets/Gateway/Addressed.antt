-- ===== src/Sockets/Gateway/Addressed.antt =====
-- Whom the messages for one user reach at the gateway of services/realtime-gateway/src/server.ts.
use hop_drop.Collection.Alls.{update_by_id-All, without_id-All}
use hop_drop.Collection.{find_by_id, insert, Collection}
use hop_drop.Sockets.Gateway.{
  location_message, is_reached, same_origin, ClientMessage, DispatchMessage, GatewayEvent,
  RealtimeTarget, end_connection, publish_message, Gateway, Sent, emit_message, fan_out,
  location_on, on_channel_message, on_client_message, on_event, on_events, open_connection,
  resolve_room, send_all, opens, says, ends, hears, join_user_room, join_match_room, join_trip_room,
  update_location,
}
use hop_drop.Accounts.Sessions.{TokenKind, TokenPayload, Jwt}
use hop_drop.Common.Int.{ℤ}
use hop_drop.Sockets.{
  same_room, Room, Socket, join, join_user, trip_room, named_room, match_room, user_room,
}
use hop_drop.Common.{
  ℕ, ◌≡◌, sym, ◌∙◌, inl, inr, Bool, true, false, Option, none, some, List, [], ◌∷◌, ◌==◌, ==_iff,
  Bool-cases, any, All, All-append,
}

abbrev pub OwnRoom : ℕ → Room → Type 0
OwnRoom user (user_room k) = k ≡ user
OwnRoom user _ = Unit

abbrev pub OwnRooms : ℕ × Socket → Type 0
OwnRooms (i, k) = All (OwnRoom k.user) k.rooms

-- A message for a user is sent to that user only.
abbrev pub Addressed : Sent → Type 0
Addressed d = (k : ℕ) → d.message.target ≡ RealtimeTarget.user k → d.receiver ≡ k

abbrev pub IsAddressed : Gateway → Type 0
IsAddressed g = All OwnRooms g.sockets × All Addressed g.log

join-OwnRooms :
    (i : ℕ) (r : Room) (k : Socket) → OwnRoom k.user r → OwnRooms (i, k) → OwnRooms (i, join r k)
unfolding join
join-OwnRooms i r k own h = elim (Bool-cases (any (same_room r) k.rooms)) [
  | inl there ↦ rw there h
  | inr new ↦ rw new (All-append (OwnRoom k.user) k.rooms (r ∷ []) h (own, tt))
]

join_user-OwnRooms : (i user : ℕ) (k : Socket) → OwnRooms (i, k) → OwnRooms (i, join_user user k)
unfolding join_user
join_user-OwnRooms i user k h = elim (Bool-cases (user == k.user)) [
  | inl same ↦ rw same (join-OwnRooms i (user_room user) k ((==_iff user k.user).0 same) h)
  | inr other ↦ rw other h
]

in_room-own :
    (k user : ℕ) (rooms : List Room)
    → All (OwnRoom user) rooms
    → any (same_room (user_room k)) rooms ≡ true
    → user ≡ k
in_room-own k user (user_room j ∷ rooms) h there = elim (Bool-cases (k == j)) [
  | inl same ↦ sym ((==_iff k j).0 same ∙ h.0)
  | inr other ↦ in_room-own k user rooms h.1 (rw other at there)
]
in_room-own k user (match_room j ∷ rooms) h there = in_room-own k user rooms h.1 there
in_room-own k user (trip_room j ∷ rooms) h there = in_room-own k user rooms h.1 there
in_room-own k user (named_room j ∷ rooms) h there = in_room-own k user rooms h.1 there
in_room-own k user [] h there = absurd (cc)

reached_is_own :
    (m : DispatchMessage) (s : Socket)
    → All (OwnRoom s.user) s.rooms
    → is_reached (resolve_room m.target) s ≡ true
    → (k : ℕ) → m.target ≡ RealtimeTarget.user k
    → s.user ≡ k
unfolding resolve_room
reached_is_own m s h reached k target = in_room-own k s.user s.rooms h (rw target at reached)

send_all-Addressed :
    (m : DispatchMessage) (c : Collection Socket)
    → All OwnRooms c
    → All Addressed (send_all (resolve_room m.target) m c)
unfolding send_all
send_all-Addressed m [] h = tt
send_all-Addressed m ((i, s) ∷ c) h =
    let rest = send_all-Addressed m c h.1 in
    elim (Bool-cases (is_reached (resolve_room m.target) s)) [
      | inl reached ↦ rw reached (reached_is_own m s h.0 reached, rest)
      | inr away ↦ rw away rest
    ]

emit_message-IsAddressed :
    (m : DispatchMessage) (g : Gateway) → IsAddressed g → IsAddressed (emit_message m g)
unfolding emit_message
emit_message-IsAddressed m g h =
    (h.0, All-append Addressed g.log _ h.1 (send_all-Addressed m g.sockets h.0))

fan_out-IsAddressed :
    (first second : Bool) (m n : DispatchMessage) (g : Gateway)
    → IsAddressed g
    → IsAddressed (fan_out first second m n g)
unfolding fan_out publish_message
fan_out-IsAddressed false second m n g h = h
fan_out-IsAddressed true false m n g h = h
fan_out-IsAddressed true true m n g h = h

location_on-IsAddressed :
    (now : ℕ) (first second : Bool) (about : ℕ) (lat lng : ℤ) (o : Option Socket) (g : Gateway)
    → IsAddressed g
    → IsAddressed (location_on now first second about lat lng o g)
unfolding location_on
location_on-IsAddressed now first second about lat lng none g h = h
location_on-IsAddressed now first second about lat lng (some k) g h =
    let m = location_message "location:update" now k.user about lat lng in
    let n = location_message "carrier:location" now k.user about lat lng in
    fan_out-IsAddressed first second m n (emit_message n (emit_message m g))
      (emit_message-IsAddressed n (emit_message m g) (emit_message-IsAddressed m g h))

on_client_message-IsAddressed :
    (now : ℕ) (first second : Bool) (socket : ℕ) (m : ClientMessage) (g : Gateway)
    → IsAddressed g
    → IsAddressed (on_client_message now first second socket m g)
unfolding on_client_message
on_client_message-IsAddressed now first second socket (join_user_room k) g h = (
  update_by_id-All OwnRooms socket (join_user k) (λ i s. join_user-OwnRooms i k s) g.sockets h.0,
  h.1,
)
on_client_message-IsAddressed now first second socket (join_match_room k) g h = (
  update_by_id-All OwnRooms socket (join (match_room k))
      (λ i s. join-OwnRooms i (match_room k) s tt) g.sockets h.0,
  h.1,
)
on_client_message-IsAddressed now first second socket (join_trip_room k) g h = (
  update_by_id-All OwnRooms socket (join (trip_room k)) (λ i s. join-OwnRooms i (trip_room k) s tt)
      g.sockets h.0,
  h.1,
)
on_client_message-IsAddressed now first second socket (update_location about lat lng) g h =
    location_on-IsAddressed now first second about lat lng (find_by_id socket g.sockets) g h

open_connection-IsAddressed :
    (o : Option TokenPayload) (g : Gateway) → IsAddressed g → IsAddressed (open_connection o g)
unfolding open_connection insert
open_connection-IsAddressed none g h = h
open_connection-IsAddressed (some p) g h = (All-append OwnRooms g.sockets _ h.0 (tt, tt), h.1)

on_channel_message-IsAddressed :
    (m : DispatchMessage) (g : Gateway) → IsAddressed g → IsAddressed (on_channel_message m g)
unfolding on_channel_message
on_channel_message-IsAddressed m g h = elim (Bool-cases (same_origin m.origin g.instance_id)) [
  | inl own ↦ rw own h
  | inr other ↦ rw other (emit_message-IsAddressed m g h)
]

on_event-IsAddressed :
    (jwt : Jwt) (e : GatewayEvent) (g : Gateway) → IsAddressed g → IsAddressed (on_event jwt e g)
unfolding on_event end_connection
on_event-IsAddressed jwt (opens now token) g h =
    open_connection-IsAddressed (jwt.verify TokenKind.access now token) g h
on_event-IsAddressed jwt (says now first second socket m) g h =
    on_client_message-IsAddressed now first second socket m g h
on_event-IsAddressed jwt (ends socket) g h = (without_id-All OwnRooms socket g.sockets h.0, h.1)
on_event-IsAddressed jwt (hears m) g h = on_channel_message-IsAddressed m g h

on_events-IsAddressed :
    (jwt : Jwt) (es : List GatewayEvent) (g : Gateway)
    → IsAddressed g
    → IsAddressed (on_events jwt es g)
unfolding on_events
on_events-IsAddressed jwt [] g h = h
on_events-IsAddressed jwt (e ∷ es) g h =
    on_events-IsAddressed jwt es (on_event jwt e g) (on_event-IsAddressed jwt e g h)

-- Whatever connects, joins, publishes or ends, a message for one user reaches the sockets of that
-- user only.
pub user_messages_private :
    (jwt : Jwt) (es : List GatewayEvent) (g : Gateway)
    → g.sockets ≡ []
    → g.log ≡ []
    → All Addressed (on_events jwt es g).log
user_messages_private jwt es g alone quiet =
    (on_events-IsAddressed jwt es g (rw (alone, quiet) (tt, tt))).1
