-- ===== src/Sockets.antt =====
-- The sockets of backend/src/config/socket.ts: the rooms that a connection is in, and the positions
-- that carriers send along. A socket has an identifier; the positions that are sent stand in the
-- log.
pub mod Privacy
pub mod Gateway
use hop_drop.Collection.{without_id, insert, find_by_id, update_by_id, Collection}
use hop_drop.Accounts.Sessions.{TokenPayload, TokenKind, Jwt}
use hop_drop.Common.{
  Option, suc, none, [], false, some, ◌∷◌, str_eq, ◌++◌, ◌||◌, ◌≡◌, List, String, any, ◌==◌, Bool,
  if◌then◌else◌, ℕ,
}
use hop_drop.Common.Int.{ℤ}
use hop_drop.Model.Match.{Match}

pub data Room : Type 0 where
  user_room match_room trip_room : ℕ → Room
  named_room : String → Room

abbrev pub same_room : Room → Room → Bool
same_room (user_room a) (user_room b) = a == b
same_room (match_room a) (match_room b) = a == b
same_room (trip_room a) (trip_room b) = a == b
same_room (named_room a) (named_room b) = str_eq a b
same_room _ _ = false

pub record Socket : Type 0 where
  pub user : ℕ
  pub rooms : List Room

-- A position of a match, in millionths of a degree, at the server's time.
pub record Position : Type 0 where
  pub match : ℕ
  pub lat : ℤ
  pub lng : ℤ
  pub at : ℕ

-- What a socket is sent: the user who receives it, the user whom it comes from, and the position.
pub record Delivery : Type 0 where
  pub receiver : ℕ
  pub sender : ℕ
  pub position : Position

pub record Sockets : Type 0 where
  pub next_socket : ℕ
  pub sockets : Collection Socket
  pub log : List Delivery

-- `socket.join`
unfoldable pub join : Room → Socket → Socket
join room k = record k {
  rooms = if any (same_room room) k.rooms then k.rooms else k.rooms ++ room ∷ [];
}

unfoldable pub open_socket : Option TokenPayload → Sockets → Sockets
open_socket none w = w
open_socket (some p) w = record w {
  next_socket = suc w.next_socket;
  sockets = insert w.next_socket (record { user = p.id; rooms = user_room p.id ∷ [] }) w.sockets;
}

-- `io.use` and the start of `connection`: a token that is checked opens a socket in the user's room.
unfoldable pub connect : Jwt → ℕ → List ℕ → Sockets → Sockets
unfolding open_socket
connect jwt now token w = open_socket (jwt.verify TokenKind.access now token) w

-- `join:user`
unfoldable pub join_user : ℕ → Socket → Socket
unfolding join
join_user user k = if user == k.user then join (user_room user) k else k

abbrev pub is_party : Match → ℕ → Bool
is_party m user = m.carrier == user || m.sender == user

unfoldable pub join_if_party : Option Match → ℕ → Socket → Socket
unfolding join
join_if_party none match k = k
join_if_party (some m) match k = if is_party m k.user then join (match_room match) k else k

-- `join:match`
unfoldable pub join_match : Collection Match → ℕ → Socket → Socket
unfolding join_if_party
join_match matches match k = join_if_party (find_by_id match matches) match k

-- `io.to(room).emit`, to every socket in the room
unfoldable pub deliver : ℕ → Position → Collection Socket → List Delivery
deliver sender p [] = []
deliver sender p ((i, k) ∷ c) =
    let rest = deliver sender p c in
    if any (same_room (match_room p.match)) k.rooms
    then record { receiver = k.user; sender = sender; position = p } ∷ rest
    else rest

unfoldable pub send_on : Option Match → Position → Option Socket → Sockets → Sockets
unfolding deliver
send_on (some m) p (some k) w =
    let sent = deliver k.user p w.sockets in
    if m.carrier == k.user then record w { log = w.log ++ sent ++ sent } else w
send_on _ p _ w = w

-- `location:update`, of a socket: it is sent on twice, under two names.
unfoldable pub location_update : Collection Match → Position → ℕ → Sockets → Sockets
unfolding send_on
location_update matches p socket w =
    send_on (find_by_id p.match matches) p (find_by_id socket w.sockets) w

-- What a client sends on a socket.
pub data Message : Type 0 where
  ask_user ask_match : ℕ → Message
  send_location : ℤ → ℤ → ℕ → Message

unfoldable pub on_message : Collection Match → ℕ → ℕ → Message → Sockets → Sockets
unfolding join_user join_match location_update
on_message matches now socket (ask_user user) w = record w {
  sockets = update_by_id socket (join_user user) w.sockets;
}
on_message matches now socket (ask_match match) w = record w {
  sockets = update_by_id socket (join_match matches match) w.sockets;
}
on_message matches now socket (send_location lat lng match) w =
    location_update matches (record { match = match; lat = lat; lng = lng; at = now }) socket w

-- A connection that ends leaves its rooms.
unfoldable pub disconnect : ℕ → Sockets → Sockets
disconnect socket w = record w { sockets = without_id socket w.sockets }

-- The sockets of a server with the database that it reads.
pub record World : Type 0 where
  pub matches : Collection Match
  pub live : Sockets

-- A match keeps its carrier and its sender, whatever else is written.
abbrev pub KeepsParties : Collection Match → Collection Match → Type 0
KeepsParties c d =
    (k : ℕ) (m : Match)
    → find_by_id k c ≡ some m
    → (n : Match) × (find_by_id k d ≡ some n) × (n.carrier ≡ m.carrier) × (n.sender ≡ m.sender)

-- What can happen, in any order.
pub data Step (jwt : Jwt) (w : World) : World → Type 0 where
  connects :
      (now : ℕ) (token : List ℕ) → Step jwt w (record w { live = connect jwt now token w.live })
  sends :
      (now socket : ℕ) (m : Message)
      → Step jwt w (record w { live = on_message w.matches now socket m w.live })
  leaves : (socket : ℕ) → Step jwt w (record w { live = disconnect socket w.live })
  writes : (c : Collection Match) → KeepsParties w.matches c → Step jwt w (record w { matches = c })

pub data Run (jwt : Jwt) (w : World) : World → Type 0 where
  here : Run jwt w w
  after : (v x : World) → Run jwt w v → Step jwt v x → Run jwt w x
