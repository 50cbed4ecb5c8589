-- ===== src/Tests/Rooms.antt =====
-- Runs of the sockets of backend/src/config/socket.ts and of services/realtime-gateway.
use hop_drop.Sockets.Gateway.{
  hears, update_location, join_match_room, join_user_room, says, RealtimeTarget, opens,
  DispatchMessage, Gateway, GatewayEvent, on_events,
}
use hop_drop.Json.{end}
use hop_drop.Model.Match.{new_match}
use hop_drop.Collection.{insert, update_by_id, find_by_id}
use hop_drop.Common.Int.{pos}
use hop_drop.Sockets.{
  Message, World, Run, connects, sends, here, after, ask_match, send_location, on_message, connect,
}
use hop_drop.Tests.Accounts.{demo_jwt, demo_sign}
use hop_drop.Common.{ℕ, ◌≡◌, refl, true, none, List, [], ◌∷◌, map, All}
use hop_drop.Accounts.Sessions.{TokenKind}
use hop_drop.Model.User.{Role}
use hop_drop.Tests.Fixtures.{demo_store}
use hop_drop.Tests.Accounts.{demo_jwt, demo_sign}
use hop_drop.Sockets.Gateway.{RealtimeTarget}
use hop_drop.Sockets.Privacy.{positions_private, DeliveryOk}
use hop_drop.Sockets.Gateway.Addressed.{user_messages_private, Addressed}

abbrev token_of : ℕ → List ℕ
token_of k =
    demo_sign TokenKind.access 1000 (record { id = k; phone = 91; roles = Role.sender ∷ [] })

abbrev empty_world : World
empty_world = record {
  matches = demo_store.matches;
  live = record { next_socket = 0; sockets = []; log = [] };
}

abbrev opened : World → ℕ → World
opened w k = record w { live = connect demo_jwt 1000 (token_of k) w.live }

abbrev said : World → ℕ → Message → World
said w socket m = record w { live = on_message w.matches 1000 socket m w.live }

-- The sender and a stranger ask for the room of a match, and its carrier sends a position.
abbrev three_in : World
three_in = opened (opened (opened empty_world 2) 8) 1

abbrev sender_in : World
sender_in = said three_in 0 (ask_match 7)

abbrev stranger_asks : World
stranger_asks = said sender_in 1 (ask_match 7)

abbrev position_sent : World
position_sent = said stranger_asks 2 (send_location (pos 18) (pos 73) 7)

three_open : Run demo_jwt empty_world three_in
three_open =
    after _ _ (after _ _ (after _ _ here (connects 1000 (token_of 2))) (connects 1000 (token_of 8)))
      (connects 1000 (token_of 1))

position_run : Run demo_jwt empty_world position_sent
position_run =
    after stranger_asks _
      (after sender_in _ (after three_in _ three_open (sends 1000 0 (ask_match 7)))
        (sends 1000 1 (ask_match 7)))
      (sends 1000 2 (send_location (pos 18) (pos 73) 7))

-- The sender is sent the position under both names, the stranger is not.
two_deliveries : map (λ d. d.receiver) position_sent.live.log ≡ 2 ∷ 2 ∷ []
unfolding connect on_message find_by_id insert update_by_id new_match
two_deliveries = refl

positions_private_example : All (DeliveryOk position_sent.matches) position_sent.live.log
positions_private_example =
    positions_private demo_jwt empty_world position_sent position_run refl refl

abbrev empty_gateway : Gateway
empty_gateway = record {
  instance_id = 40;
  next_socket = 0;
  active_connections = 0;
  sockets = [];
  published = [];
  log = [];
}

abbrev note : DispatchMessage
note = record {
  origin = none;
  target = RealtimeTarget.user 2;
  event = "notification:new";
  payload = end;
}

-- User 8 asks for the room of user 2, to whom a message goes then.
abbrev note_events : List GatewayEvent
note_events =
    opens 1000 (token_of 2)
    ∷ opens 1000 (token_of 8)
    ∷ says 1000 true true 0 (join_user_room 2)
    ∷ says 1000 true true 1 (join_user_room 2)
    ∷ hears note
    ∷ []

one_reached : map (λ d. d.receiver) (on_events demo_jwt note_events empty_gateway).log ≡ 2 ∷ []
unfolding on_events update_by_id insert
one_reached = refl

-- A stranger enters the room of a match at the gateway, and is sent the position.
abbrev stranger_events : List GatewayEvent
stranger_events =
    opens 1000 (token_of 1)
    ∷ opens 1000 (token_of 8)
    ∷ says 1000 true true 1 (join_match_room 7)
    ∷ says 1000 true true 0 (update_location 7 (pos 18) (pos 73))
    ∷ []

stranger_reached :
    map (λ d. d.receiver) (on_events demo_jwt stranger_events empty_gateway).log ≡ 8 ∷ 8 ∷ []
unfolding on_events update_by_id insert find_by_id
stranger_reached = refl

user_messages_private_example : All Addressed (on_events demo_jwt note_events empty_gateway).log
user_messages_private_example = user_messages_private demo_jwt note_events empty_gateway refl refl
