-- ===== src/Sockets/Privacy.antt =====
-- Who is sent the positions of a match by backend/src/config/socket.ts.
use hop_drop.Collection.Alls.{update_by_id-All, without_id-All}
use hop_drop.Accounts.Sessions.{TokenKind, TokenPayload, Jwt}
use hop_drop.Common.{
  ◌++◌, All-map, refl, ◌∙◌, Option, none, inl, inr, [], ◌∷◌, ==_iff, All-append, ◌⊎◌, some, true,
  ◌==◌, Bool-cases, any, ◌≡◌, List, ℕ, All,
}
use hop_drop.Sockets.{
  trip_room, named_room, match_room, user_room, ask_user, ask_match, send_location, connects, sends,
  leaves, writes, here, after, Step, Message, disconnect, Run, Sockets, connect, location_update,
  KeepsParties, join_if_party, on_message, open_socket, send_on, same_room, Position, Room, Socket,
  is_party, Delivery, deliver, join, join_match, join_user, World,
}
use hop_drop.Collection.{insert, find_by_id, Collection}
use hop_drop.Model.Match.{Match}

-- The user is the carrier or the sender of the match.
abbrev pub IsPartyOf : Collection Match → ℕ → ℕ → Type 0
IsPartyOf c match user =
    (m : Match) × (find_by_id match c ≡ some m) × ((m.carrier ≡ user) ⊎ (m.sender ≡ user))

abbrev pub RoomOk : Collection Match → ℕ → Room → Type 0
RoomOk c user (user_room k) = k ≡ user
RoomOk c user (match_room k) = IsPartyOf c k user
RoomOk c user _ = Unit

abbrev pub SocketOk : Collection Match → ℕ × Socket → Type 0
SocketOk c (i, k) = All (RoomOk c k.user) k.rooms

-- A position goes from the carrier of its match to the carrier or the sender.
abbrev pub DeliveryOk : Collection Match → Delivery → Type 0
DeliveryOk c d =
    IsPartyOf c d.position.match d.receiver
    × ((m : Match) × (find_by_id d.position.match c ≡ some m) × (m.carrier ≡ d.sender))

abbrev pub IsPrivate : World → Type 0
IsPrivate w = All (SocketOk w.matches) w.live.sockets × All (DeliveryOk w.matches) w.live.log

module _ (c : Collection Match) where
  join-SocketOk :
      (i : ℕ) (room : Room) (k : Socket)
      → RoomOk c k.user room
      → SocketOk c (i, k)
      → SocketOk c (i, join room k)
  unfolding join
  join-SocketOk i room k allowed h = elim (Bool-cases (any (same_room room) k.rooms)) [
    | inl there ↦ rw there h
    | inr new ↦ rw new (All-append (RoomOk c k.user) k.rooms (room ∷ []) h (allowed, tt))
  ]

  join_user-SocketOk :
      (i user : ℕ) (k : Socket) → SocketOk c (i, k) → SocketOk c (i, join_user user k)
  unfolding join_user
  join_user-SocketOk i user k h = elim (Bool-cases (user == k.user)) [
    | inl same ↦ rw same (join-SocketOk i (user_room user) k ((==_iff user k.user).0 same) h)
    | inr other ↦ rw other h
  ]

  is_party_sound :
      (m : Match) (user : ℕ) → is_party m user ≡ true → (m.carrier ≡ user) ⊎ (m.sender ≡ user)
  is_party_sound m user h = elim (Bool-cases (m.carrier == user)) [
    | inl carries ↦ inl ((==_iff m.carrier user).0 carries)
    | inr not_carrier ↦ inr ((==_iff m.sender user).0 (rw not_carrier at h))
  ]

  join_if_party-SocketOk :
      (o : Option Match) (i match : ℕ) (k : Socket)
      → find_by_id match c ≡ o
      → SocketOk c (i, k)
      → SocketOk c (i, join_if_party o match k)
  unfolding join_if_party
  join_if_party-SocketOk none i match k found h = h
  join_if_party-SocketOk (some m) i match k found h = elim (Bool-cases (is_party m k.user)) [
    | inl party ↦
        rw party (join-SocketOk i (match_room match) k (m, found, is_party_sound m k.user party) h)
    | inr stranger ↦ rw stranger h
  ]

  -- Who is in the room of a match is a party of it.
  in_room-IsPartyOf :
      (match user : ℕ) (rooms : List Room)
      → All (RoomOk c user) rooms
      → any (same_room (match_room match)) rooms ≡ true
      → IsPartyOf c match user
  in_room-IsPartyOf match user (match_room k ∷ rooms) h there = elim (Bool-cases (match == k)) [
    | inl same ↦ rw ((==_iff match k).0 same) (h.0)
    | inr other ↦ in_room-IsPartyOf match user rooms h.1 (rw other at there)
  ]
  in_room-IsPartyOf match user (user_room k ∷ rooms) h there =
      in_room-IsPartyOf match user rooms h.1 there
  in_room-IsPartyOf match user (trip_room k ∷ rooms) h there =
      in_room-IsPartyOf match user rooms h.1 there
  in_room-IsPartyOf match user (named_room k ∷ rooms) h there =
      in_room-IsPartyOf match user rooms h.1 there
  in_room-IsPartyOf match user [] h there = absurd (cc)

  deliver-DeliveryOk :
      (m : Match) (sender : ℕ) (p : Position) (d : Collection Socket)
      → find_by_id p.match c ≡ some m
      → m.carrier ≡ sender
      → All (SocketOk c) d
      → All (DeliveryOk c) (deliver sender p d)
  unfolding deliver
  deliver-DeliveryOk m sender p [] found carries h = tt
  deliver-DeliveryOk m sender p ((i, k) ∷ d) found carries h =
      let rest = deliver-DeliveryOk m sender p d found carries h.1 in
      elim (Bool-cases (any (same_room (match_room p.match)) k.rooms)) [
        | inl there ↦
            rw there
              ((in_room-IsPartyOf p.match k.user k.rooms h.0 there, (m, found, carries)), rest)
        | inr away ↦ rw away rest
      ]

  send_on-IsPrivate :
      (o : Option Match) (p : Position) (q : Option Socket) (w : Sockets)
      → find_by_id p.match c ≡ o
      → IsPrivate (record { matches = c; live = w })
      → IsPrivate (record { matches = c; live = send_on o p q w })
  unfolding send_on
  send_on-IsPrivate none p q w found h = h
  send_on-IsPrivate (some m) p none w found h = h
  send_on-IsPrivate (some m) p (some k) w found h = elim (Bool-cases (m.carrier == k.user)) [
    | inl carries ↦
        let sent =
          deliver-DeliveryOk m k.user p w.sockets found ((==_iff m.carrier k.user).0 carries) h.0 in
        rw carries (
          h.0,
          All-append (DeliveryOk c) (w.log ++ deliver k.user p w.sockets) _
              (All-append (DeliveryOk c) w.log _ h.1 sent) sent,
        )
    | inr other ↦ rw other h
  ]

  on_message-IsPrivate :
      (now socket : ℕ) (m : Message) (w : Sockets)
      → IsPrivate (record { matches = c; live = w })
      → IsPrivate (record { matches = c; live = on_message c now socket m w })
  unfolding on_message join_match location_update
  on_message-IsPrivate now socket (ask_user user) w h = (
    update_by_id-All (SocketOk c) socket (join_user user) (λ i k. join_user-SocketOk i user k)
        w.sockets h.0,
    h.1,
  )
  on_message-IsPrivate now socket (ask_match match) w h = (
    update_by_id-All (SocketOk c) socket (join_match c match)
        (λ i k. join_if_party-SocketOk (find_by_id match c) i match k refl) w.sockets h.0,
    h.1,
  )
  on_message-IsPrivate now socket (send_location lat lng match) w h =
      send_on-IsPrivate (find_by_id match c) _ (find_by_id socket w.sockets) w refl h

  open_socket-IsPrivate :
      (o : Option TokenPayload) (w : Sockets)
      → IsPrivate (record { matches = c; live = w })
      → IsPrivate (record { matches = c; live = open_socket o w })
  unfolding open_socket insert
  open_socket-IsPrivate none w h = h
  open_socket-IsPrivate (some p) w h =
      (All-append (SocketOk c) w.sockets _ h.0 ((refl, tt), tt), h.1)

-- What is written to the matches elsewhere does not matter while they keep their parties.
module _ (c d : Collection Match) (keeps : KeepsParties c d) where
  IsPartyOf-kept : (match user : ℕ) → IsPartyOf c match user → IsPartyOf d match user
  IsPartyOf-kept match user (m, found, party) =
      let (n, there, same_carrier, same_sender) = keeps match m found in
      (n, there, rw (same_carrier, same_sender) party)

  RoomOk-kept : (user : ℕ) (room : Room) → RoomOk c user room → RoomOk d user room
  RoomOk-kept user (user_room k) h = h
  RoomOk-kept user (match_room k) h = IsPartyOf-kept k user h
  RoomOk-kept user (trip_room k) h = tt
  RoomOk-kept user (named_room k) h = tt

  DeliveryOk-kept : (x : Delivery) → DeliveryOk c x → DeliveryOk d x
  DeliveryOk-kept x (party, (m, found, carries)) =
      let (n, there, same_carrier, same_sender) = keeps x.position.match m found in
      (IsPartyOf-kept x.position.match x.receiver party, (n, there, same_carrier ∙ carries))

  IsPrivate-kept :
      (w : Sockets)
      → IsPrivate (record { matches = c; live = w })
      → IsPrivate (record { matches = d; live = w })
  IsPrivate-kept w h = (
    All-map (λ x. All-map (RoomOk-kept x.1.user) x.1.rooms) w.sockets h.0,
    All-map DeliveryOk-kept w.log h.1,
  )

module _ (jwt : Jwt) where
  Step-IsPrivate : (w x : World) → Step jwt w x → IsPrivate w → IsPrivate x
  unfolding connect disconnect
  Step-IsPrivate w x (connects now token) h =
      open_socket-IsPrivate w.matches (jwt.verify TokenKind.access now token) w.live h
  Step-IsPrivate w x (sends now socket m) h = on_message-IsPrivate w.matches now socket m w.live h
  Step-IsPrivate w x (leaves socket) h =
      (without_id-All (SocketOk w.matches) socket w.live.sockets h.0, h.1)
  Step-IsPrivate w x (writes c keeps) h = IsPrivate-kept w.matches c keeps w.live h

  Run-IsPrivate : (w x : World) → Run jwt w x → IsPrivate w → IsPrivate x
  Run-IsPrivate w x here h = h
  Run-IsPrivate w x (after v y run step) h = Step-IsPrivate v x step (Run-IsPrivate w v run h)

-- Whatever connects, is sent, ends or is written, in any order: a position of a match has come from
-- its carrier, and has gone to its carrier or its sender only.
pub positions_private :
    (jwt : Jwt) (w x : World)
    → Run jwt w x
    → w.live.sockets ≡ []
    → w.live.log ≡ []
    → All (DeliveryOk x.matches) x.live.log
positions_private jwt w x run alone quiet =
    (Run-IsPrivate jwt w x run (rw (alone, quiet) (tt, tt))).1
