-- ===== src/Matching/Proposals.antt =====
-- The proposal of a match between a trip and a delivery request in
-- backend/src/services/matching.service.ts. An account is never removed from the database, so the
-- carrier of a trip is found where the code has it populated. The outcomes of the code's races are
-- those of its transaction; the index of backend/src/models/Match.ts refuses a second match of a pair.
use hop_drop.Delivery.Requests.{request_payload, request_event}
use hop_drop.Json.{text, obj, end, num, field}
use hop_drop.Model.OutboxEvent.{Topic}
use hop_drop.Notify.{emit_to_trip, emit_to_user, notify_user, append_outbox_events}
use hop_drop.Common.{
  suc, none, true, [], ok, duplicate_key, false, ◌∷◌, Error, Option, Result, err, some, ◌++◌, any,
  ◌&&◌, if◌then◌else◌, ⊤, ◌==◌, Bool, List, ℕ,
}
use hop_drop.Collection.{insert, find_one, find_by_id, update_by_id, exists}
use hop_drop.Messages.{new_request_text}
use hop_drop.Model.DeliveryRequest.{matched, DeliveryRequest}
use hop_drop.MatchService.Status.{set_request_status, timeline_entry}
use hop_drop.Model.Match.{TimelineEvent, Match, new_match}
use hop_drop.Store.{Store, gets, require, throw, pure, ◌>>=◌, ◌>>◌, modify, Action}
use hop_drop.Transactions.{run_in_transaction, is_transaction_unsupported}
use hop_drop.Outbox.{AppendOutboxEventInput}
use hop_drop.Pricing.{Quote, calculate_quote}
use hop_drop.Model.Trip.{Trip}
use hop_drop.Env.{Env}

-- Whether a match pairs this trip with this request: the unique index of the collection.
unfoldable pub is_pair : ℕ → ℕ → Match → Bool
is_pair trip request m = m.trip == trip && m.delivery_request == request

-- The document of a proposal.
unfoldable pub proposed_match : ℕ → ℕ → Trip → ℕ → DeliveryRequest → Quote → Match
unfolding new_match
proposed_match now trip t request r quote =
    new_match trip request t.carrier r.sender quote.total_charge (some quote.carrier_earning) (
      timeline_entry now TimelineEvent.match_proposed t.carrier
        (some (obj (field "totalCharge" (num quote.total_charge) end))))

-- `Match.create`
unfoldable pub create_match : Match → Action ℕ
unfolding is_pair
create_match m s =
    if exists (is_pair m.trip m.delivery_request) s.matches then (err duplicate_key, s) else (
      ok s.next_id,
      record s { matches = insert s.next_id m s.matches; next_id = suc s.next_id },
    )

-- `$addToSet: { matches: match }` on the trip
abbrev add_to_set : ℕ → List ℕ → List ℕ
add_to_set k ks = if any (λ j. j == k) ks then ks else ks ++ k ∷ []

unfoldable pub add_match_to_trip : ℕ → ℕ → Action ⊤
add_match_to_trip trip match = modify (λ s. record s {
  trips = update_by_id trip (λ t. record t { matches = add_to_set match t.matches }) s.trips;
})

-- The two events of a proposal.
abbrev proposal_events : ℕ → ℕ → Trip → ℕ → DeliveryRequest → Quote → List AppendOutboxEventInput
proposal_events match trip t request r quote =
    record {
      topic = Topic.match;
      event_type = "MatchProposed";
      aggregate_type = "match";
      aggregate_id = match;
      partition_key = some match;
      payload = field "matchId" (num match) (
          field "tripId" (num trip) (
            field "deliveryRequestId" (num request) (
              field "carrierId" (num t.carrier) (
                field "senderId" (num r.sender) (
                  field "status" (text "proposed") (
                    field "agreedPrice" (num quote.total_charge)
                      (field "payoutToCarrier" (num quote.carrier_earning) end)))))));
      headers = none;
      available_at = none;
    }
    ∷ request_event "DeliveryUpdated" request (
        request_payload request (record r { status = matched })
          (field "updates" (obj (field "status" (text "matched") end)) end))
    ∷ []

-- `appendMatchProposalOutbox`
unfoldable pub append_match_proposal_outbox : ℕ → ℕ → Trip → ℕ → DeliveryRequest → Quote → Action ⊤
append_match_proposal_outbox match trip t request r quote =
    append_outbox_events (proposal_events match trip t request r quote)

module _ (env : Env) where
  -- `emitMatchProposalCreated`
  unfoldable pub emit_match_proposal_created : ℕ → Trip → ℕ → DeliveryRequest → ℕ → Action ⊤
  emit_match_proposal_created trip t request r match = do
    let payload = field "matchId" (num match) (field "deliveryRequestId" (num request) end)
    notify_user env t.carrier "New Delivery Match"
        (new_request_text r.origin.city r.destination.city) "match"
        (some (field "matchId" (num match) end))
    emit_to_user env t.carrier "match:proposed" payload
    emit_to_trip env trip "match:proposed" payload

module _ (trip : ℕ) (t : Trip) (request : ℕ) (r : DeliveryRequest) (quote : Quote) where
  -- The body of the transaction of `createMatchProposal`.
  unfoldable pub proposal_body : Action (ℕ × Match)
  unfolding create_match add_match_to_trip append_match_proposal_outbox proposed_match
  proposal_body = do
    now ← gets (λ s. s.now)
    let m = proposed_match now trip t request r quote
    match ← create_match m
    add_match_to_trip trip match
    set_request_status request matched
    append_match_proposal_outbox match trip t request r quote
    pure (match, m)

  -- `Match.findOne` with the pair
  unfoldable pub find_pair : Action (Option (ℕ × Match))
  unfolding is_pair
  find_pair = gets (λ s. find_one (is_pair trip request) s.matches)

  -- The match that `createMatchWithoutTransaction` found or made, and whether it was made. Where
  -- the index refuses it, somebody else's is looked for.
  unfoldable pub created_or_found : Result ℕ × Store → Match → Action (Bool × Option (ℕ × Match))
  unfolding find_pair
  created_or_found (ok match, s1) m s = (ok (true, some (match, m)), s1)
  created_or_found (err duplicate_key, s1) m s = (find_pair >>= λ found. pure (false, found)) s1
  created_or_found (err e, s1) m s = (err e, s1)

  unfoldable pub find_or_create : Option (ℕ × Match) → Action (Bool × Option (ℕ × Match))
  unfolding create_match proposed_match created_or_found
  find_or_create (some found) s = (ok (false, some found), s)
  find_or_create none s =
      let m = proposed_match s.now trip t request r quote in created_or_found (create_match m s) m s

  module _ (env : Env) where
    unfoldable pub announce_if_created : Bool → ℕ → Action ⊤
    unfolding append_match_proposal_outbox emit_match_proposal_created
    announce_if_created false match = pure tt
    announce_if_created true match = do
      append_match_proposal_outbox match trip t request r quote
      emit_match_proposal_created env trip t request r match

    -- `createMatchWithoutTransaction`
    unfoldable pub create_match_without_transaction : Action (ℕ × Match)
    unfolding find_pair find_or_create add_match_to_trip announce_if_created
    create_match_without_transaction = do
      there ← find_pair
      outcome ← find_or_create there
      match ← require outcome.1 500 "Unable to create match proposal"
      add_match_to_trip trip match.0
      set_request_status request matched
      announce_if_created outcome.0 match.0
      pure match

    -- The end of the `catch` of `createMatchProposal`.
    unfoldable pub without_transaction_or_throw : Error → Action (ℕ × Match)
    unfolding is_transaction_unsupported create_match_without_transaction
    without_transaction_or_throw e =
        if is_transaction_unsupported e then create_match_without_transaction else throw e

    unfoldable pub existing_or : Error → Option (ℕ × Match) → Action (ℕ × Match)
    unfolding without_transaction_or_throw
    existing_or e none = without_transaction_or_throw e
    existing_or e (some found) = pure found

    unfoldable pub recover_proposal : Error → Action (ℕ × Match)
    unfolding existing_or without_transaction_or_throw find_pair
    recover_proposal duplicate_key = find_pair >>= existing_or duplicate_key
    recover_proposal e = without_transaction_or_throw e

    unfoldable pub after_proposal : Result (ℕ × Match) × Store → Result (ℕ × Match) × Store
    unfolding emit_match_proposal_created recover_proposal
    after_proposal (ok match, s) =
        (emit_match_proposal_created env trip t request r match.0 >> pure match) s
    after_proposal (err e, s) = recover_proposal e s

-- `createMatchProposal`
unfoldable pub create_match_proposal : Env → ℕ × Trip → ℕ × DeliveryRequest → Action (ℕ × Match)
unfolding proposal_body after_proposal
create_match_proposal env (trip, t) (request, r) s =
    let quote =
      calculate_quote env t.price_per_kg (find_by_id t.carrier s.users) r.preferred_delivery_window
        r.parcel in
    after_proposal trip t request r quote env
      (run_in_transaction env.topology (proposal_body trip t request r quote) s)
