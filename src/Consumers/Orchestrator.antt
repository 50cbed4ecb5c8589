-- ===== src/Consumers/Orchestrator.antt =====
-- services/matching-orchestrator/src/server.ts: the events after which a search is asked of the
-- backend, over backend/src/routes/internal.routes.ts.
use hop_drop.Consumers.{no_value, unreadable, readable}
use hop_drop.Matching.Search.{for_trip, for_request, run_search, Search}
use hop_drop.Store.{pure, ◌>>=◌, Action}
use hop_drop.Common.{
  not, length, str_eq, if◌then◌else◌, some, List, none, ℕ, ◌||◌, Option, Bool, String,
}
use hop_drop.Consumers.{is_text, get_inner, id_or, RawMessage, is_true, get_field}
use hop_drop.Model.OutboxEvent.{Topic}
use hop_drop.Matching.{CandidateRanking}
use hop_drop.Json.{Fields}
use hop_drop.Outbox.Relay.{KafkaMessage}
use hop_drop.Env.{Env}

-- `safetyDepositPaid` of an event of a trip
unfoldable pub deposit_is_paid : Fields → Bool
unfolding get_field
deposit_is_paid payload =
    is_true (get_field "safetyDepositPaid" payload)
    || is_true (get_field "safety_deposit_paid" payload)
    || is_true (get_inner "updates" "safetyDepositPaid" payload)
    || is_true (get_inner "updates" "safety_deposit_paid" payload)

-- `handleMessage`: the search that is asked for, if the event is not skipped.
unfoldable pub search_for : KafkaMessage → Option Search
unfolding deposit_is_paid get_field
search_for m = search_on m.topic
  where
    request : ℕ
    request = id_or (get_field "requestId" m.payload) m.aggregate_id

    trip : ℕ
    trip = id_or (get_field "tripId" m.payload) m.aggregate_id

    search_on : Topic → Option Search
    search_on Topic.delivery =
        if is_text (get_field "status" m.payload) "cancelled"
        then none
        else if str_eq m.event_type "DeliveryRequested" || str_eq m.event_type "DeliveryUpdated"
        then some (for_request request)
        else none
    search_on Topic.payment =
        if str_eq m.event_type "DeliveryPaid" then some (for_request request) else none
    search_on Topic.trip =
        if not (is_text (get_field "status" m.payload) "active") || not (deposit_is_paid m.payload)
        then none
        else if str_eq m.event_type "TripPosted" || str_eq m.event_type "TripUpdated"
        then some (for_trip trip)
        else none
    search_on _ = none

-- What is counted of a message.
pub data Outcome : Type 0 where
  parse_failed skipped : Outcome
  triggered failed : Search → Outcome

unfoldable pub outcome_of : (Search → Bool) → Option Search → Outcome
outcome_of call none = skipped
outcome_of call (some s) = if call s then triggered s else failed s

-- `eachMessage`; `call` says whether the backend answers. After a failure the error is thrown on.
unfoldable pub each_message : (Search → Bool) → RawMessage → Option Outcome
unfolding search_for outcome_of
each_message call no_value = none
each_message call unreadable = some parse_failed
each_message call (readable m) = some (outcome_of call (search_for m))

-- The answer of the backend to the request for a search: the number of its matches.
unfoldable pub internal_matching :
    Env
    → (String → String → Bool)
    → Option (List CandidateRanking)
    → Option (List CandidateRanking)
    → Search
    → Action ℕ
internal_matching env in_city retrieved ranked search = do
  matches ← run_search env in_city retrieved ranked search
  pure (length matches)
