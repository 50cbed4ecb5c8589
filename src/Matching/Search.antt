-- ===== src/Matching/Search.antt =====
-- `findMatches` and `matchTripAgainstPendingRequests` of
-- backend/src/services/matching.service.ts: the candidates of a request or of a trip, by the routing
-- search or by the cities, and the proposals that are made. The answers of the routing search are
-- arguments: one to the retrieval, and one to the ranking of given candidates. `in_city` is the
-- database's search for the name of a city. `Promise.all` starts every proposal: here they run in
-- order, and the first error is the answer.
use hop_drop.Delivery.Requests.{is_active_trip, is_pending_request}
use hop_drop.Matching.{ranked_id, ordered, rank_with_routing_search, CandidateRanking}
use hop_drop.Common.Int.{◌+ℤ◌, ltb_ℤ, ◌-ℤ◌, pos, ℤ}
use hop_drop.Common.{
  ◌+◌, none, some, map, err, take, ok, ◌*◌, any, false, ◌==◌, [], if◌then◌else◌, leb, not, true,
  ◌&&◌, Bool, ◌∷◌, List, Option, Result, String, ℕ,
}
use hop_drop.Store.{require, gets, pure, ◌>>=◌, Action, Store}
use hop_drop.Matching.Proposals.{create_match_proposal}
use hop_drop.Collection.{find_by_id, find_all, Collection}
use hop_drop.Model.Trip.{same_category, Trip}
use hop_drop.Model.Match.{Match}
use hop_drop.Model.User.{User}
use hop_drop.Env.{Env}
use hop_drop.Model.DeliveryRequest.{DeliveryRequest, PaymentStatus}

-- What a trip has to offer to be proposed for a request.
unfoldable pub takes_package : DeliveryRequest → Trip → Bool
takes_package r t =
    leb r.preferred_delivery_window.earliest t.departure_time
    && leb t.departure_time r.preferred_delivery_window.latest
    && is_active_trip t.status
    && t.safety_deposit_paid
    && leb r.parcel.weight_g t.available_capacity.weight_g
    && any (same_category r.parcel.category) t.available_capacity.allowed_categories

abbrev pub same_cities : (String → String → Bool) → DeliveryRequest → Trip → Bool
same_cities in_city r t =
    in_city r.origin.city t.origin.city && in_city r.destination.city t.destination.city

abbrev pub is_payable : PaymentStatus → Bool
is_payable PaymentStatus.unpaid = true
is_payable PaymentStatus.paid = true
is_payable _ = false

-- What a request has to be to be proposed to the carrier of a trip.
unfoldable pub fits_trip : Trip → DeliveryRequest → Bool
fits_trip t r =
    is_pending_request r.status
    && is_payable r.payment_status
    && leb r.parcel.weight_g t.available_capacity.weight_g
    && any (same_category r.parcel.category) t.available_capacity.allowed_categories
    && leb r.preferred_delivery_window.earliest t.departure_time
    && leb t.departure_time r.preferred_delivery_window.latest

-- `find` with `_id: { $in: ids }`
unfoldable pub find_in : {A : Type 0} → List ℕ → (A → Bool) → Collection A → Collection A
find_in ids p [] = []
find_in ids p ((k, a) ∷ c) =
    let rest = find_in ids p c in if any (λ j. j == k) ids && p a then (k, a) ∷ rest else rest

-- The retrieval by the routing search: nothing where it has no answer, or an empty one; otherwise
-- the candidates of the database, in the order of the answer.
unfoldable pub retrieve_with_routing_search :
    {A : Type 0} → Option (List CandidateRanking) → (A → Bool) → Collection A → Collection A
unfolding find_in
retrieve_with_routing_search none p c = []
retrieve_with_routing_search (some xs) p c = ordered xs (find_in (map ranked_id xs) p c)

-- The score of `scoreTrip` (backend/src/utils/tripMatcher.ts), times 18000000: a trip in five
-- times the milliseconds to its departure, up to a day; a hundredth of a star counts a twentieth,
-- and a rupee a thousandth.
unfoldable pub score_trip : ℕ → Option User → Trip → DeliveryRequest → ℤ
score_trip now carrier t r =
    let until = pos t.departure_time -ℤ pos now in
    let day : ℕ = 24 * 60 * 60 * 1000 in
    let capped = if ltb_ℤ until (pos day) then until else pos day in
    let average : ℕ = elim carrier [ none ↦ 500 | some u ↦ u.rating.average ] in
    pos (1800000000 + average * 900000)
    -ℤ (capped +ℤ capped +ℤ capped +ℤ capped +ℤ capped)
    -ℤ pos (t.price_per_kg * r.parcel.weight_g * 18)

-- `sort((a, b) => b.score - a.score)`, which is stable.
unfoldable pub insert_by_score : {A : Type 0} → (A → ℤ) → A → List A → List A
insert_by_score score a [] = a ∷ []
insert_by_score score a (b ∷ bs) =
    if ltb_ℤ (score a) (score b) then b ∷ insert_by_score score a bs else a ∷ b ∷ bs

unfoldable pub sort_by_score : {A : Type 0} → (A → ℤ) → List A → List A
unfolding insert_by_score
sort_by_score score [] = []
sort_by_score score (a ∷ rest) = insert_by_score score a (sort_by_score score rest)

-- What was ranked, if anything was; otherwise by the score.
unfoldable pub ranked_or_scored :
    Option (Collection Trip) → (ℕ × Trip → ℤ) → Collection Trip → Collection Trip
unfolding sort_by_score
ranked_or_scored (some (x ∷ xs)) score c = x ∷ xs
ranked_or_scored _ score c = sort_by_score score c

-- `rankedRequests || requests`
abbrev pub ranked_or_all :
    Option (Collection DeliveryRequest) → Collection DeliveryRequest → Collection DeliveryRequest
ranked_or_all none c = c
ranked_or_all (some ranked) c = ranked

-- What was retrieved, if anything was.
abbrev pub found_or : {A : Type 0} → Collection A → Collection A → Collection A
found_or [] others = others
found_or (x ∷ xs) others = x ∷ xs

module _ (in_city : String → String → Bool)
    (retrieved ranked : Option (List CandidateRanking)) where
  -- The candidates of `findMatches`, of which the first five are proposed.
  unfoldable pub trip_candidates : DeliveryRequest → Store → Collection Trip
  unfolding takes_package retrieve_with_routing_search score_trip ranked_or_scored
  trip_candidates r s =
      let others = λ (t : Trip). not (t.carrier == r.sender) in
      let found =
        retrieve_with_routing_search retrieved (λ t. takes_package r t && others t) s.trips in
      let valid =
        find_all (λ t. same_cities in_city r t && takes_package r t && others t) s.trips in
      let score = λ (x : ℕ × Trip). score_trip s.now (find_by_id x.1.carrier s.users) x.1 r in
      found_or found (ranked_or_scored (rank_with_routing_search ranked valid) score valid)

  -- The candidates of `matchTripAgainstPendingRequests`.
  unfoldable pub request_candidates : Trip → Store → Collection DeliveryRequest
  unfolding fits_trip retrieve_with_routing_search
  request_candidates t s =
      let found = retrieve_with_routing_search retrieved (fits_trip t) s.requests in
      let requests =
        find_all (λ r. fits_trip t r && same_cities (λ a b. in_city b a) r t) s.requests in
      found_or found (ranked_or_all (rank_with_routing_search ranked requests) requests)

-- The answer of the first action, and then those of the others, which run whatever it is.
abbrev pub gather : {A : Type 0} → Result A → Result (List A) × Store → Result (List A) × Store
gather (ok a) (ok rest, s) = (ok (a ∷ rest), s)
gather (ok a) (err e, s) = (err e, s)
gather (err e) (_, s) = (err e, s)

module _ (env : Env) where
  -- `Promise.all(trips.map((trip) => createMatchProposal(trip, req)))`
  unfoldable pub propose_trips : ℕ × DeliveryRequest → Collection Trip → Action (List (ℕ × Match))
  propose_trips request [] s = (ok [], s)
  propose_trips request (trip ∷ trips) s =
      let first = create_match_proposal env trip request s in
      gather first.0 (propose_trips request trips first.1)

  -- The loop over the requests of a trip: a carrier's own are passed over.
  unfoldable pub propose_requests :
      ℕ × Trip → Collection DeliveryRequest → Action (List (ℕ × Match))
  propose_requests trip [] = pure []
  propose_requests trip ((k, r) ∷ requests) =
      let rest = propose_requests trip requests in
      if r.sender == trip.1.carrier then rest else (do
        match ← create_match_proposal env trip (k, r)
        matches ← rest
        pure (match ∷ matches))

  module _ (in_city : String → String → Bool)
      (retrieved ranked : Option (List CandidateRanking)) where
    -- `findMatches`
    unfoldable pub find_matches : ℕ → Action (List (ℕ × Match))
    unfolding trip_candidates propose_trips
    find_matches request = do
      found ← gets (λ s. find_by_id request s.requests)
      r ← require found 404 "Delivery request not found"
      trips ← gets (trip_candidates in_city retrieved ranked r)
      propose_trips (request, r) (take 5 trips)

    -- `matchTripAgainstPendingRequests`
    unfoldable pub match_trip_against_pending_requests : ℕ → Action (List (ℕ × Match))
    unfolding request_candidates propose_requests
    match_trip_against_pending_requests trip = do
      found ← gets (λ s. find_by_id trip s.trips)
      t ← require found 404 "Trip not found"
      requests ← gets (request_candidates in_city retrieved ranked t)
      propose_requests (trip, t) requests

-- What starts a search: the job of a request, or a trip that is posted or opened again.
pub data Search : Type 0 where
  for_request for_trip : ℕ → Search

unfoldable pub run_search :
    Env
    → (String → String → Bool)
    → Option (List CandidateRanking)
    → Option (List CandidateRanking)
    → Search
    → Action (List (ℕ × Match))
run_search env in_city retrieved ranked (for_request request) =
    find_matches env in_city retrieved ranked request
run_search env in_city retrieved ranked (for_trip trip) =
    match_trip_against_pending_requests env in_city retrieved ranked trip
