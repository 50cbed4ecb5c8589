-- ===== src/Matching/Fitness.antt =====
-- What backend/src/services/matching.service.ts proposes: only pairs that fit, and each pair once.
use hop_drop.Matching.Search.{
  Search, run_search, match_trip_against_pending_requests, find_matches, fits_trip, ranked_or_all,
  request_candidates, same_cities, ranked_or_scored, trip_candidates, takes_package,
}
use hop_drop.Matching.Growth.{propose_requests-Holds, propose_trips-Holds, GrowsBy}
use hop_drop.Matching.Candidates.{
  All-imp, rank-All, find_in-FoundBy, take-All, retrieve-All, found_or-All, find_all-FoundBy,
  FoundBy-weaken, sort_by_score-All, FoundBy,
}
use hop_drop.Env.{Env}
use hop_drop.Common.{
  false, take, String, refl, Bool, not, ◌&&◌, Option, none, List, arith, ◌==◌, ==_iff, Bool-cases,
  All, ◌≢◌, inl, inr, true, [], ◌∷◌, any, ◌≤◌, ◌⊎◌, some, ◌≡◌, ℕ,
}
use hop_drop.Collection.{find_all, Unique, Collection, insert, find_by_id}
use hop_drop.Common.Int.{ℤ}
use hop_drop.Pricing.{Quote}
use hop_drop.Matching.Proposals.{proposed_match}
use hop_drop.Matching.{CandidateRanking}
use mathlib.Core.Path.{subst}
use hop_drop.Model.Trip.{same_category, Trip}
use hop_drop.Model.DeliveryRequest.{DeliveryRequest}
use hop_drop.Model.Match.{Match}
use hop_drop.Store.{Store}

-- The trip of a match takes the package of its request along: it leaves within the window, has room
-- for the weight, allows the category, and belongs to somebody else than the sender.
abbrev pub Fits : Store → Match → Type 0
Fits s m =
    (t : Trip) × (r : DeliveryRequest) × (find_by_id m.trip s.trips ≡ some t)
    × (find_by_id m.delivery_request s.requests ≡ some r)
    × (r.preferred_delivery_window.earliest ≤ t.departure_time)
    × (t.departure_time ≤ r.preferred_delivery_window.latest)
    × (r.parcel.weight_g ≤ t.available_capacity.weight_g)
    × (any (same_category r.parcel.category) t.available_capacity.allowed_categories ≡ true)
    × (t.carrier ≢ r.sender)
    × (m.carrier ≡ t.carrier)
    × (m.sender ≡ r.sender)

-- Every match of a collection was there before, or fits.
abbrev pub NewOnesFit : Store → Collection Match → Type 0
NewOnesFit s c =
    (k : ℕ) (m : Match) → find_by_id k c ≡ some m → (find_by_id k s.matches ≡ some m) ⊎ Fits s m

pub find_by_id-insert_cases :
    {A : Type 0} (k n : ℕ) (a b : A) (c : Collection A)
    → find_by_id k (insert n a c) ≡ some b
    → (find_by_id k c ≡ some b) ⊎ ((n ≡ k) × (a ≡ b))
unfolding find_by_id insert
find_by_id-insert_cases k n a b [] h = elim (Bool-cases (n == k)) [
  | inl same ↦ inr ((==_iff n k).0 same, cc (rw same at h))
  | inr other ↦ cc (rw other at h)
]
find_by_id-insert_cases k n a b ((j, x) ∷ c) h = elim (Bool-cases (j == k)) [
  | inl same ↦ inl (rw same (rw same at h))
  | inr other ↦ rw other (find_by_id-insert_cases k n a b c (rw other at h))
]

new_one-Fits : (s : Store) (m : Match) → Fits s m → GrowsBy (λ c n. NewOnesFit s c) m
new_one-Fits s m fits c n old free k b e = elim (find_by_id-insert_cases k n m b c e) [
  | inl before ↦ old k b before
  | inr (_, same) ↦ inr (subst (Fits s) same fits)
]

-- A trip that a request may be proposed to, as the queries ask for it.
abbrev Offered : Store → DeliveryRequest → ℕ × Trip → Type 0
Offered s r = FoundBy (λ t. takes_package r t && not (t.carrier == r.sender)) s.trips

Offered-Fits :
    (s : Store) (request : ℕ) (r : DeliveryRequest) (x : ℕ × Trip) (now : ℕ) (quote : Quote)
    → find_by_id request s.requests ≡ some r
    → Offered s r x
    → Fits s (proposed_match now x.0 x.1 request r quote)
unfolding takes_package proposed_match
Offered-Fits s request r (k, t) now quote there (stored, taken) = (
  t,
  r,
  stored,
  there,
  ground arith,
  ground arith,
  ground arith,
  ground arith,
  ground arith,
  refl,
  refl,
)

and_later : (a b c : Bool) → a && b && c ≡ true → b && c ≡ true
and_later a b c h = ground arith

and_first : (a b : Bool) → a && b ≡ true → a ≡ true
and_first a b h = ground arith

module _ (in_city : String → String → Bool)
    (retrieved ranked : Option (List CandidateRanking)) where
  ranked_or_scored-All {ℓ} :
      (P : ℕ × Trip → Type ℓ) (o : Option (Collection Trip)) (score : ℕ × Trip → ℤ)
      (c : Collection Trip)
      → ((ranked : Collection Trip) → o ≡ some ranked → All P ranked)
      → All P c
      → All P (ranked_or_scored o score c)
  unfolding ranked_or_scored
  ranked_or_scored-All P none score c h hc = sort_by_score-All P score c hc
  ranked_or_scored-All P (some []) score c h hc = sort_by_score-All P score c hc
  ranked_or_scored-All P (some (x ∷ xs)) score c h hc = h (x ∷ xs) refl

  trip_candidates-Offered :
      (r : DeliveryRequest) (s : Store)
      → Unique s.trips
      → All (Offered s r) (trip_candidates in_city retrieved ranked r s)
  unfolding trip_candidates
  trip_candidates-Offered r s u =
      let query = λ (t : Trip). takes_package r t && not (t.carrier == r.sender) in
      let wider =
        λ (t : Trip). same_cities in_city r t && takes_package r t && not (t.carrier == r.sender) in
      let valid =
        FoundBy-weaken wider query s.trips (find_all wider s.trips)
          (λ a.
            and_later (same_cities in_city r a) (takes_package r a) (not (a.carrier == r.sender)))
          (find_all-FoundBy wider s.trips u) in
      found_or-All (Offered s r) _ _
        (retrieve-All (Offered s r) retrieved query s.trips
          (λ ids. find_in-FoundBy ids query s.trips u))
        (ranked_or_scored-All (Offered s r) _ _ _ (λ c. rank-All (Offered s r) ranked _ c valid)
          valid)

  -- A request that a trip may be proposed for, as the queries ask for it.
  abbrev Wanted : Store → Trip → ℕ × DeliveryRequest → Type 0
  Wanted s t = FoundBy (fits_trip t) s.requests

  Wanted-Fits :
      (s : Store) (trip : ℕ) (t : Trip) (x : ℕ × DeliveryRequest) (now : ℕ) (quote : Quote)
      → find_by_id trip s.trips ≡ some t
      → Wanted s t x
      → (x.1.sender == t.carrier) ≡ false
      → Fits s (proposed_match now trip t x.0 x.1 quote)
  unfolding fits_trip proposed_match
  Wanted-Fits s trip t (k, r) now quote there (stored, taken) other = (
    t,
    r,
    there,
    stored,
    ground arith,
    ground arith,
    ground arith,
    ground arith,
    ground arith,
    refl,
    refl,
  )

  ranked_or_all-All {ℓ} :
      (P : ℕ × DeliveryRequest → Type ℓ) (o : Option (Collection DeliveryRequest))
      (c : Collection DeliveryRequest)
      → ((ranked : Collection DeliveryRequest) → o ≡ some ranked → All P ranked)
      → All P c
      → All P (ranked_or_all o c)
  ranked_or_all-All P none c h hc = hc
  ranked_or_all-All P (some ranked) c h hc = h ranked refl

  request_candidates-Wanted :
      (t : Trip) (s : Store)
      → Unique s.requests
      → All (Wanted s t) (request_candidates in_city retrieved ranked t s)
  unfolding request_candidates
  request_candidates-Wanted t s u =
      let wider = λ (r : DeliveryRequest). fits_trip t r && same_cities (λ a b. in_city b a) r t in
      let valid =
        FoundBy-weaken wider (fits_trip t) s.requests (find_all wider s.requests)
          (λ r. and_first (fits_trip t r) (same_cities (λ a b. in_city b a) r t))
          (find_all-FoundBy wider s.requests u) in
      found_or-All (Wanted s t) _ _
        (retrieve-All (Wanted s t) retrieved (fits_trip t) s.requests
          (λ ids. find_in-FoundBy ids (fits_trip t) s.requests u))
        (ranked_or_all-All (Wanted s t) _ _ (λ c. rank-All (Wanted s t) ranked _ c valid) valid)

  module _ (env : Env) (s : Store) where
    propose_for_request :
        (request : ℕ) (found : Option DeliveryRequest)
        → find_by_id request s.requests ≡ found
        → Unique s.trips
        → NewOnesFit s (find_matches env in_city retrieved ranked request s).1.matches
    unfolding find_matches
    propose_for_request request none e u = rw e (λ k m h. inl h)
    propose_for_request request (some r) e u = rw e (
        let trips = trip_candidates in_city retrieved ranked r s in
        propose_trips-Holds (λ c n. NewOnesFit s c) env (request, r) (take 5 trips)
          (take-All _ 5 trips (
            All-imp (Offered s r) _ trips
              (λ x offered now quote.
                new_one-Fits s _ (Offered-Fits s request r x now quote e offered))
              (trip_candidates-Offered r s u)))
          s (λ k m h. inl h))

    propose_for_trip :
        (trip : ℕ) (found : Option Trip)
        → find_by_id trip s.trips ≡ found
        → Unique s.requests
        → NewOnesFit s
            (match_trip_against_pending_requests env in_city retrieved ranked trip s).1.matches
    unfolding match_trip_against_pending_requests
    propose_for_trip trip none e u = rw e (λ k m h. inl h)
    propose_for_trip trip (some t) e u = rw e (
        let requests = request_candidates in_city retrieved ranked t s in
        propose_requests-Holds (λ c n. NewOnesFit s c) env (trip, t) requests
          (All-imp (Wanted s t) _ requests
            (λ x wanted other now quote.
              new_one-Fits s _ (Wanted-Fits s trip t x now quote e wanted other))
            (request_candidates-Wanted t s u))
          s (λ k m h. inl h))

search-Fits :
    (env : Env) (in_city : String → String → Bool)
    (retrieved ranked : Option (List CandidateRanking)) (search : Search) (s : Store)
    → Unique s.trips
    → Unique s.requests
    → NewOnesFit s (run_search env in_city retrieved ranked search s).1.matches
unfolding run_search
search-Fits env in_city retrieved ranked (Search.for_request id) s trips requests =
    propose_for_request in_city retrieved ranked env s id (find_by_id id s.requests) refl trips
search-Fits env in_city retrieved ranked (Search.for_trip id) s trips requests =
    propose_for_trip in_city retrieved ranked env s id (find_by_id id s.trips) refl requests

-- Whatever the routing search answers, a match that `findMatches` or
-- `matchTripAgainstPendingRequests` leaves was there before, or pairs a stored trip with a stored
-- request that fit: the trip leaves within the window of the request, has room for its weight,
-- allows its category, and is not the sender's own; and the match names their carrier and sender.
-- Identifiers of trips and of requests are distinct there.
pub proposals-Fit :
    (env : Env) (in_city : String → String → Bool)
    (retrieved ranked : Option (List CandidateRanking)) (search : Search) (s : Store)
    → Unique s.trips
    → Unique s.requests
    → (k : ℕ) (m : Match)
    → find_by_id k (run_search env in_city retrieved ranked search s).1.matches ≡ some m
    → (find_by_id k s.matches ≡ some m) ⊎ Fits s m
proposals-Fit env in_city retrieved ranked search s trips requests k m e =
    search-Fits env in_city retrieved ranked search s trips requests k m e
