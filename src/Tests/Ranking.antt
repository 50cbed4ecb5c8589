-- ===== src/Tests/Ranking.antt =====
-- A run of the ranking of backend/src/services/matching.service.ts: of three trips the routing
-- search names the last, and one that is not a candidate.
use hop_drop.Matching.Ranking.Once.{NamesOnce, rank-Unique}
use hop_drop.Collection.{Unique, find_by_id, Collection}
use hop_drop.Matching.Ranking.{IsCandidate, rank-IsCandidate}
use hop_drop.Common.{ℕ, All, ◌≡◌, refl, [], some, ◌∷◌, none, List}
use hop_drop.Matching.{
  named, ranked_id, push_found, remainder, ordered, CandidateRanking, rank_found,
  rank_with_routing_search,
}
use hop_drop.Tests.Fixtures.{demo_trip}
use hop_drop.Model.Trip.{Trip}

abbrev three_trips : Collection Trip
three_trips = (3, demo_trip) ∷ (4, demo_trip) ∷ (5, demo_trip) ∷ []

abbrev routing_answer : List CandidateRanking
routing_answer =
    record { candidate_id = 5; document_id = none }
    ∷ record { candidate_id = 0; document_id = some 9 }
    ∷ []

abbrev ranked_trips : Collection Trip
ranked_trips = (5, demo_trip) ∷ (3, demo_trip) ∷ (4, demo_trip) ∷ []

three_trips-Unique : Unique three_trips
unfolding find_by_id
three_trips-Unique = (refl, (refl, (refl, tt)))

routing_answer-NamesOnce : NamesOnce routing_answer
unfolding ranked_id named
routing_answer-NamesOnce = (refl, (refl, tt))

rank-Unique_example : Unique ranked_trips
unfolding rank_with_routing_search rank_found ordered remainder push_found ranked_id named
    find_by_id
rank-Unique_example =
    rank-Unique routing_answer three_trips ranked_trips routing_answer-NamesOnce three_trips-Unique
      refl

rank-IsCandidate_example :
    All (IsCandidate three_trips) ranked_trips
    × ((k : ℕ) → find_by_id k ranked_trips ≡ find_by_id k three_trips)
unfolding rank_with_routing_search rank_found ordered remainder push_found ranked_id named
    find_by_id
rank-IsCandidate_example =
    rank-IsCandidate (some routing_answer) three_trips ranked_trips three_trips-Unique refl
