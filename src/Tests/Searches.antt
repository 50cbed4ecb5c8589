-- ===== src/Tests/Searches.antt =====
-- Runs of the searches of backend/src/services/matching.service.ts: a pending request and a trip
-- between the same cities, with no answer of the routing search.
use hop_drop.Matching.Proposals.{
  find_or_create, create_match_without_transaction, is_pair, create_match_proposal, proposed_match,
}
use hop_drop.Model.Match.{new_match, Match}
use hop_drop.Pricing.{Quote, calculate_quote}
use hop_drop.Store.{fails, Store}
use hop_drop.Common.{false, write_conflict, ok, ◌⊎◌, refl, ◌≡◌, none, some, ◌∷◌, [], Bool, String}
use hop_drop.Matching.Fitness.{proposals-Fit, Fits}
use hop_drop.Matching.Search.{for_request, find_matches, run_search}
use hop_drop.Collection.{Unique, insert, update_by_id, find_one, exists, find_all, find_by_id}
use hop_drop.Matching.Pairs.{SameButFaults, repeated_proposal}
use hop_drop.Tests.Fixtures.{
  demo_package, demo_window, demo_env, demo_trip, demo_request, demo_store,
}
use hop_drop.Matching.{rank_with_routing_search}
use text.Mathlib.Text.{◌==◌}
use hop_drop.Model.DeliveryRequest.{PaymentStatus, DeliveryStatus, DeliveryRequest}
use hop_drop.Transactions.{run_in_transaction}

abbrev pending_request : DeliveryRequest
pending_request = record demo_request {
  status = DeliveryStatus.pending;
  payment_status = PaymentStatus.unpaid;
}

abbrev search_store : Store
search_store = record demo_store { matches = []; requests = (5, pending_request) ∷ [] }

abbrev same_city : String → String → Bool
same_city a b = a == b

abbrev proposal : Match
proposal =
    proposed_match 1000 3 demo_trip 5 pending_request
      (calculate_quote demo_env 50 (find_by_id 1 demo_store.users) demo_window demo_package)

proposal_made :
    find_by_id 10 (run_search demo_env same_city none none (for_request 5) search_store).1.matches
    ≡ some proposal
unfolding run_search find_matches create_match_proposal run_in_transaction find_by_id
    rank_with_routing_search find_all exists find_one update_by_id insert
proposal_made = refl

one_trip : Unique search_store.trips
unfolding find_by_id
one_trip = (refl, tt)

one_request : Unique search_store.requests
unfolding find_by_id
one_request = (refl, tt)

proposals-Fit_example :
    (find_by_id 10 search_store.matches ≡ some proposal) ⊎ Fits search_store proposal
proposals-Fit_example =
    proposals-Fit demo_env same_city none none (for_request 5) search_store one_trip one_request 10
      proposal proposal_made

-- The pair has a match, and the commit of the transaction would fail.
abbrev paired_store : Store
paired_store = record search_store {
  matches = (10, proposal) ∷ [];
  faults = fails write_conflict ∷ [];
}

abbrev demo_quote : Quote
demo_quote = calculate_quote demo_env 50 (find_by_id 1 demo_store.users) demo_window demo_package

repeated_proposal_example :
    let (x, s') = create_match_proposal demo_env (3, demo_trip) (5, pending_request) paired_store in
    let (y, s'') =
      create_match_without_transaction 3 demo_trip 5 pending_request demo_quote demo_env
        paired_store in
    ((x ≡ ok (10, proposal)) × SameButFaults paired_store s')
    × ((y ≡ ok (10, proposal))
        × (s''.matches ≡ paired_store.matches)
        × (s''.bus ≡ paired_store.bus))
    × (find_or_create 3 demo_trip 5 pending_request demo_quote none paired_store
        ≡ (ok (false, some (10, proposal)), paired_store))
unfolding find_one is_pair proposed_match new_match
repeated_proposal_example =
    repeated_proposal demo_env 3 demo_trip 5 pending_request demo_quote paired_store (10, proposal)
      refl (λ h. cc)
