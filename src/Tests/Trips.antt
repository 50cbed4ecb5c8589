-- ===== src/Tests/Trips.antt =====
-- Runs of the trips of backend/src/services/trip.service.ts.
use hop_drop.Common.{arith, ◌≡◌, refl, some, none, [], ◌∷◌}
use hop_drop.TripService.Custody.{update_trip-frozen, cancel_trip-custody}
use hop_drop.TripService.Trips.{update_trip, is_blocking, TripUpdate, cancel_trip}
use hop_drop.Payment.Trust.{Refused}
use hop_drop.Collection.{find_by_id}
use hop_drop.Model.Match.{new_match, Match, MatchStatus}
use hop_drop.Json.{null}
use hop_drop.Tests.Fixtures.{demo_store, demo_match}
use hop_drop.Store.{Store}

abbrev confirmed_match : Match
confirmed_match = record demo_match { status = MatchStatus.sender_confirmed }

abbrev custody_store : Store
custody_store = record demo_store { matches = (7, confirmed_match) ∷ [] }

cancel_trip-custody_example : (cancel_trip 1 3 custody_store).1 ≡ custody_store
unfolding find_by_id new_match
cancel_trip-custody_example =
    cancel_trip-custody 1 3 custody_store 7 confirmed_match refl refl (omega arith) (omega arith)

abbrev accepted_match : Match
accepted_match = record demo_match { status = MatchStatus.carrier_accepted }

abbrev accepted_store : Store
accepted_store = record demo_store { matches = (7, accepted_match) ∷ [] }

abbrev dearer : TripUpdate
dearer = record {
  origin = none;
  destination = none;
  departure_time = none;
  estimated_arrival_time = none;
  mode_of_transport = none;
  transport_details = none;
  available_capacity = none;
  price_per_kg = some 90;
  pickup_instructions = none;
  dropoff_instructions = none;
}

update_trip-frozen_example : Refused accepted_store (update_trip 1 3 dearer null accepted_store)
unfolding find_by_id is_blocking new_match
update_trip-frozen_example =
    update_trip-frozen 1 3 accepted_store dearer null 7 accepted_match refl refl
