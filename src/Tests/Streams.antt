-- ===== src/Tests/Streams.antt =====
-- Runs of the programs under services/ that read the events of the backend.
use hop_drop.Common.{◌≡◌, refl, false, some, [], ◌∷◌}
use hop_drop.Payment.Confirm.{deposit_event}
use hop_drop.Json.{end}
use hop_drop.TripService.Trips.{trip_payload, trip_event}
use hop_drop.Consumers.{get_field}
use hop_drop.Consumers.Orchestrator.{deposit_is_paid}
use hop_drop.Delivery.Requests.{request_payload, request_event}
use hop_drop.Consumers.Funnel.{derived_conversions}
use hop_drop.Env.{Env}
use hop_drop.Consumers.Triggers.{events_searched, Asks}
use hop_drop.Tests.Fixtures.{demo_env, demo_request, demo_trip}
use hop_drop.Matching.Search.{for_request, for_trip}

-- The settings without Kafka, under which messages leave at once.
abbrev direct_env : Env
direct_env = record demo_env { kafka_configured = false }

events_searched_example :
    Asks
      (request_event "DeliveryRequested" 5 (request_payload 5 demo_request end))
      (some (for_request 5))
    × Asks
        (request_event "DeliveryUpdated" 5 (request_payload 5 demo_request end))
        (some (for_request 5))
    × Asks (trip_event "TripPosted" 3 (trip_payload 3 demo_trip end)) (some (for_trip 3))
    × Asks (deposit_event 3 demo_trip 1 77) (some (for_trip 3))
events_searched_example = events_searched 5 3 1 77 demo_request demo_trip end

deposit_counted :
    derived_conversions "TripUpdated" (deposit_event 3 demo_trip 1 77).payload
    ≡ record { flow = "carrier_activation"; step = "deposit_locked" } ∷ []
unfolding derived_conversions deposit_is_paid get_field
deposit_counted = refl
