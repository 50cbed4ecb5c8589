-- ===== src/Consumers/Funnel.antt =====
-- services/analytics-pipeline/src/server.ts: the steps of the funnels that the events stand for.
use hop_drop.Consumers.{readable}
use hop_drop.Common.{true, false, ◌&&◌, ◌||◌, ◌++◌, [], str_eq, ◌∷◌, Bool, List, String}
use hop_drop.Json.{Fields}
use hop_drop.Model.OutboxEvent.{Topic}
use hop_drop.Consumers.{RawMessage}
use hop_drop.Consumers.Orchestrator.{deposit_is_paid}

pub record ConversionStep : Type 0 where
  pub flow : String
  pub step : String

abbrev one_step : Bool → String → String → List ConversionStep
one_step true flow step = record { flow = flow; step = step } ∷ []
one_step false flow step = []

-- `recordDerivedConversion`
unfoldable pub derived_conversions : String → Fields → List ConversionStep
unfolding deposit_is_paid
derived_conversions event payload =
    one_step (str_eq event "DeliveryRequested") "sender_activation" "delivery_requested"
    ++ one_step (str_eq event "DeliveryPaid") "sender_activation" "payment_completed"
    ++ one_step (str_eq event "MatchProposed") "marketplace" "match_proposed"
    ++ one_step (str_eq event "CarrierAccepted") "marketplace" "carrier_accepted"
    ++ one_step (str_eq event "SenderConfirmed") "marketplace" "sender_confirmed"
    ++ one_step (str_eq event "DeliveryCompleted" || str_eq event "PayoutCompleted")
        "sender_activation" "delivery_completed"
    ++ one_step (str_eq event "TripPosted") "carrier_activation" "trip_posted"
    ++ one_step (str_eq event "TripUpdated" && deposit_is_paid payload) "carrier_activation"
        "deposit_locked"

-- The counters of the program.
pub record Counters : Type 0 where
  pub lifecycle_events : List (Topic × String)
  pub conversion_steps : List ConversionStep

-- `eachMessage`
unfoldable pub count_message : RawMessage → Counters → Counters
unfolding derived_conversions
count_message (readable m) c = record {
  lifecycle_events = c.lifecycle_events ++ (m.topic, m.event_type) ∷ [];
  conversion_steps = c.conversion_steps ++ derived_conversions m.event_type m.payload;
}
count_message _ c = c
