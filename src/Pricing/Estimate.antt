-- ===== src/Pricing/Estimate.antt =====
-- `estimatePricing` of backend/src/services/pricing.service.ts: what a sender would pay on the
-- cheapest trip of a route. `same_city` is the database's match of the name of a city.
use hop_drop.Collection.Sorting.{sort_by}
use hop_drop.Common.{
  [], any, length, leb, some, ◌==◌, none, take, ◌||◌, Option, ltb, ◌&&◌, Bool, ◌∷◌, String, ℕ,
}
use hop_drop.Model.Trip.{same_category, Trip}
use hop_drop.Pricing.{calculate_quote, Quote}
use hop_drop.Collection.{find_all, Collection}
use hop_drop.Delivery.Requests.{is_active_trip}
use hop_drop.Store.{Store}
use hop_drop.Model.DeliveryRequest.{Package, DeliveryWindow}
use hop_drop.Env.{Env}

-- What a sender asks for.
pub record PricingInput : Type 0 where
  pub origin_city : String
  pub destination_city : String
  pub parcel : Package

-- The query for the trips that could take the package.
unfoldable pub is_reference : (String → String → Bool) → PricingInput → Trip → Bool
is_reference same_city i t =
    same_city i.origin_city t.origin.city
    && same_city i.destination_city t.destination.city
    && is_active_trip t.status
    && t.safety_deposit_paid
    && leb i.parcel.weight_g t.available_capacity.weight_g
    && any (same_category i.parcel.category) t.available_capacity.allowed_categories

-- `sort({ pricePerKg: 1, departureTime: 1 })`
abbrev comes_first : Trip → Trip → Bool
comes_first t u =
    ltb t.price_per_kg u.price_per_kg
    || (t.price_per_kg == u.price_per_kg && leb t.departure_time u.departure_time)

pub record Estimate : Type 0 where
  pub quote : Quote
  pub based_on_trip_id : ℕ
  pub price_per_kg : ℕ

-- The window of the input is not given, so a quote has no urgency.
abbrev no_window : DeliveryWindow
no_window = record { earliest = 0; latest = 0 }

abbrev estimate_on : Env → Package → Collection Trip → Option Estimate
estimate_on env p [] = none
estimate_on env p ((k, t) ∷ c) = some (record {
  quote = calculate_quote env t.price_per_kg none no_window p;
  based_on_trip_id = k;
  price_per_kg = t.price_per_kg;
})

-- `estimatePricing`: how many carriers there are, and the estimate on the first of their trips,
-- which the database comes upon as `arrange` has them.
unfoldable pub estimate_pricing :
    Env
    → (String → String → Bool)
    → (Collection Trip → Collection Trip)
    → PricingInput
    → Store
    → ℕ × Option Estimate
unfolding is_reference sort_by
estimate_pricing env same_city arrange i s =
    let trips =
      take 10 (sort_by comes_first (arrange (find_all (is_reference same_city i) s.trips))) in
    (length trips, estimate_on env i.parcel trips)
