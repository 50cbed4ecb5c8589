-- ===== src/Pricing/Earnings.antt =====
-- `estimateCarrierEarnings` of backend/src/services/pricing.service.ts: what a carrier may earn on a
-- route, at several rates. Weights are in grams, and the shares of a capacity in thousandths of a
-- gram, so that the code's fractions are whole numbers. `same_city` is the database's match of the
-- name of a city; the texts of the insights are left out.
use hop_drop.Collection.{Collection, Collection, find_all}
use hop_drop.Common.{
  sum_of, ℕ, ◌+◌, ◌-◌, ◌*◌, ◌/◌, min, max, String, Bool, true, false, ◌&&◌, Option, none, some,
  List, [], ◌∷◌, ◌++◌, map, ltb, leb, ◌==◌, if◌then◌else◌, or_num, round_div, length, take, filter,
  any,
}
use hop_drop.Pricing.Projections.{
  Projection, project_tier, round_to_ten, mode_base_rate_per_kg, Tier, clamp, median,
}
use hop_drop.Matching.Search.{is_payable}
use hop_drop.Store.{Store}
use hop_drop.Delivery.Requests.{is_pending_request, is_active_trip}
use hop_drop.Collection.Sorting.{sort_by}
use hop_drop.Model.DeliveryRequest.{DeliveryRequest, DeliveryWindow}
use hop_drop.Model.Trip.{TransportMode, same_category, Category, Trip}
use hop_drop.Env.{Env}
use mathlib.Core.List.{reverse}

-- The market of a route, as `estimateCarrierEarnings` reads it.
pub record Market : Type 0 where
  pub pending_packages : ℕ
  pub pending_weight_g : ℕ
  pub competing_carriers : ℕ
  pub rates : List ℕ

abbrev is_special : Category → Bool
is_special Category.electronics = true
is_special Category.fragile = true
is_special Category.medicine = true
is_special _ = false

abbrev category_points : List Category → ℕ
category_points cs = if any is_special cs then 80 else 0

-- `1 + demandBoost + categoryBoost - competitionPressure`, times a thousand and the capacity.
unfoldable pub rate_factor : Market → ℕ → List Category → ℕ
rate_factor m capacity categories =
    1000 * capacity
    + min (m.pending_packages * 35 * capacity + m.pending_weight_g * 80) (280 * capacity)
    + category_points categories * capacity
    - min (m.competing_carriers * 25) 180 * capacity

-- `recommendedRatePerKg`
unfoldable pub recommended_rate_per_kg : Market → ℕ → List Category → TransportMode → ℕ
unfolding median rate_factor mode_base_rate_per_kg round_to_ten
recommended_rate_per_kg m capacity categories mode =
    let base = or_num (median m.rates) (mode_base_rate_per_kg mode) in
    clamp (round_to_ten (base * rate_factor m capacity categories) (1000 * capacity)) 30 500

-- `utilizationFallback` of the capacity, in thousandths of a gram.
unfoldable pub utilization_share : Market → ℕ → ℕ
utilization_share m capacity =
    if ltb 0 m.pending_packages
    then clamp (m.pending_weight_g * 1000) (350 * capacity) (1000 * capacity)
    else if ltb 0 m.competing_carriers
    then 450 * capacity
    else 600 * capacity

-- `demandScore`
unfoldable pub demand_score : Market → ℕ → List Category → ℕ
demand_score m capacity categories =
    clamp
      (round_div
        ((m.pending_packages * 12 + category_points categories / 10) * capacity
          + m.pending_weight_g * 35
          - m.competing_carriers * 4 * capacity)
        capacity)
      0 100

pub record Earnings : Type 0 where
  pub market : Market
  pub median_rate_per_kg : Option ℕ
  pub demand_score : ℕ
  pub current_rate_per_kg : ℕ
  pub recommended_rate_per_kg : ℕ
  pub current : Tier
  pub balanced : Tier
  pub fast_fill : Tier
  pub premium : Tier

-- What a carrier sends for a projection.
pub record EarningsInput : Type 0 where
  pub origin_city : String
  pub destination_city : String
  pub capacity_g : ℕ
  pub categories : List Category
  pub price_per_kg : Option ℕ
  pub mode_of_transport : Option TransportMode
  pub departure_time : Option ℕ

-- `Array.from(new Set(categories.length ? categories : ['documents']))`
unfoldable pub distinct_categories : List Category → List Category → List Category
distinct_categories seen [] = seen
distinct_categories seen (c ∷ cs) =
    distinct_categories (if any (same_category c) seen then seen else seen ++ c ∷ []) cs

abbrev or_documents : List Category → List Category
or_documents [] = Category.documents ∷ []
or_documents (c ∷ cs) = c ∷ cs

abbrev in_window : Option ℕ → DeliveryWindow → Bool
in_window none w = true
in_window (some t) w = leb w.earliest t && leb t w.latest

-- `sort({ departureTime: 1 })`
abbrev pub leaves_first : Trip → Trip → Bool
leaves_first t u = leb t.departure_time u.departure_time

module _ (env : Env) (same_city : String → String → Bool) where
  -- The query for the requests on the route.
  unfoldable pub is_on_route : EarningsInput → ℕ → List Category → DeliveryRequest → Bool
  is_on_route i capacity categories r =
      same_city i.origin_city r.origin.city
      && same_city i.destination_city r.destination.city
      && is_pending_request r.status
      && is_payable r.payment_status
      && leb r.parcel.weight_g capacity
      && any (same_category r.parcel.category) categories
      && in_window i.departure_time r.preferred_delivery_window

  -- The query for the trips on the route.
  unfoldable pub competes : EarningsInput → List Category → Trip → Bool
  competes i categories t =
      same_city i.origin_city t.origin.city
      && same_city i.destination_city t.destination.city
      && is_active_trip t.status
      && t.safety_deposit_paid
      && leb 500 t.available_capacity.weight_g
      && any (λ c. any (same_category c) categories) t.available_capacity.allowed_categories

  -- `estimateCarrierEarnings`; the requests that were made last come first, and the
  -- database comes upon the trips as `arrange` has them.
  unfoldable pub estimate_carrier_earnings :
      (Collection Trip → Collection Trip) → EarningsInput → Store → Earnings
  unfolding is_on_route competes sort_by distinct_categories recommended_rate_per_kg
      utilization_share demand_score project_tier
  estimate_carrier_earnings arrange i s =
      let categories = distinct_categories [] (or_documents i.categories) in
      let capacity = clamp i.capacity_g 500 30000 in
      let pending = take 25 (reverse (find_all (is_on_route i capacity categories) s.requests)) in
      let competing =
        take 25 (sort_by leaves_first (arrange (find_all (competes i categories) s.trips))) in
      let market : Market = record {
        pending_packages = length pending;
        pending_weight_g = sum_of (λ x. x.1.parcel.weight_g) pending;
        competing_carriers = length competing;
        rates = filter (λ r. ltb 0 r) (map (λ x. x.1.price_per_kg) competing);
      } in
      let recommended =
        recommended_rate_per_kg market capacity categories
          (elim i.mode_of_transport [ none ↦ TransportMode.other | some mode ↦ mode ]) in
      let price = or_num i.price_per_kg 0 in
      let current_rate = if price == 0 then recommended else clamp price 20 500 in
      let share = utilization_share market capacity in
      let x : Projection = record {
        now = s.now;
        requests = map (λ x. (x.1.preferred_delivery_window, x.1.parcel)) pending;
        capacity_g = capacity;
        categories = categories;
        departure_time = i.departure_time;
      } in
      record {
        market = market;
        median_rate_per_kg = median market.rates;
        demand_score = demand_score market capacity categories;
        current_rate_per_kg = current_rate;
        recommended_rate_per_kg = recommended;
        current = project_tier env x "Your rate" current_rate share;
        balanced = project_tier env x "Balanced" recommended share;
        fast_fill =
            project_tier env x "Fast fill" (clamp (round_to_ten (recommended * 9) 10) 20 500) share;
        premium =
            project_tier env x "Premium" (clamp (round_to_ten (recommended * 118) 100) 20 500)
              (max (share - 150 * capacity) (250 * capacity));
      }
