-- ===== src/TripService/Search.antt =====
-- The search for trips and the lists of backend/src/services/trip.service.ts, with the days of
-- backend/src/utils/time.ts, on a server that keeps UTC. `in_city` is the database's search for a
-- part of the name of a city, and `arrange` the order in which it comes upon the trips of a query. Trips have their carrier by its identifier.
use hop_drop.Collection.{Collection, find_all}
use hop_drop.Accounts.Text.{is_empty}
use hop_drop.Delivery.Requests.{is_active_trip}
use hop_drop.Collection.Sorting.{page_of, sort_by}
use hop_drop.Model.Trip.{TransportMode, Trip}
use hop_drop.Store.{Store}
use hop_drop.TripService.Trips.{without_ticket}
use hop_drop.Common.{
  ℕ, ◌+◌, ◌-◌, ◌*◌, ◌/◌, ◌%◌, String, Bool, true, false, ◌&&◌, Option, none, some, List, map, leb,
  ◌==◌, if◌then◌else◌, length,
}
use hop_drop.Pricing.Earnings.{leaves_first}

-- `listTrips`: what is asked for.
pub record TripFilters : Type 0 where
  pub origin_city : Option String
  pub destination_city : Option String
  pub date : Option ℕ
  pub mode : Option TransportMode
  pub min_capacity_g : Option ℕ
  pub page : ℕ
  pub limit : ℕ

abbrev pub day_ms : ℕ
day_ms = 24 * 60 * 60 * 1000

-- `startOfDay`
unfoldable pub start_of_day : ℕ → ℕ
start_of_day t = t - t % day_ms

-- `endOfDay`
unfoldable pub end_of_day : ℕ → ℕ
end_of_day t = t - t % day_ms + (23 * 60 * 60 * 1000 + 59 * 60 * 1000 + 59 * 1000 + 999)

abbrev pub same_mode : TransportMode → TransportMode → Bool
same_mode TransportMode.bus TransportMode.bus = true
same_mode TransportMode.train TransportMode.train = true
same_mode TransportMode.car TransportMode.car = true
same_mode TransportMode.bike TransportMode.bike = true
same_mode TransportMode.flight TransportMode.flight = true
same_mode TransportMode.other TransportMode.other = true
same_mode _ _ = false

-- A filter that is not given, or empty, lets everything pass.
abbrev pub passes {ℓ} : {A : Type ℓ} → Option A → (A → Bool) → Bool
passes none p = true
passes (some a) p = p a

unfoldable pub passes_city : (String → String → Bool) → Option String → String → Bool
passes_city in_city none city = true
passes_city in_city (some name) city = if is_empty name then true else in_city name city

abbrev pub or_default : ℕ → ℕ → ℕ
or_default n default = if n == 0 then default else n

-- A trip as the search shows it, with its price for a kilogram in paise.
pub record ShownTrip : Type 0 where
  pub id : ℕ
  pub trip : Trip
  pub estimated_price : ℕ

unfoldable pub shown_trip : ℕ × Trip → ShownTrip
unfolding without_ticket
shown_trip (k, t) = record {
  id = k;
  trip = without_ticket t;
  estimated_price = t.price_per_kg * 100;
}

pub record TripPage : Type 0 where
  pub items : List ShownTrip
  pub total : ℕ
  pub page : ℕ
  pub limit : ℕ
  pub total_pages : ℕ

-- The pages that a list takes.
unfoldable pub pages_for : ℕ → ℕ → ℕ
pages_for total limit = (total + limit - 1) / limit

module _ (in_city : String → String → Bool) where
  unfoldable pub trip_query : TripFilters → Trip → Bool
  unfolding passes_city start_of_day end_of_day
  trip_query f t =
      is_active_trip t.status
      && passes_city in_city f.origin_city t.origin.city
      && passes_city in_city f.destination_city t.destination.city
      && passes f.date
          (λ d. leb (start_of_day d) t.departure_time && leb t.departure_time (end_of_day d))
      && passes f.mode (λ mode. same_mode t.mode_of_transport mode)
      && passes f.min_capacity_g (λ w. leb w t.available_capacity.weight_g)

  module _ (arrange : Collection Trip → Collection Trip) where
    -- The trips that a search finds, in the order of the departures.
    unfoldable pub found_trips : TripFilters → Store → Collection Trip
    unfolding trip_query sort_by
    found_trips f s = sort_by leaves_first (arrange (find_all (trip_query f) s.trips))

    -- `listTrips`
    unfoldable pub list_trips : TripFilters → Store → TripPage
    unfolding found_trips page_of shown_trip trip_query
    list_trips f s =
        let page = or_default f.page 1 in
        let limit = or_default f.limit 10 in
        let total = length (find_all (trip_query f) s.trips) in
        record {
          items = map shown_trip (page_of page limit (found_trips f s));
          total = total;
          page = page;
          limit = limit;
          total_pages = pages_for total limit;
        }

abbrev leaves_last : Trip → Trip → Bool
leaves_last t u = leb u.departure_time t.departure_time

-- `listMyTrips`
unfoldable pub list_my_trips : (Collection Trip → Collection Trip) → ℕ → Store → Collection Trip
list_my_trips arrange user s =
    sort_by leaves_last (arrange (find_all (λ t. t.carrier == user) s.trips))
