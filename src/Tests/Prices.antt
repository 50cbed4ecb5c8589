-- ===== src/Tests/Prices.antt =====
-- Runs of the search for trips of backend/src/services/trip.service.ts and of the projections of
-- backend/src/services/pricing.service.ts.
use hop_drop.Common.{
  sym, ap, ℕ, ◌⊎◌, inl, inr, arith, ◌==◌, Bool-cases, sum_of, ◌+◌, ◌≤◌, ◌<◌, String, ◌≡◌, refl,
  Bool, true, none, some, [], ◌∷◌, map, length, All, str_eq,
}
use hop_drop.Collection.{Unique, Collection, find_by_id, find_all}
use hop_drop.Model.Trip.{Trip, TripStatus, Category}
use hop_drop.TripService.Paging.{NoTies, list_trips_pages, all_pages}
use mathlib.Core.List.{Permᴰ, reverse}
use mathlib.Core.List.Permᴰ
use mathlib.Core.Path.{subst}
use mathlib.Core.Bool.{false≢true}
use hop_drop.Pricing.Earnings.{leaves_first}
use hop_drop.TripService.Search.{
  pages_for, shown_trip, trip_query, TripFilters, found_trips, list_trips,
}
use hop_drop.Pricing.Projections.{tier_parcels, Parcel, Projection, project_tier, select_requests}
use hop_drop.Collection.Sorting.{InOrder}
use hop_drop.Tests.Fixtures.{demo_package, demo_trip, demo_env, demo_store, demo_window}
use hop_drop.Store.{Store}
use hop_drop.Pricing.Projections.Tiers.{project_tier_adds_up}

abbrev named : String → String → Bool
named a b = str_eq a b

abbrev cancelled_one : Trip
cancelled_one = record demo_trip { status = TripStatus.cancelled }

abbrev early_trip : Trip
early_trip = record demo_trip { departure_time = 8000 }

-- Two trips that are found and one that is not, with a page for each.
abbrev trips_store : Store
trips_store = record demo_store {
  trips = (3, demo_trip) ∷ (4, cancelled_one) ∷ (6, early_trip) ∷ [];
}

abbrev from_pune : TripFilters
from_pune = record {
  origin_city = some "Pune";
  destination_city = some "";
  date = some 5000;
  mode = none;
  min_capacity_g = some 2000;
  page = 0;
  limit = 1;
}

two_pages : (list_trips named (λ c. c) from_pune trips_store).total_pages ≡ 2
unfolding list_trips trip_query find_all pages_for
two_pages = refl

earlier_first :
    found_trips named (λ c. c) from_pune trips_store
    ≡ (6, record demo_trip { departure_time = 8000 }) ∷ (3, demo_trip) ∷ []
unfolding found_trips find_all
earlier_first = refl

-- The database comes upon the trips of a page from the last to the first.
abbrev backwards : ℕ → Collection Trip → Collection Trip
backwards n c = reverse c

backwards-Permutes : (n : ℕ) (c : Collection Trip) → Permᴰ c (backwards n c)
backwards-Permutes n c = Permᴰ.symm (Permᴰ.reverse c)

trips_store-Unique : Unique trips_store.trips
unfolding find_by_id
trips_store-Unique = (refl, (refl, (refl, tt)))

-- Of the two trips that are found one leaves at 8000.
trip_inj : (t u : Trip) → some t ≡ some u → t ≡ u
trip_inj t u h = cc

found_at :
    (j : ℕ) (t : Trip)
    → find_by_id j trips_store.trips ≡ some t
    → trip_query named from_pune t ≡ true
    → ((j ≡ 3) × (t.departure_time ≡ demo_trip.departure_time))
      ⊎ ((j ≡ 6) × (t.departure_time ≡ 8000))
unfolding find_by_id trip_query
found_at j t e q = elim (Bool-cases (3 == j)) [
  | inl third ↦
      inl (ground arith, ap (λ u. u.departure_time) (sym (trip_inj demo_trip t (rw third at e))))
  | inr not_third ↦ elim (Bool-cases (4 == j)) [
    | inl fourth ↦ absurd (
        false≢true (
          subst (λ u. trip_query named from_pune u ≡ true)
            (sym (trip_inj cancelled_one t (rw (not_third, fourth) at e))) q))
    | inr not_fourth ↦ elim (Bool-cases (6 == j)) [
      | inl sixth ↦ inr (
        ground arith,
        ap (λ u. u.departure_time)
            (sym (trip_inj early_trip t (rw (not_third, not_fourth, sixth) at e))),
      )
      | inr other ↦ cc (rw (not_third, not_fourth, other) at e)
    ]
  ]
]

trips_store-NoTies : NoTies named from_pune trips_store
trips_store-NoTies j k t u e f p q same = ground (arith, found_at j t e p, found_at k u f q, same)

list_trips_pages_example :
    let l = list_trips named (backwards 1) from_pune trips_store in
    let found = found_trips named (backwards 1) from_pune trips_store in
    (all_pages named from_pune trips_store backwards l.total_pages ≡ map shown_trip found)
    × (length found ≡ l.total)
    × InOrder leaves_first found
    × All (λ x. trip_query named from_pune x.1 ≡ true) found
list_trips_pages_example =
    list_trips_pages named from_pune trips_store backwards backwards-Permutes trips_store-Unique
      trips_store-NoTies

abbrev lane : Projection
lane = record {
  now = 1000;
  requests =
      (demo_window, demo_package) ∷ (demo_window, record demo_package { weight_g = 20000 }) ∷ [];
  capacity_g = 5000;
  categories = Category.documents ∷ [];
  departure_time = none;
}

project_tier_adds_up_example :
    let tier = project_tier demo_env lane "Balanced" 110 3000000 in
    (tier.sender_charge ≡ tier.carrier_payout + tier.platform_fee)
    × (0 < tier.expected_packages)
    × (sum_of (λ (p : Parcel). p.1.weight_g) (select_requests lane.capacity_g lane.requests)
        ≤ lane.capacity_g)
    × (sum_of (λ (p : Parcel). p.1.weight_g) (tier_parcels lane 3000000) ≤ lane.capacity_g + 50)
project_tier_adds_up_example = project_tier_adds_up demo_env lane "Balanced" 110 3000000
