-- ===== src/TripService/Paging.antt =====
-- The pages of `listTrips` in backend/src/services/trip.service.ts.
use hop_drop.Collection.Sorting.{
  sort_by-All, sort_by-InOrder, first_pages-take, sort_by-length, sort_by, first_pages, InOrder,
}
use hop_drop.Collection.Arranged.{sort_by-Perm}
use hop_drop.Common.{
  take_all, ap, ◌∙◌, some, All-both, ℕ, zero, suc, ◌+◌, ◌-◌, ◌*◌, ◌≤◌, ◌<◌, String, ◌≡◌, refl, sym,
  Bool, true, false, List, [], ◌++◌, map, arith, length, All,
}
use mathlib.Core.List.{map-append, Permᴰ}
use mathlib.Core.Path.{ap₂}
use hop_drop.Collection.Alls.{Unique-found, find_all-keeps, find_all-All}
use hop_drop.Collection.{Collection, Unique, find_by_id, find_all}
use hop_drop.TripService.Search.{
  trip_query, shown_trip, found_trips, ShownTrip, list_trips, TripFilters, or_default, pages_for,
}
use hop_drop.Pricing.Earnings.{leaves_first}
use hop_drop.Store.{Store}
use hop_drop.Model.Trip.{Trip}
use native.Mathlib.Nat.{lt-div-mul-add}

leaves_first_total : (t u : Trip) → leaves_first t u ≡ false → leaves_first u t ≡ true
leaves_first_total t u h = ground arith

pages_for_enough : (total limit : ℕ) → 0 < limit → total ≤ pages_for total limit * limit
unfolding pages_for
pages_for_enough total limit h =
    let bound = lt-div-mul-add {a = total + limit - 1} h in omega (arith, bound)

or_default_pos : (n d : ℕ) → 0 < d → 0 < or_default n d
or_default_pos n d h = ground arith

or_default-suc : (n d : ℕ) → or_default (suc n) d ≡ suc n
or_default-suc n d = ground arith

leaves_first_transitive :
    (t u v : Trip) → leaves_first t u ≡ true → leaves_first u v ≡ true → leaves_first t v ≡ true
leaves_first_transitive t u v h k = ground arith

found_inj : (t u : Trip) → some t ≡ some u → t ≡ u
found_inj t u h = cc

module _ (in_city : String → String → Bool) (f : TripFilters) (s : Store) where
  -- A stored trip that the search finds.
  abbrev IsFound : ℕ × Trip → Type 0
  IsFound x = (find_by_id x.0 s.trips ≡ some x.1) × (trip_query in_city f x.1 ≡ true)

  -- No two trips that the search finds leave at the same time.
  abbrev pub NoTies : Type 0
  NoTies =
      (j k : ℕ) (t u : Trip)
      → find_by_id j s.trips ≡ some t
      → find_by_id k s.trips ≡ some u
      → trip_query in_city f t ≡ true
      → trip_query in_city f u ≡ true
      → t.departure_time ≡ u.departure_time
      → j ≡ k

  find_all-IsFound : Unique s.trips → All IsFound (find_all (trip_query in_city f) s.trips)
  find_all-IsFound unique =
      All-both _ _ (find_all (trip_query in_city f) s.trips)
        (find_all-keeps _ (trip_query in_city f) s.trips (Unique-found s.trips unique))
        (find_all-All (trip_query in_city f) s.trips)

  found_apart :
      NoTies
      → (x y : ℕ × Trip) → IsFound x
      → IsFound y
      → leaves_first x.1 y.1 ≡ true
      → leaves_first y.1 x.1 ≡ true
      → x ≡ y
  found_apart apart x y fx fy xy yx =
      let same : x.0 ≡ y.0 = apart x.0 y.0 x.1 y.1 fx.0 fy.0 fx.1 fy.1 (ground arith) in
      ap₂ (λ a b. (a, b)) same
        (found_inj x.1 y.1 (sym fx.0 ∙ ap (λ k. find_by_id k s.trips) same ∙ fy.0))

  -- Where no two trips leave at the same time, the database may come upon them in any order.
  found_trips-arranged :
      (arrange : Collection Trip → Collection Trip)
      → ((c : Collection Trip) → Permᴰ c (arrange c))
      → Unique s.trips
      → NoTies
      → found_trips in_city arrange f s ≡ found_trips in_city (λ c. c) f s
  unfolding found_trips
  found_trips-arranged arrange permutes unique apart = sym (
      sort_by-Perm leaves_first leaves_first_total leaves_first_transitive IsFound
        (found_apart apart) (permutes _) (find_all-IsFound unique))

  module _ (arrange : ℕ → Collection Trip → Collection Trip) where
    -- What the first pages show, one after the other; for each the database comes upon the trips
    -- in an order of its own.
    abbrev pub all_pages : ℕ → List ShownTrip
    all_pages zero = []
    all_pages (suc n) =
        all_pages n ++ (list_trips in_city (arrange (suc n)) (record f { page = suc n }) s).items

    module _ (permutes : (n : ℕ) (c : Collection Trip) → Permᴰ c (arrange n c))
        (unique : Unique s.trips) (apart : NoTies) where
      all_pages-first :
          (n : ℕ)
          → all_pages n
            ≡ map shown_trip
                (first_pages n (or_default f.limit 10) (found_trips in_city (λ c. c) f s))
      unfolding list_trips found_trips
      all_pages-first zero = refl
      all_pages-first (suc n) =
          rw
            (
              all_pages-first n,
              or_default-suc n 1,
              found_trips-arranged (arrange (suc n)) (permutes (suc n)) unique apart,
            )
            (sym (map-append shown_trip _ _))

      -- The pages of a search for trips, one after the other, are its trips in the order of the
      -- departures, as many as its total, and each as the query asks: if no two of them leave at
      -- the same time, whatever the order in which the database comes upon them for each page.
      pub list_trips_pages :
          let l = list_trips in_city (arrange 1) f s in
          let found = found_trips in_city (arrange 1) f s in
          (all_pages l.total_pages ≡ map shown_trip found)
          × (length found ≡ l.total)
          × InOrder leaves_first found
          × All (λ x. trip_query in_city f x.1 ≡ true) found
      unfolding list_trips found_trips
      list_trips_pages =
          let stored = find_all (trip_query in_city f) s.trips in
          let found = sort_by leaves_first stored in
          let limit = or_default f.limit 10 in
          let same = sort_by-length leaves_first stored in
          let pages = pages_for (length stored) limit in
          let enough : length found ≤ pages * limit =
            rw same (pages_for_enough _ limit (or_default_pos f.limit 10 (omega arith))) in
          rw (found_trips-arranged (arrange 1) (permutes 1) unique apart) (
            all_pages-first pages
                ∙ ap (map shown_trip)
                    (first_pages-take pages limit found ∙ take_all _ found enough),
            same,
            sort_by-InOrder leaves_first leaves_first_total stored,
            sort_by-All leaves_first _ _ (find_all-All _ s.trips),
          )
