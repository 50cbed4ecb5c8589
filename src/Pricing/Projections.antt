-- ===== src/Pricing/Projections.antt =====
-- The tiers of backend/src/services/pricing.service.ts: what a carrier would earn with the packages
-- that fit, at one rate. Weights are in grams, and the shares of a capacity in thousandths of a
-- gram, so that the code's fractions are whole numbers.
use hop_drop.Common.{
  sum_of, ℕ, zero, suc, ◌+◌, ◌-◌, ◌*◌, ◌/◌, ◌%◌, min, max, String, Option, none, some, List, [],
  ◌∷◌, ltb, leb, ◌==◌, if◌then◌else◌, round_div, length,
}
use hop_drop.Pricing.{calculate_quote, Quote, hour_ms}
use hop_drop.Model.DeliveryRequest.{Package, DeliveryWindow}
use hop_drop.Model.Trip.{same_category, Category, TransportMode}
use hop_drop.Env.{Env}
pub mod Tiers

abbrev pub clamp : ℕ → ℕ → ℕ → ℕ
clamp value low high = min (max value low) high

-- `roundToNearest`, of a fraction, to a multiple of ten.
unfoldable pub round_to_ten : ℕ → ℕ → ℕ
round_to_ten a b = max 10 (round_div a (10 * b) * 10)

unfoldable pub insert_rate : ℕ → List ℕ → List ℕ
insert_rate r [] = r ∷ []
insert_rate r (x ∷ xs) = if leb r x then r ∷ x ∷ xs else x ∷ insert_rate r xs

unfoldable pub sort_rates : List ℕ → List ℕ
unfolding insert_rate
sort_rates [] = []
sort_rates (r ∷ rs) = insert_rate r (sort_rates rs)

abbrev pub rate_at : ℕ → List ℕ → ℕ
rate_at n [] = 0
rate_at zero (r ∷ rs) = r
rate_at (suc n) (r ∷ rs) = rate_at n rs

-- `median`
unfoldable pub median : List ℕ → Option ℕ
unfolding sort_rates
median [] = none
median (r ∷ rs) =
    let sorted = sort_rates (r ∷ rs) in
    let middle = length sorted / 2 in
    some (
      if length sorted % 2 == 0
      then round_div (rate_at (middle - 1) sorted + rate_at middle sorted) 2
      else rate_at middle sorted)

-- `MODE_BASE_RATE_PER_KG`
unfoldable pub mode_base_rate_per_kg : TransportMode → ℕ
mode_base_rate_per_kg TransportMode.bike = 65
mode_base_rate_per_kg TransportMode.bus = 80
mode_base_rate_per_kg TransportMode.train = 90
mode_base_rate_per_kg TransportMode.car = 110
mode_base_rate_per_kg TransportMode.flight = 180
mode_base_rate_per_kg TransportMode.other = 95

-- What a quote needs of a package: when it travels, and what it is.
abbrev pub Parcel : Type 0
Parcel = DeliveryWindow × Package

-- `buildProjectionPackage`, where there is no request.
unfoldable pub build_projection_package : ℕ → Option ℕ → Category → ℕ → Parcel
build_projection_package now departure category weight = (
  record { earliest = now; latest = elim departure [ none ↦ now + 36 * hour_ms | some t ↦ t ] },
  record {
    description = "Projected package";
    category = category;
    weight_g = weight;
    dimensions_cm = none;
    is_fragile = same_category category Category.fragile;
    declared_value = none;
    photo_url = none;
  },
)

-- What the projections of one carrier share.
pub record Projection : Type 0 where
  pub now : ℕ
  pub requests : List Parcel
  pub capacity_g : ℕ
  pub categories : List Category
  pub departure_time : Option ℕ

-- The requests that are taken, one after the other, while there is room.
unfoldable pub select_requests : ℕ → List Parcel → List Parcel
select_requests room [] = []
select_requests room (p ∷ ps) =
    let taken = p ∷ select_requests (room - p.1.weight_g) ps in
    let passed = select_requests room ps in if leb p.1.weight_g room then taken else passed

abbrev first_category : List Category → Category
first_category [] = Category.documents
first_category (c ∷ cs) = c

-- `Number(clamp(capacityKg * utilizationFallback, 0.5, capacityKg).toFixed(1))`; a share is in
-- thousandths of a gram.
unfoldable pub projected_weight : ℕ → ℕ → ℕ
projected_weight capacity share = round_div (clamp share 500000 (capacity * 1000)) 100000 * 100

abbrev pub or_projected : List Parcel → Parcel → List Parcel
or_projected [] p = p ∷ []
or_projected (x ∷ xs) p = x ∷ xs

pub record Tier : Type 0 where
  pub label : String
  pub rate_per_kg : ℕ
  pub expected_packages : ℕ
  pub occupied_g : ℕ
  pub carrier_payout : ℕ
  pub platform_fee : ℕ
  pub sender_charge : ℕ
  pub payout_per_kg : ℕ

-- The parcels of a tier.
unfoldable pub tier_parcels : Projection → ℕ → List Parcel
unfolding select_requests projected_weight build_projection_package
tier_parcels x share = or_projected (select_requests x.capacity_g x.requests) (
    build_projection_package x.now x.departure_time (first_category x.categories)
      (projected_weight x.capacity_g share))

abbrev pub parcel_quote : Env → ℕ → Parcel → Quote
parcel_quote env rate (window, p) = calculate_quote env rate none window p

-- `projectTier`
unfoldable pub project_tier : Env → Projection → String → ℕ → ℕ → Tier
unfolding tier_parcels
project_tier env x label rate share =
    let parcels = tier_parcels x share in
    let occupied = sum_of (λ (p : Parcel). p.1.weight_g) parcels in
    let payout = sum_of (λ p. (parcel_quote env rate p).carrier_earning) parcels in
    record {
      label = label;
      rate_per_kg = rate;
      expected_packages = length parcels;
      occupied_g = round_div occupied 100 * 100;
      carrier_payout = payout;
      platform_fee = sum_of (λ p. (parcel_quote env rate p).platform_fee) parcels;
      sender_charge = sum_of (λ p. (parcel_quote env rate p).total_charge) parcels;
      payout_per_kg = if ltb 0 occupied then round_div (payout * 1000) occupied else 0;
    }
