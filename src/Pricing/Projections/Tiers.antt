-- ===== src/Pricing/Projections/Tiers.antt =====
-- What the tiers of backend/src/services/pricing.service.ts promise a carrier.
use hop_drop.Common.{
  round_div, sum_of, ◌-◌, inl, inr, none, [], ◌∷◌, leb, leb→le, Bool-cases, ◌+◌, arith, ◌≡◌, length,
  ◌≤◌, String, ◌<◌, ℕ, List,
}
use hop_drop.Pricing.Projections.{
  build_projection_package, projected_weight, or_projected, parcel_quote, Parcel, Projection,
  project_tier, select_requests, tier_parcels,
}
use hop_drop.Pricing.Fairness.{quote_adds_up}
use hop_drop.Env.{Env}

select_requests-within :
    (room : ℕ) (ps : List Parcel)
    → sum_of (λ (p : Parcel). p.1.weight_g) (select_requests room ps) ≤ room
unfolding select_requests
select_requests-within room [] = omega arith
select_requests-within room (p ∷ ps) = elim (Bool-cases (leb p.1.weight_g room)) [
  | inl fits ↦ rw fits (
      omega (arith, leb→le p.1.weight_g room fits, select_requests-within (room - p.1.weight_g) ps))
  | inr heavy ↦ rw heavy (select_requests-within room ps)
]

module _ (env : Env) (rate : ℕ) where
  charges_add_up :
      (ps : List Parcel)
      → sum_of (λ p. (parcel_quote env rate p).total_charge) ps
        ≡ sum_of (λ p. (parcel_quote env rate p).carrier_earning) ps
          + sum_of (λ p. (parcel_quote env rate p).platform_fee) ps
  charges_add_up [] = omega arith
  charges_add_up ((window, p) ∷ ps) =
      omega (arith, charges_add_up ps, (quote_adds_up env none window rate p).0)

or_projected-length : (ps : List Parcel) (p : Parcel) → 0 < length (or_projected ps p)
or_projected-length [] p = omega arith
or_projected-length (x ∷ xs) p = omega arith

-- The projected package is rounded up by fifty grams at most.
projected_weight-within : (capacity share : ℕ) → projected_weight capacity share ≤ capacity + 50
unfolding projected_weight round_div
projected_weight-within capacity share = omega arith

or_projected-within :
    (ps : List Parcel) (p : Parcel) (room : ℕ)
    → sum_of (λ (p : Parcel). p.1.weight_g) ps ≤ room
    → p.1.weight_g ≤ room + 50
    → sum_of (λ (p : Parcel). p.1.weight_g) (or_projected ps p) ≤ room + 50
or_projected-within [] p room h light = omega arith
or_projected-within (x ∷ xs) p room h light = omega arith

tier_parcels-length : (x : Projection) (share : ℕ) → 0 < length (tier_parcels x share)
unfolding tier_parcels
tier_parcels-length x share = or_projected-length (select_requests x.capacity_g x.requests) _

-- A tier adds up, with requests or without: the senders are charged what the carrier earns and the
-- fees, and it has a package. The requests that are taken fit the capacity together, and all the
-- packages, a projected one included, weigh fifty grams more at most: the weight of a projected
-- package is rounded to a tenth of a kilogram.
pub project_tier_adds_up :
    (env : Env) (x : Projection) (label : String) (rate share : ℕ)
    → let tier = project_tier env x label rate share in
      (tier.sender_charge ≡ tier.carrier_payout + tier.platform_fee)
      × (0 < tier.expected_packages)
      × (sum_of (λ (p : Parcel). p.1.weight_g) (select_requests x.capacity_g x.requests)
          ≤ x.capacity_g)
      × (sum_of (λ (p : Parcel). p.1.weight_g) (tier_parcels x share) ≤ x.capacity_g + 50)
unfolding project_tier tier_parcels build_projection_package
project_tier_adds_up env x label rate share = (
  charges_add_up env rate (tier_parcels x share),
  tier_parcels-length x share,
  select_requests-within x.capacity_g x.requests,
  or_projected-within (select_requests x.capacity_g x.requests) _ x.capacity_g
      (select_requests-within x.capacity_g x.requests) (projected_weight-within x.capacity_g share),
)
