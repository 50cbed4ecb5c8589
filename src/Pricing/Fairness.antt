-- ===== src/Pricing/Fairness.antt =====
-- What a quote of backend/src/utils/pricing.ts promises to the sender and to the carrier.
use hop_drop.Pricing.{
  calculate_reliability_percent, calculate_urgency_percent, Quote, category_extra_percent,
  declared_rupees, calculate_safety_deposit_amount, min_payout, raw_carrier_earning,
  calculate_quote,
}
use hop_drop.Common.{
  min, inl, inr, Bool-cases, ◌<◌, max, refl, Option, ℕ, ◌+◌, ◌*◌, ◌≤◌, ◌≡◌, arith, round_div,
}
use hop_drop.Model.DeliveryRequest.{Package, DeliveryWindow}
use hop_drop.Model.User.{User}
use native.Mathlib.Nat.{mul-le-mul_right, mul-le-mul}
use hop_drop.Env.{Env}

round_div_100_mono : (a b : ℕ) → a ≤ b → round_div a 100 ≤ round_div b 100
unfolding round_div
round_div_100_mono a b h = omega arith

round_div_1000_mono : (a b : ℕ) → a ≤ b → round_div a 1000 ≤ round_div b 1000
unfolding round_div
round_div_1000_mono a b h = omega arith

-- A share of a larger price is no smaller.
share_mono : (a b k : ℕ) → a ≤ b → round_div (a * k) 100 ≤ round_div (b * k) 100
share_mono a b k h = round_div_100_mono (a * k) (b * k) (mul-le-mul_right k h)

module _ (env : Env) (carrier : Option User) (window : DeliveryWindow) where
  -- What the sender pays is the carrier's earning and the fee; the earning is the sum of the parts,
  -- or the least payout for the package where that is more; and the fee is the percentage of the
  -- earning, rounded to the nearest paisa.
  pub quote_adds_up :
      (rate : ℕ) (p : Package)
      → let q = calculate_quote env rate carrier window p in
        (q.total_charge ≡ q.carrier_earning + q.platform_fee)
        × (q.carrier_earning ≡ max (raw_carrier_earning q) (min_payout p))
        × (200 * q.platform_fee ≤ 2 * (q.carrier_earning * env.platform_fee_percent) + 100)
        × (2 * (q.carrier_earning * env.platform_fee_percent) < 200 * q.platform_fee + 100)
  unfolding calculate_quote round_div
  quote_adds_up rate p = (refl, omega arith, omega arith, omega arith)

  module _ (rate rate' weight' : ℕ) (p : Package) (hr : rate ≤ rate')
      (hw : p.weight_g ≤ weight') where
    abbrev q : Quote
    q = calculate_quote env rate carrier window p

    abbrev q' : Quote
    q' = calculate_quote env rate' carrier window (record p { weight_g = weight' })

    base_mono : q.base_price ≤ q'.base_price
    unfolding calculate_quote
    base_mono =
        round_div_1000_mono _ _ (mul-le-mul_right 100 (mul-le-mul (omega arith) (omega arith)))

    fragile_mono : q.fragile_extra ≤ q'.fragile_extra
    unfolding calculate_quote
    fragile_mono = elim (Bool-cases p.is_fragile) [
      | inl packed ↦ rw packed (share_mono _ _ 18 base_mono)
      | inr plain ↦ rw plain (omega arith)
    ]

    raw_mono : raw_carrier_earning q ≤ raw_carrier_earning q'
    unfolding calculate_quote
    raw_mono = omega (
      arith,
      base_mono,
      fragile_mono,
      share_mono _ _ (category_extra_percent p.category) base_mono,
      share_mono _ _ (calculate_urgency_percent window) base_mono,
      share_mono _ _ (calculate_reliability_percent carrier) base_mono,
    )

    min_payout_mono : min_payout p ≤ min_payout (record p { weight_g = weight' })
    unfolding min_payout
    min_payout_mono = omega (
      arith,
      round_div_1000_mono (max p.weight_g 100 * 4500) (max weight' 100 * 4500) (omega arith),
    )

    earning_mono : q.carrier_earning ≤ q'.carrier_earning
    earning_mono = omega (
      arith,
      raw_mono,
      min_payout_mono,
      (quote_adds_up rate p).1,
      (quote_adds_up rate' (record p { weight_g = weight' })).1,
    )

    -- A heavier package or a higher rate, all else equal, earns the carrier no less and costs the
    -- sender no less.
    pub quote_mono : (q.carrier_earning ≤ q'.carrier_earning) × (q.total_charge ≤ q'.total_charge)
    unfolding calculate_quote
    quote_mono = (
      earning_mono,
      omega (arith, earning_mono, share_mono _ _ env.platform_fee_percent earning_mono),
    )

-- The deposit of the carrier is a tenth of the declared value, at least the default and at most
-- Rs 5,000.
pub deposit_bounds :
    (env : Env) (p : Package)
    → let d = calculate_safety_deposit_amount env p in
      (d ≤ 500000)
      × (min env.default_safety_deposit_paise 500000 ≤ d)
      × (min (declared_rupees p * 10) 500000 ≤ d)
      × (d ≤ max (declared_rupees p * 10) env.default_safety_deposit_paise)
unfolding calculate_safety_deposit_amount round_div
deposit_bounds env p = (ground arith, ground arith, ground arith, ground arith)
