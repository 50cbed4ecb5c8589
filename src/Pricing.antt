-- ===== src/Pricing.antt =====
-- backend/src/utils/pricing.ts: the quote for a package on a trip. The code computes with
-- fractions; here a weight is in grams, an amount in paise, a rate in whole rupees per kilogram,
-- and a factor in hundredths, so that each `Math.round` is one division.
pub mod Fairness
pub mod Projections
pub mod Earnings
pub mod Estimate
use hop_drop.Env.{Env}
use hop_drop.Model.DeliveryRequest.{Package, DeliveryWindow}
use hop_drop.Model.User.{User}
use hop_drop.Common.{
  ◌&&◌, Option, none, some, ltb, leb, if◌then◌else◌, ℕ, ◌+◌, ◌*◌, ◌-◌, max, min, round_div,
}
use hop_drop.Model.Trip.{Category, documents, clothing, electronics, food, fragile, medicine, other}

-- `CATEGORY_MULTIPLIER`, less 1, in hundredths
unfoldable pub category_extra_percent : Category → ℕ
category_extra_percent documents = 0
category_extra_percent clothing = 0
category_extra_percent electronics = 18
category_extra_percent food = 8
category_extra_percent fragile = 22
category_extra_percent medicine = 16
category_extra_percent other = 5

-- `CATEGORY_MIN_PAYOUT_PAISE`
unfoldable pub category_min_payout_paise : Category → ℕ
category_min_payout_paise documents = 5900
category_min_payout_paise clothing = 6900
category_min_payout_paise electronics = 11900
category_min_payout_paise food = 7900
category_min_payout_paise fragile = 12900
category_min_payout_paise medicine = 9900
category_min_payout_paise other = 7900

abbrev pub hour_ms : ℕ
hour_ms = 60 * 60 * 1000

-- `calculateUrgencyMultiplier`, in hundredths; a request has both ends of its window.
unfoldable pub calculate_urgency_percent : DeliveryWindow → ℕ
calculate_urgency_percent w =
    if leb w.latest w.earliest
    then 0
    else if leb (w.latest - w.earliest) (8 * hour_ms)
    then 20
    else if leb (w.latest - w.earliest) (24 * hour_ms)
    then 12
    else if leb (w.latest - w.earliest) (48 * hour_ms)
    then 6
    else 0

-- `calculateReliabilityMultiplier`, in hundredths; the carrier is there if the trip is populated,
-- and the average is in hundredths of a star.
unfoldable pub calculate_reliability_percent : Option User → ℕ
calculate_reliability_percent none = 0
calculate_reliability_percent (some u) =
    if leb 480 u.rating.average && leb 20 u.total_deliveries
    then 5
    else if leb 460 u.rating.average && leb 8 u.total_deliveries
    then 3
    else 0

-- The rate of the handling of a value, in thousandths.
abbrev pub risk_per_mille : Category → ℕ
risk_per_mille electronics = 6
risk_per_mille fragile = 6
risk_per_mille _ = 4

-- A declared value in rupees, 0 if there is none.
abbrev pub declared_rupees : Package → ℕ
declared_rupees p = elim p.declared_value [ none ↦ 0 | some v ↦ v ]

-- `calculateValueHandlingExtra`
unfoldable pub calculate_value_handling_extra : Package → ℕ
calculate_value_handling_extra p =
    if leb (declared_rupees p) 5000
    then 0
    else min (round_div (declared_rupees p * 100 * risk_per_mille p.category) 1000) 75000

-- `calculateSafetyDepositAmount`
unfoldable pub calculate_safety_deposit_amount : Env → Package → ℕ
calculate_safety_deposit_amount env p =
    let declared_value_deposit =
      if ltb 0 (declared_rupees p) then round_div (declared_rupees p * 100) 10 else 0 in
    min (max declared_value_deposit env.default_safety_deposit_paise) 500000

pub record Quote : Type 0 where
  pub base_price : ℕ
  pub category_extra : ℕ
  pub fragile_extra : ℕ
  pub urgency_extra : ℕ
  pub value_handling_extra : ℕ
  pub reliability_bonus : ℕ
  pub min_payout_adjustment : ℕ
  pub carrier_earning : ℕ
  pub platform_fee : ℕ
  pub total_charge : ℕ
  pub safety_deposit_amount : ℕ

-- `minPayout`
unfoldable pub min_payout : Package → ℕ
unfolding category_min_payout_paise
min_payout p =
    max (category_min_payout_paise p.category) (round_div (max p.weight_g 100 * 4500) 1000)

abbrev pub raw_carrier_earning : Quote → ℕ
raw_carrier_earning q =
    q.base_price + q.category_extra + q.fragile_extra + q.urgency_extra + q.value_handling_extra
    + q.reliability_bonus

-- `calculateQuote`, for a rate, a carrier, and a package with its window.
unfoldable pub calculate_quote : Env → ℕ → Option User → DeliveryWindow → Package → Quote
unfolding category_extra_percent calculate_urgency_percent calculate_reliability_percent
    calculate_value_handling_extra calculate_safety_deposit_amount min_payout
calculate_quote env rate carrier window p =
    let base_price = round_div (max rate 1 * max p.weight_g 100 * 100) 1000 in
    let category_extra = round_div (base_price * category_extra_percent p.category) 100 in
    let fragile_extra = if p.is_fragile then round_div (base_price * 18) 100 else 0 in
    let urgency_extra = round_div (base_price * calculate_urgency_percent window) 100 in
    let value_handling_extra = calculate_value_handling_extra p in
    let reliability_bonus = round_div (base_price * calculate_reliability_percent carrier) 100 in
    let raw =
      base_price + category_extra + fragile_extra + urgency_extra + value_handling_extra
      + reliability_bonus in
    let min_payout_adjustment = min_payout p - raw in
    let carrier_earning = raw + min_payout_adjustment in
    let platform_fee = round_div (carrier_earning * env.platform_fee_percent) 100 in
    record {
      base_price = base_price;
      category_extra = category_extra;
      fragile_extra = fragile_extra;
      urgency_extra = urgency_extra;
      value_handling_extra = value_handling_extra;
      reliability_bonus = reliability_bonus;
      min_payout_adjustment = min_payout_adjustment;
      carrier_earning = carrier_earning;
      platform_fee = platform_fee;
      total_charge = carrier_earning + platform_fee;
      safety_deposit_amount = calculate_safety_deposit_amount env p;
    }
