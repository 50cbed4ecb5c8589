-- ===== src/Escrow/Quoted.antt =====
-- How a release of backend/src/services/escrow.service.ts shares out the charge of a quote of
-- backend/src/utils/pricing.ts.
use hop_drop.Pricing.Fairness.{quote_adds_up}
use hop_drop.Common.{
  ◌-◌, refl, sym, or_num, zero, suc, ◌≤◌, ◌<◌, Option, some, round_div, ℕ, ◌+◌, ◌*◌, ◌≡◌, arith,
}
use hop_drop.Escrow.{sender_payment_of, payout_of}
use hop_drop.Pricing.{calculate_quote, Quote, category_min_payout_paise, min_payout}
use hop_drop.Model.DeliveryRequest.{DeliveryRequest, Package}
use hop_drop.Model.Trip.{Trip}
use hop_drop.Model.Match.{Match}
use hop_drop.Model.User.{User}
use hop_drop.Env.{Env}

least_payout : (p : Package) → 5900 ≤ min_payout p
unfolding min_payout category_min_payout_paise
least_payout p = ground arith

fee_without_percent :
    (percent earning paid fee : ℕ)
    → 5900 ≤ earning
    → 2 * (earning * percent) < 200 * fee + 100
    → fee ≡ 0
    → round_div (paid * percent) 100 ≡ 0
unfolding round_div
fee_without_percent zero earning paid fee big small free = ground arith
fee_without_percent (suc percent) earning paid fee big small free = absurd (grind arith)

or_num_pos : (a b : ℕ) → 0 < a → or_num (some a) b ≡ a
or_num_pos a b h = ground arith

or_num_zero : (a b : ℕ) → (a ≡ 0 → b ≡ 0) → or_num (some a) b ≡ a
or_num_zero zero b h = h refl
or_num_zero (suc a) b h = ground arith

module _ (env : Env) (rate : ℕ) (carrier : Option User) (m : Match) (t : Trip)
    (r : DeliveryRequest) where
  abbrev pub quote_of : Quote
  quote_of = calculate_quote env rate carrier r.preferred_delivery_window r.parcel

  -- A request that carries the amounts of its quote is shared out exactly: the carrier gets the
  -- earning that was quoted, and the earning and the fee make up what the sender paid.
  pub payout_of-quote :
      r.quoted_price ≡ some quote_of.carrier_earning
      → r.platform_fee ≡ some quote_of.platform_fee
      → r.total_charge ≡ some quote_of.total_charge
      → let p = payout_of env m t r in
        (p.payout_to_carrier ≡ quote_of.carrier_earning)
        × (p.payout_to_carrier + p.platform_fee ≡ sender_payment_of m r)
  unfolding payout_of
  payout_of-quote priced taxed charged =
      let q = quote_of in
      let sums = quote_adds_up env carrier r.preferred_delivery_window rate r.parcel in
      let big : 5900 ≤ q.carrier_earning = omega (arith, sums.1, least_payout r.parcel) in
      let paid : or_num (some q.total_charge) m.agreed_price ≡ q.total_charge =
        or_num_pos q.total_charge m.agreed_price (omega (arith, sums.0, big)) in
      rw (priced, taxed, charged, paid)
        (rw
          (
            or_num_pos q.carrier_earning
                (q.total_charge
                  - or_num (some q.platform_fee)
                      (round_div (q.total_charge * env.platform_fee_percent) 100))
                (omega (arith, big)),
            or_num_zero q.platform_fee (round_div (q.total_charge * env.platform_fee_percent) 100) (
                fee_without_percent env.platform_fee_percent q.carrier_earning q.total_charge
                  q.platform_fee big sums.3),
          )
          (refl, sym sums.0))
