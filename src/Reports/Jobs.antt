-- ===== src/Reports/Jobs.antt =====
-- `listAvailableJobs` of backend/src/services/job.service.ts: the matches of a carrier that are not
-- over, with their amounts, those that were made last first.
use hop_drop.Collection.{find_all, find_by_id}
use hop_drop.MatchService.Confirm.{has_status}
use hop_drop.Model.DeliveryRequest.{DeliveryRequest}
use hop_drop.Model.Match.{Match, MatchStatus}
use hop_drop.Store.{Store}
use hop_drop.Common.{
  ℕ, ◌-◌, ◌*◌, Bool, ◌&&◌, ◌||◌, Option, none, some, List, map, ltb, ◌==◌, if◌then◌else◌, or_num,
  round_div,
}
use mathlib.Core.List.{reverse}

-- `AVAILABLE_JOB_STATUSES`
unfoldable pub is_available_job : ℕ → Match → Bool
is_available_job carrier m =
    m.carrier == carrier
    && (has_status m.status MatchStatus.proposed
        || has_status m.status MatchStatus.carrier_accepted
        || has_status m.status MatchStatus.sender_confirmed
        || has_status m.status MatchStatus.active
        || has_status m.status MatchStatus.pickup_pending
        || has_status m.status MatchStatus.picked_up
        || has_status m.status MatchStatus.in_transit
        || has_status m.status MatchStatus.delivery_pending)

-- `financials`
pub record JobFinancials : Type 0 where
  pub payout_to_carrier : ℕ
  pub total_charge : ℕ
  pub platform_fee : ℕ
  pub payout_per_kg : ℕ
  pub package_weight_g : ℕ

unfoldable pub financials_of : Match → Option DeliveryRequest → JobFinancials
financials_of m request =
    let payout = or_num m.payout_to_carrier 0 in
    let charge : ℕ = elim request [ none ↦ 0 | some r ↦ or_num r.total_charge 0 ] in
    let total = or_num (some m.agreed_price) charge in
    let weight : ℕ = elim request [ none ↦ 0 | some r ↦ r.parcel.weight_g ] in
    record {
      payout_to_carrier = payout;
      total_charge = total;
      platform_fee = total - payout;
      payout_per_kg = if ltb 0 weight then round_div (payout * 1000) weight else 0;
      package_weight_g = weight;
    }

-- `listAvailableJobs`
unfoldable pub list_available_jobs : ℕ → Store → List (ℕ × Match × JobFinancials)
unfolding is_available_job financials_of
list_available_jobs carrier s =
    map (λ x. (x.0, x.1, financials_of x.1 (find_by_id x.1.delivery_request s.requests)))
      (reverse (find_all (is_available_job carrier) s.matches))
