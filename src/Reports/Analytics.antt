-- ===== src/Reports/Analytics.antt =====
-- The counts of backend/src/services/analytics.service.ts over the stored documents. The times at
-- which accounts are opened are not kept here, so the counts of new accounts are left out.
use hop_drop.Delivery.Requests.{is_pending_request, is_active_trip}
use hop_drop.Model.DeliveryRequest.{DeliveryRequest}
use hop_drop.Model.Trip.{Trip}
use hop_drop.MatchService.Confirm.{has_status}
use hop_drop.Collection.{find_all, Collection}
use hop_drop.Model.Match.{Match, MatchStatus}
use hop_drop.Store.{Store}
use hop_drop.Common.{
  ℕ, ◌*◌, String, Bool, true, ◌||◌, List, [], ◌∷◌, ltb, if◌then◌else◌, round_div, length,
}

-- `countDocuments`
abbrev pub count_documents : {A : Type 0} → (A → Bool) → Collection A → ℕ
count_documents p c = length (find_all p c)

abbrev all_documents : {A : Type 0} → A → Bool
all_documents a = true

pub record AnalyticsSummary : Type 0 where
  pub total_users : ℕ
  pub total_trips : ℕ
  pub active_trips : ℕ
  pub total_deliveries : ℕ
  pub pending_deliveries : ℕ
  pub total_matches : ℕ
  pub completed_matches : ℕ
  pub active_matches : ℕ
  pub conversion_per_mille : ℕ

-- `getAnalyticsSummary`; no trip is upcoming and no match accepted, statuses that the models do not
-- have. The rate is a percentage with one digit after the point.
unfoldable pub get_analytics_summary : Store → AnalyticsSummary
get_analytics_summary s =
    let total = count_documents all_documents s.matches in
    let completed =
      count_documents (λ (m : Match). has_status m.status MatchStatus.delivered) s.matches in
    record {
      total_users = count_documents all_documents s.users;
      total_trips = count_documents all_documents s.trips;
      active_trips = count_documents (λ (t : Trip). is_active_trip t.status) s.trips;
      total_deliveries = count_documents all_documents s.requests;
      pending_deliveries =
          count_documents (λ (r : DeliveryRequest). is_pending_request r.status) s.requests;
      total_matches = total;
      completed_matches = completed;
      active_matches =
          count_documents
            (λ (m : Match).
              has_status m.status MatchStatus.proposed
              || has_status m.status MatchStatus.in_transit)
            s.matches;
      conversion_per_mille = if ltb 0 total then round_div (completed * 1000) total else 0;
    }

-- `getMatchFunnel`: the counts of its stages, in their order.
unfoldable pub get_match_funnel : Store → List (String × ℕ)
get_match_funnel s =
    ("Delivery Requested", count_documents all_documents s.requests)
    ∷ ("Match Found", count_documents all_documents s.matches)
    ∷ ("Carrier Accepted", 0)
    ∷ (
      "In Transit",
      count_documents (λ (m : Match). has_status m.status MatchStatus.in_transit) s.matches,
    )
    ∷ (
      "Delivered",
      count_documents (λ (m : Match). has_status m.status MatchStatus.delivered) s.matches,
    )
    ∷ (
      "Cancelled",
      count_documents (λ (m : Match). has_status m.status MatchStatus.cancelled) s.matches,
    )
    ∷ []
