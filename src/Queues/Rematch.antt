-- ===== src/Queues/Rematch.antt =====
-- `processSlaRematchAudit` of backend/src/queues/slaRematchQueue.ts: a match whose trip is about to
-- leave and whose pickup has not happened is cancelled, and its request is offered to other trips.
-- The answers of the routing search are arguments, for each cancelled match and each other trip.
pub mod Outcome
use hop_drop.Store.{continue, gets, when, pure, ◌>>=◌, ◌>>◌, Store, modify, Action}
use hop_drop.Collection.{find_by_id, update_by_id, Collection, find_all}
use hop_drop.Json.{end, text, field, obj}
use hop_drop.Matching.Search.{match_trip_against_pending_requests}
use hop_drop.Common.{
  true, [], ◌∷◌, ok, err, is_some, ◌==◌, leb, not, ◌&&◌, filter, some, ◌||◌, false, none, take,
  List, if◌then◌else◌, ◌*◌, Bool, Option, String, ⊤, ◌+◌, Result, ℕ,
}
use hop_drop.Delivery.Requests.{is_active_trip}
use hop_drop.Model.DeliveryRequest.{created, DeliveryRequest}
use hop_drop.MatchService.Status.{set_request_status, save_match, push_entry}
use hop_drop.Matching.{CandidateRanking}
use hop_drop.Model.Match.{MatchStatus, TimelineEvent, Match}
use hop_drop.MatchService.Confirm.{has_status}
use hop_drop.Model.Trip.{Trip}
use hop_drop.Env.{Env}

-- The query for the matches that wait for their pickup.
unfoldable pub waits_for_pickup : Match → Bool
waits_for_pickup m =
    (has_status m.status MatchStatus.carrier_accepted
      || has_status m.status MatchStatus.sender_confirmed
      || has_status m.status MatchStatus.pickup_pending)
    && not (is_some m.pickup_otp.verified_at)

-- `new Date(now.getTime() + 45 * 60 * 1000)`
abbrev pub cutoff_time : ℕ → ℕ
cutoff_time now = now + 45 * 60 * 1000

-- A trip that is there, and leaves by the cutoff.
abbrev pub leaves_by : ℕ → Option Trip → Bool
leaves_by cutoff none = false
leaves_by cutoff (some t) = leb t.departure_time cutoff

-- What the audit makes of the document of the match.
unfoldable pub cancelled_by_audit : ℕ → Match → Match
cancelled_by_audit now m =
    push_entry
      (record {
        event = TimelineEvent.cancelled;
        timestamp = now;
        actor = none;
        metadata = some (
            obj (
              field "reason"
                (text
                  "Auto-cancelled due to SLA pickup timeout (<45 mins to departure with no pickup).")
                end));
      })
      (record m { status = MatchStatus.cancelled })

-- `$inc: { 'rating.count': 1 }`; `carrierPreferences.lastGhostedAt` is no path of the strict schema of
-- users, so that mongoose leaves it out of the update.
unfoldable pub penalize_carrier : ℕ → Action ⊤
penalize_carrier carrier = modify (λ s. record s {
  users =
      update_by_id carrier
        (λ u. record u { rating = record u.rating { count = u.rating.count + 1 } }) s.users;
})

-- `$inc: { 'availableCapacity.weightKg': weightKg }`
unfoldable pub revert_capacity : ℕ → ℕ → Action ⊤
revert_capacity trip weight = modify (λ s. record s {
  trips =
      update_by_id trip
        (λ t. record t {
          available_capacity = record t.available_capacity {
            weight_g = t.available_capacity.weight_g + weight;
          };
        })
        s.trips;
})

-- The answers of the routing search to the searches of one rematch, by trip.
abbrev pub Answers : Type 0
Answers = ℕ → Option (List CandidateRanking) × Option (List CandidateRanking)

-- What the audit counts.
pub record Audit : Type 0 where
  pub cancelled_count : ℕ
  pub rematched_count : ℕ

-- The `catch` around the searches: an error is logged.
abbrev pub rematch_result : Result ⊤ × Store → Result Bool × Store
rematch_result (ok _, s) = (ok true, s)
rematch_result (err e, s) = (ok false, s)

-- The other trips, of which five are searched.
abbrev pub other_trips : ℕ → ℕ → Store → Collection Trip
other_trips now trip s = take 5 (
    filter (λ x. not (x.0 == trip) && is_active_trip x.1.status && leb now x.1.departure_time)
      s.trips)

-- The capacity goes back to the trip, if the request is there.
unfoldable pub revert_trip : ℕ → Option DeliveryRequest → Action ⊤
unfolding revert_capacity
revert_trip trip none = pure tt
revert_trip trip (some r) =
    when (not (r.parcel.weight_g == 0)) (revert_capacity trip r.parcel.weight_g)

abbrev pub count_rematch : Bool → Audit → Audit
count_rematch rematched a = record {
  cancelled_count = a.cancelled_count + 1;
  rematched_count = if rematched then a.rematched_count + 1 else a.rematched_count;
}

module _ (env : Env) (in_city : String → String → Bool) where
  -- The loop over the other trips.
  unfoldable pub rematch_trips : Answers → Collection Trip → Action ⊤
  rematch_trips answers [] = pure tt
  rematch_trips answers ((k, t) ∷ trips) = do
    match_trip_against_pending_requests env in_city (answers k).0 (answers k).1 k
    rematch_trips answers trips

  -- The request is opened again, and offered to other trips, if it is there.
  unfoldable pub reopen_request : Answers → ℕ → ℕ → ℕ → Option DeliveryRequest → Action Bool
  unfolding rematch_trips
  reopen_request answers now trip request none = pure false
  reopen_request answers now trip request (some r) = do
    set_request_status request created
    trips ← gets (other_trips now trip)
    λ s. rematch_result (rematch_trips answers trips s)

  -- What the audit does with a match that is overdue: whether it was offered to other trips.
  unfoldable pub cancel_overdue : Answers → ℕ → ℕ → Match → Option DeliveryRequest → Action Bool
  unfolding cancelled_by_audit penalize_carrier revert_trip reopen_request
  cancel_overdue answers now match m request = do
    save_match match (cancelled_by_audit now)
    penalize_carrier m.carrier
    revert_trip m.trip request
    reopen_request answers now m.trip m.delivery_request request

  -- The loop over the matches that were found; trips and requests are those of that time.
  unfoldable pub audit_matches : (ℕ → Answers) → Store → Collection Match → Audit → Action Audit
  audit_matches answers found [] a s = (ok a, s)
  audit_matches answers found ((k, m) ∷ matches) a s =
      let cancelled =
        cancel_overdue (answers k) found.now k m (find_by_id m.delivery_request found.requests) s in
      let skip = audit_matches answers found matches a s in
      let go_on =
        continue cancelled (λ b. audit_matches answers found matches (count_rematch b a)) in
      if leaves_by (cutoff_time found.now) (find_by_id m.trip found.trips) then go_on else skip

  -- `processSlaRematchAudit`
  unfoldable pub process_sla_rematch_audit : (ℕ → Answers) → Action Audit
  unfolding waits_for_pickup audit_matches cancel_overdue
  process_sla_rematch_audit answers s =
      audit_matches answers s (find_all waits_for_pickup s.matches)
        (record { cancelled_count = 0; rematched_count = 0 }) s
