-- ===== src/Queues/Workers.antt =====
-- The workers of backend/src/queues that run the jobs of the handlers: matchQueue.ts, payoutQueue.ts
-- and reminderQueue.ts. Spans and counters of the observability are left out.
use hop_drop.Matching.Search
use hop_drop.Model.DeliveryRequest.{PaymentStatus, DeliveryRequest}
use hop_drop.Common.{
  true, false, ◌&&◌, none, some, [], ◌∷◌, ◌==◌, if◌then◌else◌, any, List, ⊤, Bool, Option, String,
  ℕ,
}
use hop_drop.Json.{end, num, field}
use hop_drop.Escrow.{release_funds, Payout}
use hop_drop.Model.Match.{MatchStatus, Match}
use hop_drop.Collection.{find_all, find_by_id, Collection}
use hop_drop.MatchService.Confirm.{has_status}
use hop_drop.Notify.{notify_user}
use hop_drop.Store.{Job, gets, pure, ◌>>=◌, ◌>>◌, Action}
use hop_drop.Matching.{CandidateRanking}
use hop_drop.Model.Trip.{Trip}
use hop_drop.Env.{Env}

-- What a payout job ends with.
pub data PayoutResult : Type 0 where
  match_not_found skipped_disputed : PayoutResult
  released : Payout → PayoutResult

abbrev is_unpaid : PaymentStatus → Bool
is_unpaid PaymentStatus.unpaid = true
is_unpaid _ = false

module _ (env : Env) where
  unfoldable pub release_unless_disputed : ℕ → Option Match → Action PayoutResult
  release_unless_disputed match none = pure match_not_found
  release_unless_disputed match (some m) =
      if has_status m.status MatchStatus.disputed
      then pure skipped_disputed
      else release_funds env match >>= λ p. pure (released p)

  -- The worker of the payouts.
  unfoldable pub run_payout : ℕ → Action PayoutResult
  unfolding release_unless_disputed
  run_payout match = do
    found ← gets (λ s. find_by_id match s.matches)
    release_unless_disputed match found

  -- The reminder two hours before a trip.
  unfoldable pub remind_carrier : ℕ → Option Trip → Action ⊤
  remind_carrier trip none = pure tt
  remind_carrier trip (some t) =
      notify_user env t.carrier "Trip Reminder"
        "Your trip starts in 2 hours. Prepare pickup coordination." "reminder"
        (some (field "tripId" (num trip) end))

  -- The query for the requests of a trip that are not paid.
  unfoldable pub is_unpaid_on : Trip → DeliveryRequest → Bool
  is_unpaid_on t r =
      elim r.match [ none ↦ false | some match ↦ any (λ j. j == match) t.matches ]
      && is_unpaid r.payment_status

  -- The loop over these requests.
  unfoldable pub remind_senders : ℕ → Collection DeliveryRequest → Action ⊤
  remind_senders trip [] = pure tt
  remind_senders trip ((k, r) ∷ requests) = do
    notify_user env r.sender "Payment Pending"
        "Trip departure is soon. Complete payment to avoid cancellation." "reminder"
        (some (field "tripId" (num trip) (field "requestId" (num k) end)))
    remind_senders trip requests

  -- The reminder half an hour before a trip.
  unfoldable pub remind_unpaid : ℕ → Option Trip → Action ⊤
  unfolding is_unpaid_on remind_senders
  remind_unpaid trip none = pure tt
  remind_unpaid trip (some t) = do
    requests ← gets (λ s. find_all (is_unpaid_on t) s.requests)
    remind_senders trip requests

  -- What the workers do with a job.
  unfoldable pub run_job :
      (String → String → Bool)
      → Option (List CandidateRanking)
      → Option (List CandidateRanking)
      → Job
      → Action ⊤
  unfolding run_payout remind_carrier remind_unpaid
  run_job in_city retrieved ranked (Job.release_payout match delay) =
      run_payout match >>= λ _. pure tt
  run_job in_city retrieved ranked (Job.trip_two_hour_reminder trip delay) = do
    found ← gets (λ s. find_by_id trip s.trips)
    remind_carrier trip found
  run_job in_city retrieved ranked (Job.trip_thirty_min_reminder trip delay) = do
    found ← gets (λ s. find_by_id trip s.trips)
    remind_unpaid trip found
  run_job in_city retrieved ranked (Job.find_matches request) =
      Search.find_matches env in_city retrieved ranked request >>= λ _. pure tt
