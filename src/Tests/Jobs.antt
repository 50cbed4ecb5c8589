-- ===== src/Tests/Jobs.antt =====
-- Runs of the workers of backend/src/queues: a match whose trip is about to leave.
use hop_drop.Common.{refl, true, [], none, some, ◌∷◌, ◌≡◌, ℕ}
use hop_drop.Queues.Rematch.Outcome.{process_sla_rematch_audit-matches, audited}
use hop_drop.Queues.Rematch.{
  cancelled_by_audit, Answers, process_sla_rematch_audit, waits_for_pickup,
}
use hop_drop.Model.Match.{MatchStatus, new_match, Match}
use hop_drop.Tests.Fixtures.{demo_env, demo_match, demo_store}
use hop_drop.Collection.{Unique, find_by_id}
use hop_drop.Store.{Store}

abbrev waiting_match : Match
waiting_match = record demo_match { status = MatchStatus.carrier_accepted }

abbrev overdue_store : Store
overdue_store = record demo_store { matches = (7, waiting_match) ∷ [] }

abbrev no_answers : ℕ → Answers
no_answers match trip = (none, none)

one_match : Unique overdue_store.matches
unfolding find_by_id
one_match = (refl, tt)

process_sla_rematch_audit-matches_example :
    find_by_id 7
      (process_sla_rematch_audit demo_env (λ a b. true) no_answers overdue_store).1.matches
    ≡ some (audited overdue_store waiting_match)
unfolding find_by_id
process_sla_rematch_audit-matches_example =
    process_sla_rematch_audit-matches demo_env (λ a b. true) no_answers overdue_store 7
      waiting_match one_match refl

-- It is overdue.
waiting_match_overdue : audited overdue_store waiting_match ≡ cancelled_by_audit 1000 waiting_match
unfolding waits_for_pickup find_by_id new_match
waiting_match_overdue = refl
