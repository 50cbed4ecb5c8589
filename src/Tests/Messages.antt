-- ===== src/Tests/Messages.antt =====
-- Runs of the outbox and its relay in backend/src/services, on a broker that refuses one event.
use hop_drop.Common.{
  String, ◌≡◌, true, false, Option, arith, ◌==◌, if◌then◌else◌, All, ℕ, refl, some, none, [], ◌∷◌,
}
use hop_drop.Outbox.{
  AppendOutboxEventInput, claim, is_due, claim_outbox_batch, new_event, oldest_due,
}
use hop_drop.Model.OutboxEvent.{processing, OutboxEvent, Topic}
use hop_drop.Collection.Laws.{Every-nil, Every-cons}
use hop_drop.Outbox.Health.{new_event-Healthy, Healthy, Settled}
use hop_drop.Outbox.Lifecycle.{flush-not_due, flush_settles_claimed, flush-Settled, settle}
use hop_drop.Outbox.Claim.{claim_drains}
use hop_drop.Collection.{Every, update_by_id, Collection, find_by_id}
use hop_drop.Json.{end}
use hop_drop.Outbox.Relay.{KafkaMessage, Relay, flush_outbox_batch}
use hop_drop.Tests.Fixtures.{demo_env}

abbrev demo_input : ℕ → ℕ → AppendOutboxEventInput
demo_input aggregate available = record {
  topic = Topic.match;
  event_type = "MatchProposed";
  aggregate_type = "match";
  aggregate_id = aggregate;
  partition_key = none;
  payload = end;
  headers = none;
  available_at = some available;
}

abbrev demo_event : ℕ → ℕ → OutboxEvent
demo_event created available = new_event created (demo_input created available)

-- The first event waits for a retry; the second is older than the third.
abbrev demo_outbox : Collection OutboxEvent
demo_outbox = (1, demo_event 100 9000) ∷ (2, demo_event 200 200) ∷ (3, demo_event 300 300) ∷ []

abbrev demo_relay : Relay
demo_relay = record { is_running = false; timer = true; outbox = demo_outbox; sent = [] }

-- The broker refuses the event 3.
abbrev demo_send : KafkaMessage → Option String
demo_send m = if m.event_id == 3 then some "refused" else none

demo_outbox-Every :
    (P : OutboxEvent → Type 0)
    → ((created available : ℕ) → P (demo_event created available))
    → Every P demo_outbox
demo_outbox-Every P h = Every-cons P 1 (demo_event 100 9000) _ (h 100 9000) (
    Every-cons P 2 (demo_event 200 200) _ (h 200 200)
      (Every-cons P 3 (demo_event 300 300) _ (h 300 300) (Every-nil P)))

demo_outbox-Settled : Settled 3 demo_outbox
unfolding new_event find_by_id
demo_outbox-Settled = record {
  unique = (refl, (refl, (refl, tt)));
  healthy =
      demo_outbox-Every (Healthy 3) (λ c a. new_event-Healthy c 3 (demo_input c a) (omega arith));
  quiet = demo_outbox-Every (λ e. e.status ≡ processing → ⊥) (λ c a p. cc);
}

-- After all that is due is claimed, the event that waits for its retry is still not due.
claim_drains_example : is_due 1000 (demo_event 100 9000) ≡ false
unfolding claim_outbox_batch oldest_due new_event claim is_due update_by_id find_by_id
claim_drains_example = claim_drains 5 1000 demo_outbox (omega arith) 1 (demo_event 100 9000) refl

flush-Settled_example :
    let r' = flush_outbox_batch demo_env demo_send 1000 demo_relay in
    Settled 3 r'.outbox × (r'.is_running ≡ false)
flush-Settled_example = flush-Settled demo_env demo_send 1000 demo_relay refl demo_outbox-Settled

flush_settles_claimed_example :
    All
      (λ x.
        find_by_id x.0 (flush_outbox_batch demo_env demo_send 1000 demo_relay).outbox
        ≡ some (settle demo_env demo_send 1000 x.0 x.1 x.1))
      (claim_outbox_batch 10 1000 demo_outbox).0
flush_settles_claimed_example =
    flush_settles_claimed demo_env demo_send 1000 demo_relay refl demo_outbox-Settled

flush-not_due_example :
    find_by_id 1 (flush_outbox_batch demo_env demo_send 1000 demo_relay).outbox
    ≡ some (demo_event 100 9000)
unfolding find_by_id new_event is_due
flush-not_due_example =
    flush-not_due demo_env demo_send 1000 demo_relay 1 (demo_event 100 9000)
      (refl, (refl, (refl, tt))) refl refl
