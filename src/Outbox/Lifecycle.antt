-- ===== src/Outbox/Lifecycle.antt =====
-- The life of an outbox event under the relay (backend/src/services/outboxRelay.service.ts): what
-- holds of every event between two flushes, and what a flush leaves behind.
use hop_drop.Outbox.Health.{
  Stored-update, Within-nil, Within-update, retry_or_fail-Healthy, Within, claim-Healthy,
  publish-Healthy, retry_or_fail-settles, Healthy, Settled, Stored, publish-settles,
}
use hop_drop.Common.{
  ℕ, ◌≡◌, refl, inl, inr, String, false, Option, none, some, List, [], ◌∷◌, arith, Bool-cases,
  Option-cases, All,
}
use hop_drop.Env.{Env}
use hop_drop.Model.OutboxEvent.{OutboxEvent, processing}
use hop_drop.Collection.{Collection, find_by_id, update_by_id, Unique, Every}
use hop_drop.Collection.Laws.{
  find_by_id-update, find_by_id-update_self, Unique-update, Every-update,
}
use hop_drop.Outbox.{
  is_due, claim_outbox_batch, publish, retry_or_fail, mark_outbox_event_published,
  release_outbox_event,
}
use hop_drop.Outbox.Claim.{
  listed, claim-listed, Distinct, claim-Distinct, claim-stored, claim-Unique, claim-Every,
  claim-processing, claim-not_due,
}
use hop_drop.Outbox.Relay.{
  KafkaMessage, Relay, relay_event, relay_events, flush_outbox_batch, kafka_message,
}

module _ (env : Env) (send : KafkaMessage → Option String) (now : ℕ) where
  -- What becomes of a claimed event, by the broker's answer.
  pub settle : ℕ → OutboxEvent → OutboxEvent → OutboxEvent
  settle k e a = elim (send (kafka_message k e)) [
    | none ↦ publish now a
    | some message ↦ retry_or_fail now message env.outbox_max_attempts a
  ]

  relay_event-outbox :
      (k : ℕ) (e : OutboxEvent) (r : Relay)
      → (relay_event env send now (k, e) r).outbox ≡ update_by_id k (settle k e) r.outbox
  unfolding relay_event settle mark_outbox_event_published release_outbox_event
  relay_event-outbox k e r = elim (Option-cases (send (kafka_message k e))) [
    | inl q ↦ rw (q, relay_event, settle) refl
    | inr (m, q) ↦ rw (q, relay_event, settle) refl
  ]

  settle-Healthy :
      (k : ℕ) (e a : OutboxEvent)
      → a.status ≡ processing
      → Healthy env.outbox_max_attempts a
      → Healthy env.outbox_max_attempts (settle k e a)
  unfolding settle
  settle-Healthy k e a p h = elim (Option-cases (send (kafka_message k e))) [
    | inl q ↦ rw (q, settle) (publish-Healthy _ now a p h)
    | inr (m, q) ↦ rw (q, settle) (retry_or_fail-Healthy _ now m a p h)
  ]

  settle-settles : (k : ℕ) (e a : OutboxEvent) → (settle k e a).status ≡ processing → ⊥
  unfolding settle
  settle-settles k e a = elim (Option-cases (send (kafka_message k e))) [
    | inl q ↦ rw (q, settle) (publish-settles now a)
    | inr (m, q) ↦ rw (q, settle) (retry_or_fail-settles now _ m a)
  ]

  -- What the loop of a flush keeps, over the part of the batch that is still to come.
  record Flushing (l : List (ℕ × OutboxEvent)) (c : Collection OutboxEvent) : Type 0 where
    unique : Unique c
    healthy : Every (Healthy env.outbox_max_attempts) c
    within : Within l c
    stored : Stored c l
    distinct : Distinct l

  Flushing-update :
      (k : ℕ) (e : OutboxEvent) (l : List (ℕ × OutboxEvent)) (c : Collection OutboxEvent)
      → Flushing ((k, e) ∷ l) c
      → Flushing l (update_by_id k (settle k e) c)
  Flushing-update k e l c h = record {
    unique = Unique-update k (settle k e) c h.unique;
    healthy =
        Every-update (Healthy env.outbox_max_attempts) k (settle k e) c h.healthy
          (λ a f. settle-Healthy k e a (status_of a f) (h.healthy k a f));
    within = Within-update k e l (settle k e) c (settle-settles k e) h.within;
    stored = Stored-update k (settle k e) c l h.distinct.0 h.stored.1;
    distinct = h.distinct.1;
  }
    where
      status_of : (a : OutboxEvent) → find_by_id k c ≡ some a → a.status ≡ processing
      status_of a f = ground (arith, h.stored.0)

  relay_events-Settled :
      (l : List (ℕ × OutboxEvent)) (r : Relay)
      → Flushing l r.outbox
      → Settled env.outbox_max_attempts (relay_events env send now l r).outbox
  unfolding relay_events
  relay_events-Settled [] r h = record {
    unique = h.unique;
    healthy = h.healthy;
    quiet = Within-nil r.outbox h.within;
  }
  relay_events-Settled ((k, e) ∷ l) r h =
      relay_events-Settled l (relay_event env send now (k, e) r)
        (rw (relay_event-outbox k e r) (Flushing-update k e l r.outbox h))

  -- An event outside the rest of the batch is not touched again.
  relay_events-unlisted :
      (l : List (ℕ × OutboxEvent)) (r : Relay) (k : ℕ) (e : OutboxEvent)
      → listed k l ≡ false
      → find_by_id k r.outbox ≡ some e
      → find_by_id k (relay_events env send now l r).outbox ≡ some e
  unfolding relay_events
  relay_events-unlisted [] r k e d f = f
  relay_events-unlisted ((j, a) ∷ l) r k e d f =
      relay_events-unlisted l (relay_event env send now (j, a) r) k e (ground arith) (
        rw (relay_event-outbox j a r) (ground (arith, find_by_id-update k j (settle j a) r.outbox)))

  relay_events-settle :
      (l : List (ℕ × OutboxEvent)) (r : Relay)
      → Stored r.outbox l
      → Distinct l
      → All
          (λ x. find_by_id x.0 (relay_events env send now l r).outbox ≡ some (settle x.0 x.1 x.1))
          l
  unfolding relay_events
  relay_events-settle [] r h d = tt
  relay_events-settle ((k, e) ∷ l) r h d =
      let r' = relay_event env send now (k, e) r in
      (
        relay_events-unlisted l r' k (settle k e e) d.0
            (rw (relay_event-outbox k e r) (find_by_id-update_self k (settle k e) r.outbox h.0.0)),
        relay_events-settle l r'
            (rw (relay_event-outbox k e r) (Stored-update k (settle k e) r.outbox l d.0 h.1)) d.1,
      )

  Flushing-claim :
      (c : Collection OutboxEvent)
      → Settled env.outbox_max_attempts c
      → let (claimed, c') = claim_outbox_batch env.outbox_batch_size now c in Flushing claimed c'
  Flushing-claim c h = record {
    unique = claim-Unique env.outbox_batch_size now c h.unique;
    healthy =
        claim-Every (Healthy env.outbox_max_attempts) env.outbox_batch_size now c h.unique h.healthy
          (claim-Healthy env.outbox_max_attempts now);
    within = λ k e f p.
        ground (arith, claim-processing env.outbox_batch_size now c k e f p, h.quiet k e);
    stored = claim-stored env.outbox_batch_size now c h.unique;
    distinct = claim-Distinct env.outbox_batch_size now c h.unique;
  }

  -- From a settled outbox, whatever the broker answers, a flush leaves a settled outbox and the
  -- relay idle: identifiers stay distinct, no event is left in processing, a pending event has an
  -- attempt left, a failed one has had them all, none has had more, and an event that is pending
  -- has no date of deletion.
  pub flush-Settled :
      (r : Relay)
      → r.is_running ≡ false
      → Settled env.outbox_max_attempts r.outbox
      → let r' = flush_outbox_batch env send now r in
        Settled env.outbox_max_attempts r'.outbox × (r'.is_running ≡ false)
  unfolding flush_outbox_batch
  flush-Settled r idle h =
      rw (idle, flush_outbox_batch)
        (
          relay_events-Settled (claim_outbox_batch env.outbox_batch_size now r.outbox).0 _
              (Flushing-claim r.outbox h),
          refl,
        )

  -- Every event that a flush claims ends as the broker's answer says: published if the message was
  -- acknowledged, otherwise waiting for a retry or failed.
  pub flush_settles_claimed :
      (r : Relay)
      → r.is_running ≡ false
      → Settled env.outbox_max_attempts r.outbox
      → All
          (λ x.
            find_by_id x.0 (flush_outbox_batch env send now r).outbox ≡ some (settle x.0 x.1 x.1))
          (claim_outbox_batch env.outbox_batch_size now r.outbox).0
  unfolding flush_outbox_batch
  flush_settles_claimed r idle h =
      let f = Flushing-claim r.outbox h in
      rw (idle, flush_outbox_batch)
        (relay_events-settle (claim_outbox_batch env.outbox_batch_size now r.outbox).0 _ f.stored
          f.distinct)

  -- A flush does not touch an event that is not due: one that is published or failed stays so, and
  -- a retry does not come before its time.
  pub flush-not_due :
      (r : Relay) (k : ℕ) (e : OutboxEvent)
      → Unique r.outbox
      → find_by_id k r.outbox ≡ some e
      → is_due now e ≡ false
      → find_by_id k (flush_outbox_batch env send now r).outbox ≡ some e
  unfolding flush_outbox_batch
  flush-not_due r k e u f d = elim (Bool-cases r.is_running) [
    | inl busy ↦ rw (busy, flush_outbox_batch) f
    | inr idle ↦
        rw (idle, flush_outbox_batch)
          (relay_events-unlisted (claim_outbox_batch env.outbox_batch_size now r.outbox).0 _ k e
            (claim-listed env.outbox_batch_size now r.outbox k e u f d)
            (claim-not_due env.outbox_batch_size now r.outbox k e u f d))
  ]
