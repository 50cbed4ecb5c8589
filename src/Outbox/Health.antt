-- ===== src/Outbox/Health.antt =====
-- What holds of each event of backend/src/services/outbox.service.ts, through claims, publications
-- and retries.
use hop_drop.Common.{
  ℕ, ◌≤◌, ◌<◌, ◌≡◌, ◌⊎◌, inl, inr, String, true, false, none, some, List, [], ◌∷◌, arith, ◌==◌,
  Bool-cases, Option-cases, All,
}
use hop_drop.Model.OutboxEvent.{OutboxEvent, pending, processing, published, failed}
use hop_drop.Collection.{Collection, find_by_id, update_by_id, Unique, Every}
use hop_drop.Collection.Laws.{find_by_id-update}
use hop_drop.Outbox.{is_due, claim, publish, retry_or_fail, new_event, AppendOutboxEventInput}
use hop_drop.Outbox.Claim.{listed}

-- How often an event was tried, by its status, and that only an event at its end has a date at
-- which the database deletes it.
pub record Healthy (max_attempts : ℕ) (e : OutboxEvent) : Type 0 where
  pub waiting : e.status ≡ pending → e.attempts < max_attempts
  pub claimed : e.status ≡ processing → e.attempts ≤ max_attempts
  pub done : e.status ≡ published → e.attempts ≤ max_attempts
  pub given_up : e.status ≡ failed → max_attempts ≤ e.attempts
  pub kept : (e.status ≡ pending) ⊎ (e.status ≡ processing) → e.expires_at ≡ none

-- An event is appended healthy, if at least one attempt is allowed.
pub new_event-Healthy :
    (now max_attempts : ℕ) (i : AppendOutboxEventInput)
    → 0 < max_attempts
    → Healthy max_attempts (new_event now i)
unfolding new_event
new_event-Healthy now max_attempts i h = ground arith

pub claim-Healthy :
    (max_attempts now : ℕ) (e : OutboxEvent)
    → is_due now e ≡ true
    → Healthy max_attempts e
    → Healthy max_attempts (claim e)
unfolding claim is_due
claim-Healthy max_attempts now e due h = ground arith

pub publish-Healthy :
    (max_attempts now : ℕ) (e : OutboxEvent)
    → e.status ≡ processing
    → Healthy max_attempts e
    → Healthy max_attempts (publish now e)
unfolding publish
publish-Healthy max_attempts now e p h = ground arith

pub retry_or_fail-Healthy :
    (max_attempts now : ℕ) (message : String) (e : OutboxEvent)
    → e.status ≡ processing
    → Healthy max_attempts e
    → Healthy max_attempts (retry_or_fail now message max_attempts e)
unfolding retry_or_fail
retry_or_fail-Healthy max_attempts now message e p h = ground arith

-- No event is being processed.
abbrev pub Quiet : Collection OutboxEvent → Type 0
Quiet = Every (λ e. e.status ≡ processing → ⊥)

-- Only events of the batch are being processed.
abbrev pub Within : List (ℕ × OutboxEvent) → Collection OutboxEvent → Type 0
Within claimed c =
    (k : ℕ) (e : OutboxEvent)
    → find_by_id k c ≡ some e
    → e.status ≡ processing
    → listed k claimed ≡ true

pub Within-nil : (c : Collection OutboxEvent) → Within [] c → Quiet c
Within-nil c w k e f p = cc (w k e f p)

-- A settled event leaves the batch.
pub Within-update :
    (k : ℕ) (e : OutboxEvent) (claimed : List (ℕ × OutboxEvent)) (g : OutboxEvent → OutboxEvent)
    (c : Collection OutboxEvent)
    → ((a : OutboxEvent) → (g a).status ≡ processing → ⊥)
    → Within ((k, e) ∷ claimed) c
    → Within claimed (update_by_id k g c)
Within-update k e claimed g c settles w j a f p = elim (Bool-cases (k == j)) [
  | inl same ↦ elim (Option-cases (find_by_id j c)) [
    | inl q ↦ ground (arith, find_by_id-update j k g c)
    | inr (b, q) ↦ absurd (settles b (ground (arith, find_by_id-update j k g c)))
  ]
  | inr other ↦ ground (arith, w j a, find_by_id-update j k g c)
]

-- Between two flushes: identifiers are not used twice, every event is healthy, and none is being
-- processed.
pub record Settled (max_attempts : ℕ) (c : Collection OutboxEvent) : Type 0 where
  pub unique : Unique c
  pub healthy : Every (Healthy max_attempts) c
  pub quiet : Quiet c

pub publish-settles : (now : ℕ) (a : OutboxEvent) → (publish now a).status ≡ processing → ⊥
unfolding publish
publish-settles now a p = cc

pub retry_or_fail-settles :
    (now max_attempts : ℕ) (message : String) (a : OutboxEvent)
    → (retry_or_fail now message max_attempts a).status ≡ processing
    → ⊥
unfolding retry_or_fail
retry_or_fail-settles now max_attempts message a p = ground arith

-- The events of a batch that are still to come are stored as the batch holds them.
abbrev pub Stored : Collection OutboxEvent → List (ℕ × OutboxEvent) → Type 0
Stored c = All (λ x. (find_by_id x.0 c ≡ some x.1) × (x.1.status ≡ processing))

pub Stored-update :
    (k : ℕ) (g : OutboxEvent → OutboxEvent) (c : Collection OutboxEvent)
    (l : List (ℕ × OutboxEvent))
    → listed k l ≡ false
    → Stored c l
    → Stored (update_by_id k g c) l
Stored-update k g c [] d h = tt
Stored-update k g c ((j, e) ∷ l) d h =
    (ground (arith, find_by_id-update j k g c, h.0), Stored-update k g c l (ground arith) h.1)
