-- ===== src/Model/OutboxEvent.antt =====
-- backend/src/models/OutboxEvent.ts: an event that waits to be published.
use hop_drop.Common.{ℕ, ◌*◌, String, Option}
use hop_drop.Json.{Fields}

pub data OutboxEventStatus : Type 0 where
  pending processing published failed : OutboxEventStatus

pub OutboxEventStatus-discrete : Discrete OutboxEventStatus
OutboxEventStatus-discrete = hlevel

-- backend/src/events/domainEvents.ts: the topics.
pub data Topic : Type 0 where
  trip delivery match payment notification realtime : Topic

pub record OutboxEvent : Type 0 where
  pub topic : Topic
  pub event_type : String
  pub aggregate_type : String
  pub aggregate_id : ℕ
  pub partition_key : Option ℕ
  pub payload : Fields
  pub headers : Fields
  pub status : OutboxEventStatus
  pub attempts : ℕ
  pub available_at : ℕ
  pub published_at : Option ℕ
  pub last_error : Option String
  pub expires_at : Option ℕ
  pub created_at : ℕ

-- Seven days.
abbrev pub outbox_retention_seconds : ℕ
outbox_retention_seconds = 7 * 24 * 60 * 60
