-- ===== src/Env.antt =====
-- backend/src/config/env.ts: the settings that the modelled handlers read, and how the database is
-- deployed.
use hop_drop.Common.{ℕ, Bool, ◌&&◌}

-- Whether the database accepts sessions and transactions: a replica set does; a standalone server
-- refuses the first operation of a transaction; a driver may refuse to start a session at all.
pub data Topology : Type 0 where
  replica_set standalone no_sessions unreachable : Topology

pub record Env : Type 0 where
  pub topology : Topology
  pub demo_mode : Bool
  pub platform_fee_percent : ℕ
  pub default_safety_deposit_paise : ℕ
  pub escrow_release_delay_ms : ℕ
  pub outbox_relay_enabled : Bool
  pub kafka_configured : Bool
  pub outbox_batch_size : ℕ
  pub outbox_max_attempts : ℕ

-- `shouldDispatchAsync` and `shouldRunOutboxRelay`
abbrev pub dispatches_async : Env → Bool
dispatches_async env = env.outbox_relay_enabled && env.kafka_configured
