-- ===== src/Queues.antt =====
-- The workers of backend/src/queues: what each does with a job, as an action on the store. BullMQ
-- itself, its retries and its schedule are not modelled: a job is run when it is run.
pub mod Rematch
pub mod Reconciler
pub mod Workers
pub mod Scan
