-- ===== src/Delivery.antt =====
-- backend/src/services/delivery.service.ts: a sender's requests. The database's search by the name
-- of a city is an argument.
pub mod Requests
pub mod Refund
pub mod Matches
