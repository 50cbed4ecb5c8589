-- ===== src/Http.antt =====
-- The parts of the HTTP layer of backend/src that decide something: middleware and the start.
pub mod Shedder
pub mod Guards
pub mod Start
