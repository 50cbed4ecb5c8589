-- ===== src/TripService.antt =====
-- backend/src/services/trip.service.ts: a carrier's trips.
pub mod Trips
pub mod Custody
pub mod Search
pub mod Paging
pub mod Deposits
