-- ===== src/Tests.antt =====
-- Concrete runs of the modelled services of backend/src, on one small store.
mod Fixtures
mod Ledger
mod Messages
mod Codes
mod Matches
mod Requests
mod Trips
mod Ranking
mod Inputs
mod Searches
mod Jobs
mod Accounts
mod Overload
mod Prices
mod Rooms
mod Streams
mod Places
