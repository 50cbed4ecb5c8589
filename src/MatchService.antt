-- ===== src/MatchService.antt =====
-- backend/src/services/match.service.ts: the life of a match, from the proposal to the rating. The
-- draws of the one-time codes and of the lock's token are arguments.
pub mod Status
pub mod Confirm
pub mod Handover
pub mod Feedback
pub mod Effects
pub mod Evidence
pub mod Run
pub mod Ratings
