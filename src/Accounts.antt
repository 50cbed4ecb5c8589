-- ===== src/Accounts.antt =====
-- Accounts in backend/src/services: auth.service.ts and googleAuth.service.ts with the tokens of the
-- sessions, and user.service.ts with the profile, the identity checks and the deactivation.
pub mod Sessions
pub mod Revoked
pub mod Profile
pub mod Text
