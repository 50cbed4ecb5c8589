-- ===== src/Reports.antt =====
-- What backend/src reports of its documents: the jobs of a carrier and the counts of the analytics.
pub mod Jobs
pub mod Analytics
