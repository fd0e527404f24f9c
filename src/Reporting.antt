-- ===== src/Reporting.antt =====
-- Reports.
pub mod CampAgeGroups
mod Tests
