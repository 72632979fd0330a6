-- ===== src/Validator.antt =====
-- The package validator/: statuses and results, the checks, and the run that joins them.
pub mod Status
pub mod Redaction
pub mod Ids
pub mod Sampling
pub mod Context
pub mod Endpoints
pub mod GtfsSanity
pub mod Freshness
pub mod Loop
pub mod Arrivals
pub mod ServiceAlerts
pub mod TripUpdates
pub mod Vehicles
pub mod AgencyUnion
pub mod Prepare
pub mod Run
pub mod Tests
