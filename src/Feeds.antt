-- ===== src/Feeds.antt =====
-- The package feeds/: parsed feeds, the index over the static one, and the fetches.
pub mod Gtfs
pub mod Static
pub mod Fetch
pub mod Cache
mod Tests
