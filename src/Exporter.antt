-- ===== src/Exporter.antt =====
-- The metrics exporter: from the broker's own topics to the series of a scrape.
pub mod Mapping
pub mod Collect
pub mod Process
pub mod Sessions
pub mod Series
