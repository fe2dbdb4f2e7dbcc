-- ===== src/Scrape.antt =====
-- The scrape configuration of VictoriaMetrics on the station: src/monitoring/scrape_mutate.py and
-- the checks of src/monitoring/scrape.py on its files.
pub mod Files
pub mod Mutate
pub mod Runtime
mod Prepare
mod Covered
mod Protocol
mod Returns
mod Tests
