-- ===== src/Rules.antt =====
-- src/monitoring/vmalert_rules.py: whether vmalert has loaded and evaluates the managed rules. `refused`
-- is `NotReady`, `broken` is any other exception.
pub mod Once
pub mod Events
pub mod Packs
pub mod Check
pub mod Validate
mod Tests
