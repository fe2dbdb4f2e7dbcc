-- ===== src/Journald.antt =====
-- src/monitoring/agents/journald.py: the bounds of the systemd journal.
pub mod Values
pub mod Effective
pub mod Render
pub mod Check
mod Tests
