-- ===== src/Signals.antt =====
-- src/monitoring/agents/signals.py: whether fresh signals of a host have reached the station. `refused`
-- is one of the exceptions of a connection, `broken` is another exception.
pub mod Queries
pub mod Check
mod Tests
