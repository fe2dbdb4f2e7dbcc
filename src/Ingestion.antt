-- ===== src/Ingestion.antt =====
-- src/monitoring/agents/ingestion.py: the authorization and normalization of what the agents send.
-- `refused` is one of `ValueError`, `KeyError` and `TypeError`, `broken` is another exception.
pub mod Peer
pub mod Logs
pub mod Snappy
pub mod Post
pub mod Slots
mod Tests
