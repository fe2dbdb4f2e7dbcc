-- ===== src/AgentApps.antt =====
-- The registrations of applications on their host: src/monitoring/agents/apps.py.
pub mod Scope
pub mod Manifests
pub mod Reconcile
pub mod Merge
mod Registry
mod Current
mod Steps
mod Writes
mod Laws
mod Quiet
mod Tests
