-- ===== src/Apps.antt =====
-- The application registrations of the station: src/monitoring/apps/station_model.py and
-- src/monitoring/apps/station_mutate.py.
pub mod Renderer
pub mod Namespace
pub mod Inspect
pub mod Publish
pub mod Atomic
pub mod States
pub mod Steps
pub mod Manifests
pub mod Live
pub mod Transition
pub mod Accept
pub mod Recheck
mod Creation
pub mod Advance
pub mod Draft
pub mod First
pub mod Crash
pub mod Outcomes
mod Samples
mod Tests
