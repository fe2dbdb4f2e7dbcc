-- ===== src/Grafana.antt =====
-- src/monitoring/grafana_credentials.py: the local administrator of Grafana.
pub mod Outcome
pub mod Input
pub mod Accounts
pub mod Query
pub mod Program
pub mod Requests
pub mod Reconcile
mod Tests
