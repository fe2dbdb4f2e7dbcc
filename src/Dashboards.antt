-- ===== src/Dashboards.antt =====
-- src/monitoring/dashboards/model.py: the generated dashboards.
pub mod Grid
mod Tests
