-- ===== src/System.antt =====
-- src/svc/system: startup and shutdown of the application.
pub mod SystemAo
