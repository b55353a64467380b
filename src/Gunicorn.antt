-- ===== src/Gunicorn.antt =====
-- common/gunicorn/: what is shared between Django and Gunicorn for each request, and the metrics server.
pub mod Extras
pub mod Routes
pub mod MetricsServer
pub mod Options
mod Examples
pub mod AccessLog
pub mod Categories
pub mod Accesses
pub mod AccessFields
