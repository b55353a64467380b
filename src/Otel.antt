-- ===== src/Otel.antt =====
-- common/core/otel.py: endpoints, event names, and the processor that sends log records to OpenTelemetry.
-- inflection.underscore, json.dumps and str are parameters.
pub mod Endpoints
pub mod Events
pub mod Records
pub mod Attributes
mod Examples
