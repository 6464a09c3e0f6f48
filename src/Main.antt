-- ===== src/Main.antt =====
-- The process: pkg/service/registration.go (HostId),
-- service_api.go (Requests), service.go (Run) and loki_logger.go (Loki).
pub mod HostId
pub mod Loki
pub mod Requests
pub mod Run
