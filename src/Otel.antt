-- ===== src/Otel.antt =====
-- The packages under otel/.
pub mod HttpHandler
pub mod Testkit
pub mod Provider
