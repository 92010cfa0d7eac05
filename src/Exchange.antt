-- ===== src/Exchange.antt =====
-- The exchange-rate service (services/exchange-rate-service).
pub mod Model
pub mod Corridors
pub mod Interfaces
pub mod Json
pub mod Repository
pub mod Simulated
pub mod Pricing
pub mod Service
pub mod Config
pub mod Wiring
pub mod Metrics
pub mod Http
pub mod Routes
pub mod Grpc
pub mod Tests
