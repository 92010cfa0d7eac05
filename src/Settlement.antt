-- ===== src/Settlement.antt =====
-- The settlement service (services/settlement-service).
pub mod Model
pub mod Interfaces
pub mod Json
pub mod Simulated
pub mod Repository
pub mod Service
pub mod Config
pub mod Wiring
pub mod Tasks
pub mod Interleaving
pub mod Kafka
pub mod Grpc
pub mod Tests
