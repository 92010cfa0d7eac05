-- ===== src/Platform.antt =====
-- What the services use of Go's standard library: times, printing, and the effects of `time`,
-- `crypto/rand` and `context`.
pub mod Time
pub mod Text
pub mod Json
pub mod Prometheus
pub mod Runtime
pub mod Float
