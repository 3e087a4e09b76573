-- ===== src/Latency.antt =====
-- The latency instruments: src/timing.hpp, src/latency_measurement.hpp and src/latency_monitor.hpp.
pub mod Timing
pub mod Measurement
pub mod Monitor
