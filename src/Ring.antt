-- ===== src/Ring.antt =====
-- src/ring_buffer.hpp: ring buffers for one producer and one consumer.
pub mod Window
pub mod Spsc
pub mod Blocking
pub mod Mpsc
