-- ===== src/Amqp.antt =====
-- The connection to the message broker: src/internal/app-transport/.
pub mod Buffer
pub mod Handler
pub mod Heartbeats
pub mod Socket
pub mod Transport
mod Tests
