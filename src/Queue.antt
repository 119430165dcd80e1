-- ===== src/Queue.antt =====
-- The queue between the parts (backend/src/queue/kafka.rs): sending with retries, the limits on each
-- source and the consumers of logs and alerts.
pub mod Send
pub mod Connect
pub mod Limiter
pub mod Forward
pub mod Consume
