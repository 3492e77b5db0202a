-- ===== src/Wire.antt =====
-- The two wire formats: WebSocket frames, and the packets of the streaming protocol inside them.
pub mod WebSocket
pub mod Streaming
