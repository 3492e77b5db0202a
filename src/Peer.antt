-- ===== src/Peer.antt =====
-- The two ends of a connection: what the transports share, and the plain TCP socket.
pub mod Json
pub mod Effects
pub mod Base
pub mod Tcp
pub mod Tls
