-- ===== src/Examples.antt =====
-- Concrete runs: each theorem at an input that exercises the code.
mod Libraries
mod Wire
mod Buffers
mod Peers
mod Signals
mod Connections
mod Subscriptions
mod Documents
mod Dispatch
mod Servicers
mod Json
mod Tls
