-- ===== src/Connection.antt =====
-- src/connection.cpp and include/ws-streaming/connection.hpp: a connection between two ends.
pub mod Store
pub mod Local
pub mod Publish
pub mod Receive
pub mod Delivery
pub mod Handlers
pub mod CommandClient
pub mod Hello
pub mod Parameters
pub mod Dispatch
pub mod Messages
