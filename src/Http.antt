-- ===== src/Http.antt =====
-- The HTTP server's side of one connection, include/ws-streaming/detail/http_client_servicer.hpp.
pub mod Servicer
