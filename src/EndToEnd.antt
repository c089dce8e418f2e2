-- ===== src/EndToEnd.antt =====
-- The client of src/core/rpc_client.cc and the server of src/core/rpc_server.cc together, with the
-- wire between them, and the code that smfc generates for both.
pub mod Answer
pub mod Generated
mod Tests
