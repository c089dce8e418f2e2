-- ===== src/Server.antt =====
-- The server: routing, the dispatch of one request, and the life of many connections.
pub mod Stats
pub mod Router
pub mod Semaphore
pub mod Dispatch
pub mod Machine
pub mod Writes
pub mod Shutdown
pub mod Start
pub mod Tests
