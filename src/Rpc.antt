-- ===== src/Rpc.antt =====
-- The message layer: what is sent, how it is framed, and how it is received.
pub mod Future
pub mod Stream
pub mod Header
pub mod Checksum
pub mod Letter
pub mod Envelope
pub mod Connection
pub mod RecvContext
pub mod TypedContext
pub mod Framing
pub mod Tests
