-- ===== src/Filter.antt =====
-- Filters: transformations of messages before they are sent and after they are received.
pub mod Apply
pub mod Codec
pub mod Compression
pub mod EndToEnd
pub mod Tests
