-- ===== src/Smfc/Cpp.antt =====
-- src/smfc/cpp_generator.cc and src/smfc/cpp_generator.h.
pub mod Service
pub mod Client
pub mod Gen
pub mod Balanced
pub mod Closes
