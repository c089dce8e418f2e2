-- ===== src/Smfc.antt =====
-- smfc, the code generator: the directory smfc.
pub mod Printer
pub mod Names
pub mod Balance
pub mod Schema
pub mod Generated
pub mod Plain
pub mod Cpp
pub mod Go
pub mod Python
pub mod Driver
pub mod Tests
