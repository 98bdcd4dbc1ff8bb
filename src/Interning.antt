-- ===== src/Interning.antt =====
-- The terms of the interface and the numbers that the knowledge base keeps for them.
pub mod Integers
pub mod Pool
pub mod Term
pub mod Mapper
