-- ===== src/Serial.antt =====
-- The key-value store of p6/prototype-serial/kernel.
pub mod HashTable
pub mod Blocks
pub mod Flash
pub mod Store
pub mod Insert
pub mod Format
pub mod Collect
pub mod Persist
pub mod Mount
pub mod Set
pub mod Device
mod Tests
