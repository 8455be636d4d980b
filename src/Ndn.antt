-- ===== src/Ndn.antt =====
-- model/ndn: named data networking, its tables and its content stores.
pub mod Store
pub mod Pit
pub mod Fib
pub mod Payload
pub mod NamedData
