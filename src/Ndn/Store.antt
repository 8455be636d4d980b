-- ===== src/Ndn/Store.antt =====
-- The content stores, model/ndn/cs-fifo and cs-lru. A name and its data are the pointers that the code
-- compares and hands out; 0 is the null pointer.
pub mod Fifo
pub mod Lru
