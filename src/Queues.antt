-- ===== src/Queues.antt =====
-- The linked queue of packets, model/aqua-sim-routing-buffer.h and .cc.
pub mod Heap
pub mod RoutingBuffer
