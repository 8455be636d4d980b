-- ===== src/Aodv.antt =====
-- model/aqua-sim-routing-uw-aodv.h and .cc: the underwater AODV routing protocol.
pub mod Header
pub mod Codec
pub mod SeqNo
pub mod State
pub mod Table
pub mod Send
pub mod Rerr
pub mod Data
pub mod Discovery
pub mod Reply
pub mod Hello
pub mod Recv
pub mod Invariant
pub mod Run
