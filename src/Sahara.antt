-- ===== src/Sahara.antt =====
-- lib/include/mbootcore/core/protocols/sahara and lib/src/core/protocols/sahara.
pub mod Packets
pub mod Serializer
pub mod Parser
pub mod RoundTrip
pub mod Machine
pub mod Device
pub mod Protocol
