-- ===== src/Protocol.antt =====
-- The wire protocol, RiftNet/src/protocol.
pub mod Packet
pub mod PacketFactory
pub mod Reliability
