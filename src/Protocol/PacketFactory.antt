-- ===== src/Protocol/PacketFactory.antt =====
-- RiftNet/src/protocol/PacketFactory: packets from payloads, and back.
pub mod RoundTrip
use rift_net.Base.{
  ℕ, ◌-◌, Bool, ltb, ◌==◌, if◌then◌else◌, Option, none, some, List, [], ◌∷◌, ◌++◌, drop, length,
}
use rift_net.Protocol.Packet.{
  PacketType, to_byte, GeneralPacketHeader, ReliabilityPacketHeader, general_size, reliability_size,
  general_bytes, read_reliability,
}
use rift_net.Protocol.Reliability.{ReliableConnectionState, prepare_outgoing_packet}

-- The out-parameters of a `ParsePacket` that returns true. (When it returns false its caller reads
-- none of them.)
pub record ParsedPacket : Type 0 where
  pub general : GeneralPacketHeader
  pub reliability : ReliabilityPacketHeader
  pub payload : List ℕ

-- What `memset` leaves in the header of a packet that is not reliable.
abbrev pub zero_header : ReliabilityPacketHeader
zero_header = record { sequence = 0; ack = 0; ack_bitfield = 0 }

parse_reliable : ℕ → List ℕ → Option ParsedPacket
parse_reliable byte rest =
    if ltb (length rest) reliability_size
    then none
    else some (record {
      general = record { packet_type = byte };
      reliability = read_reliability rest;
      payload = drop reliability_size rest;
    })

unfoldable pub parse_packet : List ℕ → Option ParsedPacket
unfolding parse_reliable
parse_packet [] = none
parse_packet (byte ∷ rest) =
    if byte == to_byte PacketType.data_reliable
    then parse_reliable byte rest
    else some (record {
      general = record { packet_type = byte };
      reliability = zero_header;
      payload = rest;
    })

unfoldable pub create_simple_packet : PacketType → List ℕ
create_simple_packet type = general_bytes (record { packet_type = to_byte type })

unfoldable pub create_unreliable_data_packet : List ℕ → List ℕ
create_unreliable_data_packet payload =
    general_bytes (record { packet_type = to_byte PacketType.data_unreliable }) ++ payload

unfoldable pub create_reliable_data_packet :
    {Float : Type 0}
    → ReliableConnectionState Float
    → List ℕ
    → ℕ
    → ReliableConnectionState Float × List ℕ
create_reliable_data_packet = prepare_outgoing_packet
