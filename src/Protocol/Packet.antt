-- ===== src/Protocol/Packet.antt =====
-- RiftNet/src/protocol/Packet/Packet.hpp: the packet types and the packed headers, as they lie in
-- memory on the little-endian hosts that the library is built for.
use rift_net.Base.{ℕ, ◌^◌, ◌<◌, ◌≡◌, refl, List, [], ◌∷◌, ◌++◌, take, drop, length, arith}
use rift_net.Base.Bytes.{le_bytes, of_le_bytes, of_le_bytes-le_bytes}

pub data PacketType : Type 0 where
  handshake_request handshake_challenge handshake_response handshake_verified : PacketType
  disconnect data_unreliable data_reliable heartbeat heartbeat_ack : PacketType

-- The value of the enumerator, a `uint8_t`.
abbrev pub to_byte : PacketType → ℕ
to_byte PacketType.handshake_request = 0
to_byte PacketType.handshake_challenge = 1
to_byte PacketType.handshake_response = 2
to_byte PacketType.handshake_verified = 3
to_byte PacketType.disconnect = 4
to_byte PacketType.data_unreliable = 5
to_byte PacketType.data_reliable = 6
to_byte PacketType.heartbeat = 7
to_byte PacketType.heartbeat_ack = 8

-- A header read from the wire may hold a byte that is no enumerator.
pub record GeneralPacketHeader : Type 0 where
  pub packet_type : ℕ

pub record ReliabilityPacketHeader : Type 0 where
  pub sequence : ℕ
  pub ack : ℕ
  pub ack_bitfield : ℕ

-- `sizeof` of the two packed structs.
abbrev pub general_size : ℕ
general_size = 1

abbrev pub reliability_size : ℕ
reliability_size = 8

-- The bytes that `memcpy` copies out of a header.
unfoldable pub general_bytes : GeneralPacketHeader → List ℕ
general_bytes h = h.packet_type ∷ []

unfoldable pub reliability_bytes : ReliabilityPacketHeader → List ℕ
reliability_bytes h = le_bytes 2 h.sequence ++ (le_bytes 2 h.ack ++ le_bytes 4 h.ack_bitfield)

-- The header that `memcpy` fills from the bytes at the front of a buffer.
unfoldable pub read_reliability : List ℕ → ReliabilityPacketHeader
read_reliability bs = record {
  sequence = of_le_bytes (take 2 bs);
  ack = of_le_bytes (take 2 (drop 2 bs));
  ack_bitfield = of_le_bytes (take 4 (drop 4 bs));
}

-- Every field is in the range of its type.
pub record IsHeader (h : ReliabilityPacketHeader) : Type 0 where
  pub sequence_fits : h.sequence < 65536
  pub ack_fits : h.ack < 65536
  pub bitfield_fits : h.ack_bitfield < 2 ^ 32

pub length-reliability_bytes : (h : ReliabilityPacketHeader) → length (reliability_bytes h) ≡ 8
unfolding reliability_bytes le_bytes
length-reliability_bytes h = refl

pub read_reliability-reliability_bytes :
    (h : ReliabilityPacketHeader) (rest : List ℕ)
    → IsHeader h
    → read_reliability (reliability_bytes h ++ rest) ≡ h
unfolding reliability_bytes read_reliability
read_reliability-reliability_bytes h rest v =
    λ i. record { sequence = seq i; ack = ack i; ack_bitfield = field i }
  where
    seq : of_le_bytes (take 2 (reliability_bytes h ++ rest)) ≡ h.sequence
    seq = unfold le_bytes in of_le_bytes-le_bytes 2 h.sequence (omega (arith, v.sequence_fits))

    ack : of_le_bytes (take 2 (drop 2 (reliability_bytes h ++ rest))) ≡ h.ack
    ack = unfold le_bytes in of_le_bytes-le_bytes 2 h.ack (omega (arith, v.ack_fits))

    field : of_le_bytes (take 4 (drop 4 (reliability_bytes h ++ rest))) ≡ h.ack_bitfield
    field =
        unfold le_bytes in of_le_bytes-le_bytes 4 h.ack_bitfield (omega (arith, v.bitfield_fits))
