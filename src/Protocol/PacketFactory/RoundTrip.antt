-- ===== src/Protocol/PacketFactory/RoundTrip.antt =====
-- Parsing what the factory made.
use rift_net.Base.{
  ℕ, ◌<◌, ◌≡◌, ◌≢◌, ◌↔◌, ◌⊎◌, inl, inr, refl, none, some, List, [], ◌∷◌, ◌++◌, length,
  length-append, drop-append, arith,
}
use rift_net.Protocol.Packet.{
  PacketType, to_byte, ReliabilityPacketHeader, IsHeader, general_bytes, reliability_bytes,
  length-reliability_bytes, read_reliability-reliability_bytes,
}
use rift_net.Protocol.Reliability.{ReliableConnectionState, prepare_outgoing_packet}
use rift_net.Protocol.PacketFactory.{
  zero_header, parse_packet, create_simple_packet, create_unreliable_data_packet,
  create_reliable_data_packet,
}

-- The header that the next reliable packet carries.
abbrev pub outgoing_header :
    {Float : Type 0} → ReliableConnectionState Float → ReliabilityPacketHeader
outgoing_header state = record {
  sequence = state.next_outgoing_sequence;
  ack = state.highest_received_sequence;
  ack_bitfield = state.received_sequence_bitfield;
}

parse_packet_reliable :
    (h : ReliabilityPacketHeader) (payload : List ℕ)
    → IsHeader h
    → parse_packet (6 ∷ (reliability_bytes h ++ payload))
      ≡ some (record { general = record { packet_type = 6 }; reliability = h; payload = payload })
unfolding parse_packet
parse_packet_reliable h payload v = ground (
  arith,
  length-append (reliability_bytes h) payload,
  length-reliability_bytes h,
  read_reliability-reliability_bytes h payload v,
  drop-append (reliability_bytes h) payload 8 (length-reliability_bytes h),
)

-- A reliable packet parses to the reliable type, to the sequence number that it took from the state
-- with the state's acknowledgement fields, and to exactly its payload, if the state's fields are in
-- range.
pub parse_packet-create_reliable_data_packet :
    {Float : Type 0} (state : ReliableConnectionState Float) (payload : List ℕ) (now : ℕ)
    → IsHeader (outgoing_header state)
    → parse_packet (create_reliable_data_packet state payload now).1
      ≡ some (record {
        general = record { packet_type = to_byte PacketType.data_reliable };
        reliability = outgoing_header state;
        payload = payload;
      })
unfolding create_reliable_data_packet prepare_outgoing_packet general_bytes
parse_packet-create_reliable_data_packet state payload now v =
    parse_packet_reliable (outgoing_header state) payload v

-- An unreliable packet parses to its payload under an all-zero reliability header; a simple packet
-- parses to its type and no payload, exactly when that type is not the reliable one.
pub parse_packet-create_plain :
    ((payload : List ℕ)
      → parse_packet (create_unreliable_data_packet payload)
        ≡ some (record {
          general = record { packet_type = to_byte PacketType.data_unreliable };
          reliability = zero_header;
          payload = payload;
        }))
    × ((type : PacketType)
        → (parse_packet (create_simple_packet type)
            ≡ some (record {
              general = record { packet_type = to_byte type };
              reliability = zero_header;
              payload = [];
            }))
          ↔ (type ≢ PacketType.data_reliable))
unfolding parse_packet create_unreliable_data_packet create_simple_packet general_bytes
parse_packet-create_plain = (λ payload. refl, λ type. (accepts type, refuses type))
  where
    Simple : PacketType → Type 0
    Simple type =
        parse_packet (create_simple_packet type)
        ≡ some (record {
          general = record { packet_type = to_byte type };
          reliability = zero_header;
          payload = [];
        })

    accepts : (type : PacketType) → Simple type → type ≢ PacketType.data_reliable
    accepts type h = ground arith

    refuses : (type : PacketType) → type ≢ PacketType.data_reliable → Simple type
    refuses type h = ground arith

-- `ParsePacket` refuses exactly the empty buffer and a reliable packet with fewer than eight bytes
-- behind its type.
pub parse_packet-eq-none :
    (bytes : List ℕ)
    → (parse_packet bytes ≡ none)
      ↔ ((bytes ≡ []) ⊎ ((rest : List ℕ) × (bytes ≡ 6 ∷ rest) × (length rest < 8)))
unfolding parse_packet
parse_packet-eq-none [] = (λ h. inl refl, λ h. refl)
parse_packet-eq-none (byte ∷ rest) = (short, λ h. refused h)
  where
    short :
        parse_packet (byte ∷ rest) ≡ none
        → (byte ∷ rest ≡ []) ⊎ ((more : List ℕ) × (byte ∷ rest ≡ 6 ∷ more) × (length more < 8))
    short h = inr (rest, ground arith, ground arith)

    refused :
        (byte ∷ rest ≡ []) ⊎ ((more : List ℕ) × (byte ∷ rest ≡ 6 ∷ more) × (length more < 8))
        → parse_packet (byte ∷ rest) ≡ none
    refused h = ground arith
