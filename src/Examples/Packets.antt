-- ===== src/Examples/Packets.antt =====
-- Packets, nonces and HELLO frames at concrete inputs.
use rift_net.Base.{ℕ, refl, ◌≡◌, some, [], ◌∷◌, arith}
use rift_net.Protocol.Packet.{PacketType, to_byte, IsHeader}
use rift_net.Protocol.PacketFactory.{parse_packet, create_reliable_data_packet}
use rift_net.Protocol.PacketFactory.RoundTrip.{
  outgoing_header, parse_packet-create_reliable_data_packet,
}
use rift_net.Security.Encryptor.Nonce.{expand_nonce_injective}
use rift_net.Examples.Toys.{used_state}

used_state-IsHeader : IsHeader (outgoing_header used_state)
used_state-IsHeader = record {
  sequence_fits = omega arith;
  ack_fits = omega arith;
  bitfield_fits = omega arith;
}

parse_packet-create_reliable_data_packet_example :
    parse_packet (create_reliable_data_packet used_state (104 ∷ 105 ∷ []) 7).1
    ≡ some (record {
      general = record { packet_type = to_byte PacketType.data_reliable };
      reliability = record { sequence = 65535; ack = 10; ack_bitfield = 5 };
      payload = 104 ∷ 105 ∷ [];
    })
parse_packet-create_reliable_data_packet_example =
    parse_packet-create_reliable_data_packet used_state (104 ∷ 105 ∷ []) 7 used_state-IsHeader

expand_nonce_injective_example : ◌≡◌ {A = ℕ} 258 258
expand_nonce_injective_example = expand_nonce_injective 258 258 (omega arith) (omega arith) refl
