-- ===== src/Protocol/Reliability/Headers.antt =====
-- What the acknowledgements in a header leave alone: the receive side.
use rift_net.Base.{ℕ, ◌≡◌, inl, inr, refl, Bool-cases, List, [], ◌∷◌, arith}
use rift_net.Protocol.Packet.{ReliabilityPacketHeader}
use rift_net.Protocol.Reliability.{
  Floats, SentPacket, ReliableConnectionState, update_receive_window, process_acks,
  process_incoming_header, apply_rtt_sample, update_rtt, sample_acked, is_acked,
}

-- The receive side of a state, on which the window works.
abbrev pub SameWindow :
    {Float : Type 0} → ReliableConnectionState Float → ReliableConnectionState Float → Type 0
SameWindow s t =
    (s.highest_received_sequence ≡ t.highest_received_sequence)
    × (s.received_sequence_bitfield ≡ t.received_sequence_bitfield)
    × (s.next_outgoing_sequence ≡ t.next_outgoing_sequence)

module _ (floats : Floats) where
  open floats use {Float}

  sample_acked-SameWindow :
      (now : ℕ) (packet : SentPacket) (state : ReliableConnectionState Float)
      → SameWindow (sample_acked floats now packet state) state
  unfolding sample_acked apply_rtt_sample update_rtt
  sample_acked-SameWindow now packet state = ground arith

  pub process_acks-SameWindow :
      (header : ReliabilityPacketHeader) (now : ℕ) (packets : List SentPacket)
      (state : ReliableConnectionState Float)
      → SameWindow (process_acks floats header now packets state).0 state
  unfolding process_acks
  process_acks-SameWindow header now [] state = (refl, refl, refl)
  process_acks-SameWindow header now (packet ∷ packets) state =
      elim (Bool-cases (is_acked header packet.sequence)) [
        | inl acked ↦ rw acked (
            ground (
              arith,
              sample_acked-SameWindow now packet state,
              process_acks-SameWindow header now packets (sample_acked floats now packet state),
            ))
        | inr open_still ↦ rw open_still (process_acks-SameWindow header now packets state)
      ]

  -- The state on which the window is updated: the acknowledgements are worked off, and the receive
  -- side is as it was.
  unfoldable pub after_acks :
      ReliableConnectionState Float → ReliabilityPacketHeader → ℕ → ReliableConnectionState Float
  after_acks state header now =
      let (sampled, kept) =
        process_acks floats header now state.unacknowledged_packets
          (record state { last_packet_received_time = now }) in
      record sampled { unacknowledged_packets = kept }

  pub process_incoming_header-after_acks :
      (state : ReliableConnectionState Float) (header : ReliabilityPacketHeader) (now : ℕ)
      → process_incoming_header floats state header now
        ≡ update_receive_window (after_acks state header now) header
  unfolding process_incoming_header after_acks
  process_incoming_header-after_acks state header now = refl

  pub after_acks-SameWindow :
      (state : ReliableConnectionState Float) (header : ReliabilityPacketHeader) (now : ℕ)
      → SameWindow (after_acks state header now) state
  unfolding after_acks
  after_acks-SameWindow state header now =
      process_acks-SameWindow header now state.unacknowledged_packets
        (record state { last_packet_received_time = now })
