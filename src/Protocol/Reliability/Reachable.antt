-- ===== src/Protocol/Reliability/Reachable.antt =====
-- The states that a reliable connection can get into, by any sequence of the protocol's functions.
use rift_net.Base.{ℕ, suc, ◌<◌, ◌≡◌, sym, ◌∙◌, Bool, some, List, arith, inl, inr}
use rift_net.Protocol.Packet.{PacketType, to_byte, ReliabilityPacketHeader, IsHeader}
use rift_net.Protocol.PacketFactory.RoundTrip.{outgoing_header}
use rift_net.Protocol.PacketFactory.{parse_packet}
use rift_net.Protocol.Reliability.{
  Floats, SentPacket, ReliableConnectionState, initial_state, prepare_outgoing_packet,
  process_incoming_header, process_retransmissions,
}
use rift_net.Protocol.Reliability.Window.{IsWindow, update_receive_window_lem}
use rift_net.Protocol.Reliability.Acks.{process_incoming_header_lem}
use rift_net.Protocol.Reliability.Headers.{
  after_acks, after_acks-SameWindow, process_incoming_header-after_acks,
}
use rift_net.Protocol.Reliability.Timers.{
  FloatLaws, InRange, initial_state-TimeoutInRange, process_incoming_header-InRange,
  process_retransmissions-InRange,
}

-- One call after another on a state that is new at first. Headers come off the wire, so that their
-- sequence number has 16 bits; a header that runs into undefined behaviour leads nowhere.
pub data Reachable (floats : Floats) : ReliableConnectionState floats.Float → Type 0 where
  started : (now : ℕ) → Reachable floats (initial_state floats now)
  sent :
      {state : ReliableConnectionState floats.Float} (payload : List ℕ) (now : ℕ)
      → Reachable floats state
      → Reachable floats (prepare_outgoing_packet state payload now).0
  received :
      {state state' : ReliableConnectionState floats.Float} (header : ReliabilityPacketHeader)
      (now : ℕ) (fresh : Bool)
      → header.sequence < 65536
      → process_incoming_header floats state header now ≡ some (state', fresh)
      → Reachable floats state
      → Reachable floats state'
  resent :
      {state : ReliableConnectionState floats.Float} (now : ℕ)
      → Reachable floats state
      → Reachable floats (process_retransmissions floats state now).0

module _ (floats : Floats) where
  abbrev State : Type 0
  State = ReliableConnectionState floats.Float

  -- In every reachable state the retransmission timeout is not less than 100, and 3000 is not less
  -- than it, by laws on the floats' constants and doubling. (A NaN is neither.)
  Reachable-InRange :
      (laws : FloatLaws floats) {state : State} → Reachable floats state → InRange floats laws state
  unfolding prepare_outgoing_packet
  Reachable-InRange laws (started now) = initial_state-TimeoutInRange floats laws now
  Reachable-InRange laws (sent payload now r) = Reachable-InRange laws r
  Reachable-InRange laws {state = state'} (received {state = state} header now fresh fits e r) =
      process_incoming_header-InRange floats laws state state' header now fresh
        (Reachable-InRange laws r) e
  Reachable-InRange laws (resent {state = state} now r) =
      process_retransmissions-InRange floats laws state now (Reachable-InRange laws r)

  -- The window stays in range over a header.
  received-IsWindow :
      (state state' : State) (header : ReliabilityPacketHeader) (now : ℕ) (fresh : Bool)
      → header.sequence < 65536
      → process_incoming_header floats state header now ≡ some (state', fresh)
      → IsWindow state
      → IsWindow state'
  received-IsWindow state state' header now fresh fits e v =
      let mid = after_acks floats state header now in
      let same = after_acks-SameWindow floats state header now in
      let w : IsWindow mid = record {
        highest_fits = rw same.0 v.highest_fits;
        bitfield_fits = rw same.1 v.bitfield_fits;
      } in
      elim (update_receive_window_lem mid header w fits state' fresh
        (sym (process_incoming_header-after_acks floats state header now) ∙ e)) [
          | inl (_, acc) ↦ acc.window
          | inr (_, unchanged, _) ↦ rw unchanged w
        ]

  -- In every reachable state the three fields that go into a header fit its fields.
  pub Reachable-IsHeader :
      {state : State} → Reachable floats state → IsHeader (outgoing_header state)
  unfolding prepare_outgoing_packet initial_state process_retransmissions
  Reachable-IsHeader (started now) = record {
    sequence_fits = omega arith;
    ack_fits = omega arith;
    bitfield_fits = omega arith;
  }
  Reachable-IsHeader (sent payload now r) =
      let v = Reachable-IsHeader r in
      record { sequence_fits = omega arith; ack_fits = v.ack_fits; bitfield_fits = v.bitfield_fits }
  Reachable-IsHeader {state = state'} (received {state = state} header now fresh fits e r) =
      let v = Reachable-IsHeader r in
      let w =
        received-IsWindow state state' header now fresh fits e
          (record { highest_fits = v.ack_fits; bitfield_fits = v.bitfield_fits }) in
      let (_, _, next) = process_incoming_header_lem floats state state' header now fresh e in
      record {
        sequence_fits = rw next v.sequence_fits;
        ack_fits = w.highest_fits;
        bitfield_fits = w.bitfield_fits;
      }
  Reachable-IsHeader (resent now r) =
      let v = Reachable-IsHeader r in
      record {
        sequence_fits = v.sequence_fits;
        ack_fits = v.ack_fits;
        bitfield_fits = v.bitfield_fits;
      }

-- How often a packet was prepared, on the way to a state.
abbrev pub sends :
    {floats : Floats} {state : ReliableConnectionState floats.Float} → Reachable floats state → ℕ
sends (started now) = 0
sends (sent payload now r) = suc (sends r)
sends (received header now fresh fits e r) = sends r
sends (resent now r) = sends r

-- The stored bytes of a packet parse to a reliable packet with the packet's number.
pub record IsStored (packet : SentPacket) : Type 0 where
  pub header : ReliabilityPacketHeader
  pub payload : List ℕ
  pub numbered : header.sequence ≡ packet.sequence
  pub parses :
      parse_packet packet.bytes
      ≡ some (record {
        general = record { packet_type = to_byte PacketType.data_reliable };
        reliability = header;
        payload = payload;
      })
