-- ===== src/Protocol/Reliability/Acks.antt =====
-- Acknowledgements: what the header of one side says to the loop over the sent packets of the other.
use rift_net.Base.{
  ℕ, ◌+◌, ◌-◌, ◌%◌, ◌<◌, ◌≤◌, ◌≡◌, ◌↔◌, ◌⊎◌, inl, inr, refl, sym, ap, ◌∙◌, Bool, true,
  if◌then◌else◌, Bool-cases, some, List, [], ◌∷◌, arith, All,
}
use rift_net.Base.Bits.{bit, bit_le_one, shift_right-bit}
use rift_net.Protocol.Packet.{ReliabilityPacketHeader}
use rift_net.Protocol.PacketFactory.RoundTrip.{outgoing_header}
use rift_net.Protocol.Reliability.{
  Floats, SentPacket, ReliableConnectionState, sub16, is_sequence_more_recent, is_acked,
  sample_acked, process_acks, process_incoming_header, update_receive_window, apply_rtt_sample,
  update_rtt,
}
use rift_net.Protocol.Reliability.Sequence.{is_sequence_more_recent_iff}
use rift_net.Protocol.Reliability.Headers.{
  after_acks, after_acks-SameWindow, process_incoming_header-after_acks,
}
use rift_net.Protocol.Reliability.Window.{IsWindow, Holds, Accepted, update_receive_window_lem}

-- The number after `q`.
abbrev pub next_number : ℕ → ℕ
next_number q = (q + 1) % 65536

module _ {Float : Type 0} (state : ReliableConnectionState Float) (v : IsWindow state) where
  abbrev age : ℕ → ℕ
  age q = sub16 state.highest_received_sequence q

  is_acked-cases :
      (q : ℕ)
      → q < 65536
      → (is_acked (outgoing_header state) q ≡ true) ↔ (
          (q ≡ state.highest_received_sequence)
          ⊎ ((0 < age q) × (age q ≤ 32) × (bit state.received_sequence_bitfield (age q - 1) ≡ 1)))
  unfolding is_acked
  is_acked-cases q hq = ground (
    arith,
    v.highest_fits,
    is_sequence_more_recent_iff state.highest_received_sequence q,
    shift_right-bit state.received_sequence_bitfield (age q - 1),
    bit_le_one state.received_sequence_bitfield (age q - 1),
  )

  -- The header that a receiver sends acknowledges its highest number, and any other number exactly
  -- if the window holds the number after it.
  pub is_acked-outgoing_header :
      (q : ℕ)
      → q < 65536
      → (is_acked (outgoing_header state) q ≡ true)
        ↔ ((q ≡ state.highest_received_sequence) ⊎ Holds state (next_number q))
  is_acked-outgoing_header q hq = ground (
    arith,
    v.highest_fits,
    is_acked-cases q hq,
    ap (bit state.received_sequence_bitfield) {x = age q - 1} {y = age (next_number q)},
  )

-- The packets of a list that a header does not acknowledge, in their order.
unfoldable pub unacked : ReliabilityPacketHeader → List SentPacket → List SentPacket
unacked header [] = []
unacked header (packet ∷ packets) =
    if is_acked header packet.sequence
    then unacked header packets
    else packet ∷ unacked header packets

-- A packet that was sent again is no sample (Karn's rule).
abbrev pub WasResent : ReliabilityPacketHeader → SentPacket → Type 0
WasResent header packet = is_acked header packet.sequence ≡ true → 0 < packet.retries

module _ (floats : Floats) (header : ReliabilityPacketHeader) (now : ℕ) where
  open floats use {Float}

  -- The loop over the sent packets keeps exactly those that the header does not acknowledge,
  -- unchanged and in order.
  process_acks-unacked :
      (packets : List SentPacket) (state : ReliableConnectionState Float)
      → (process_acks floats header now packets state).1 ≡ unacked header packets
  unfolding process_acks unacked
  process_acks-unacked [] state = refl
  process_acks-unacked (packet ∷ packets) state =
      elim (Bool-cases (is_acked header packet.sequence)) [
        | inl acked ↦ rw acked (process_acks-unacked packets (sample_acked floats now packet state))
        | inr kept ↦ rw kept (ap (◌∷◌ packet) (process_acks-unacked packets state))
      ]

  sample_acked_resent :
      (packet : SentPacket) (state : ReliableConnectionState Float)
      → 0 < packet.retries
      → sample_acked floats now packet state ≡ state
  unfolding sample_acked
  sample_acked_resent packet state h = ground arith

  -- If every packet that the header acknowledges had been sent again, the estimate of the round trip
  -- and the retransmission timeout stay as they were.
  pub process_acks-WasResent :
      (packets : List SentPacket) (state : ReliableConnectionState Float)
      → All (WasResent header) packets
      → (process_acks floats header now packets state).0 ≡ state
  unfolding process_acks
  process_acks-WasResent [] state h = refl
  process_acks-WasResent (packet ∷ packets) state (here, rest) =
      elim (Bool-cases (is_acked header packet.sequence)) [
        | inl acked ↦
            rw (acked, sample_acked_resent packet state (here acked))
              (process_acks-WasResent packets state rest)
        | inr kept ↦ rw kept (process_acks-WasResent packets state rest)
      ]

module _ {Float : Type 0} (state state' : ReliableConnectionState Float)
    (header : ReliabilityPacketHeader) (v : IsWindow state) (fits : header.sequence < 65536)
    (gap : 1 < sub16 header.sequence state.highest_received_sequence)
    (near : sub16 header.sequence state.highest_received_sequence < 32768)
    (e : update_receive_window state header ≡ some (state', true)) where
  abbrev missing : ℕ
  missing = (header.sequence + 65535) % 65536

  -- A packet that was lost is acknowledged: when a packet arrives that is 2 to 32767 ahead of
  -- the highest number so far and is accepted, then the packet just before it has not been received, and
  -- yet the receiver's next header acknowledges it.
  pub missing-is_acked :
      (¬ Holds state' missing) × (is_acked (outgoing_header state') missing ≡ true)
  missing-is_acked = elim (update_receive_window_lem state header v fits state' true e) [
    | inl (_, acc) ↦ falsely acc
    | inr (f, _, _) ↦ cc f
  ]
    where
      falsely :
          Accepted state state' header.sequence
          → (¬ Holds state' missing) × (is_acked (outgoing_header state') missing ≡ true)
      falsely acc =
          let recent : is_sequence_more_recent header.sequence state.highest_received_sequence
              ≡ true =
            (is_sequence_more_recent_iff _ _ fits v.highest_fits).1 (omega arith, near) in
          let moved : state'.highest_received_sequence ≡ header.sequence =
            acc.highest ∙ rw recent in
          let successor : next_number missing ≡ header.sequence = omega arith in
          let held : Holds state' (next_number missing) =
            rw successor ((acc.holds header.sequence fits).1 (inl refl)) in
          (
            λ h. ground (arith, v.highest_fits, (acc.holds missing (omega arith)).0 h),
            (is_acked-outgoing_header state' acc.window missing (omega arith)).1 (inr held),
          )

-- A packet that was lost is forgotten: when a packet arrives that is 2 to 32767 ahead of the
-- highest number so far and is accepted, the packet just before it has not been received, and yet
-- the loop over the sent packets, on the receiver's next header, erases it from the front of any
-- list, so that it will not be sent again.
pub process_acks_forgets :
    (floats : Floats) (state state' sender : ReliableConnectionState floats.Float)
    (header : ReliabilityPacketHeader) (now : ℕ) (packet : SentPacket) (packets : List SentPacket)
    → IsWindow state
    → (fits : header.sequence < 65536) → 1 < sub16 header.sequence state.highest_received_sequence
    → sub16 header.sequence state.highest_received_sequence < 32768
    → update_receive_window state header ≡ some (state', true)
    → packet.sequence ≡ (header.sequence + 65535) % 65536
    → (¬ Holds state' packet.sequence)
      × ((process_acks floats (outgoing_header state') now (packet ∷ packets) sender).1
          ≡ unacked (outgoing_header state') packets)
process_acks_forgets floats state state' sender header now packet packets v fits gap near e same =
    let (lost, acked) = missing-is_acked state state' header v fits gap near e in
    (
      rw same lost,
      process_acks-unacked floats (outgoing_header state') now (packet ∷ packets) sender
          ∙ unfold unacked in rw (same, acked),
    )

-- What the window's update leaves alone.
update_receive_window_rest :
    {Float : Type 0} (state state' : ReliableConnectionState Float)
    (header : ReliabilityPacketHeader) (fresh : Bool)
    → update_receive_window state header ≡ some (state', fresh)
    → (state'.unacknowledged_packets ≡ state.unacknowledged_packets)
      × (state'.last_packet_received_time ≡ state.last_packet_received_time)
      × (state'.next_outgoing_sequence ≡ state.next_outgoing_sequence)
unfolding update_receive_window
update_receive_window_rest state state' header fresh e = ground arith

sample_acked_time :
    (floats : Floats) (now : ℕ) (packet : SentPacket) (state : ReliableConnectionState floats.Float)
    → (sample_acked floats now packet state).last_packet_received_time
      ≡ state.last_packet_received_time
unfolding sample_acked apply_rtt_sample update_rtt
sample_acked_time floats now packet state = ground arith

process_acks_time :
    (floats : Floats) (header : ReliabilityPacketHeader) (now : ℕ) (packets : List SentPacket)
    (state : ReliableConnectionState floats.Float)
    → (process_acks floats header now packets state).0.last_packet_received_time
      ≡ state.last_packet_received_time
unfolding process_acks
process_acks_time floats header now [] state = refl
process_acks_time floats header now (packet ∷ packets) state =
    elim (Bool-cases (is_acked header packet.sequence)) [
      | inl acked ↦ rw acked (
          process_acks_time floats header now packets (sample_acked floats now packet state)
          ∙ sample_acked_time floats now packet state)
      | inr kept ↦ rw kept (process_acks_time floats header now packets state)
    ]

-- Whenever the processing of a header is defined, and whether or not the packet is new, it leaves
-- unacknowledged exactly what the header does not acknowledge, takes the time as that of the last
-- packet, and does not touch the sequence number to send next.
pub process_incoming_header_lem :
    (floats : Floats) (state state' : ReliableConnectionState floats.Float)
    (header : ReliabilityPacketHeader) (now : ℕ) (fresh : Bool)
    → process_incoming_header floats state header now ≡ some (state', fresh)
    → (state'.unacknowledged_packets ≡ unacked header state.unacknowledged_packets)
      × (state'.last_packet_received_time ≡ now)
      × (state'.next_outgoing_sequence ≡ state.next_outgoing_sequence)
unfolding after_acks
process_incoming_header_lem floats state state' header now fresh e =
    let arrived = record state { last_packet_received_time = now } in
    let mid = after_acks floats state header now in
    let (packets, time, next) =
      update_receive_window_rest mid state' header fresh
        (sym (process_incoming_header-after_acks floats state header now) ∙ e) in
    (
      packets ∙ process_acks-unacked floats header now state.unacknowledged_packets arrived,
      time ∙ process_acks_time floats header now state.unacknowledged_packets arrived,
      next ∙ (after_acks-SameWindow floats state header now).2,
    )
