-- ===== src/Protocol/Reliability.antt =====
-- RiftNet/src/protocol/UDPReliabilityProtocol: the state of a reliable connection and the
-- functions on it. `none` is undefined behaviour of C++: a shift by 32 or more.
-- A time point of `steady_clock` is its count of nanoseconds, and `now` is what the clock says.
pub mod Sequence
pub mod Bitfield
pub mod Window
pub mod Headers
pub mod Delivery
pub mod Acks
pub mod Timers
pub mod Reachable
use rift_net.Base.{
  ℕ, ◌+◌, ◌-◌, ◌*◌, ◌/◌, ◌%◌, ◌^◌, bit_and, bit_or, Bool, true, false, not, ◌&&◌, ◌||◌, ltb, leb,
  ◌==◌, if◌then◌else◌, ◌>>=◌, Option, none, some, List, [], ◌∷◌, ◌++◌, ℤ, pos, sub_ℕ, trunc_div,
  ltb_ℤ,
}
use rift_net.Protocol.Packet.{
  PacketType, to_byte, GeneralPacketHeader, ReliabilityPacketHeader, general_bytes,
  reliability_bytes,
}

-- What the code uses of `float`: `literal n d` is the constant n / d, `of_integer` the conversion
-- of a signed integer.
pub record Floats : Type 1 where
  pub Float : Type 0
  pub literal : ℕ → ℕ → Float
  pub of_integer : ℤ → Float
  pub add : Float → Float → Float
  pub sub : Float → Float → Float
  pub mul : Float → Float → Float
  pub div : Float → Float → Float
  pub abs : Float → Float
  pub less : Float → Float → Bool
  pub less_equal : Float → Float → Bool

-- `retries` is an `int` that counts up; it is taken as unbounded.
pub record SentPacket : Type 0 where
  pub sequence : ℕ
  pub time_sent : ℕ
  pub bytes : List ℕ
  pub retries : ℕ

pub record ReliableConnectionState (Float : Type 0) : Type 0 where
  pub next_outgoing_sequence : ℕ
  pub highest_received_sequence : ℕ
  pub received_sequence_bitfield : ℕ
  pub smoothed_rtt_ms : Float
  pub rtt_variance_ms : Float
  pub retransmission_timeout_ms : Float
  pub is_first_rtt_sample : Bool
  pub unacknowledged_packets : List SentPacket
  pub last_packet_received_time : ℕ
  pub has_pending_ack_to_send : Bool

-- a - b in `uint16_t`.
abbrev pub sub16 : ℕ → ℕ → ℕ
sub16 a b = (a + 65536 - b) % 65536

-- The shifts of a 32-bit word, defined for a count below 32 only.
abbrev pub shift_left32 : ℕ → ℕ → Option ℕ
shift_left32 x d = if ltb d 32 then some (x * 2 ^ d % 2 ^ 32) else none

abbrev pub shift_right32 : ℕ → ℕ → Option ℕ
shift_right32 x d = if ltb d 32 then some (x / 2 ^ d) else none

abbrev half_range : ℕ
half_range = 65535 / 2 + 1

unfoldable pub is_sequence_more_recent : ℕ → ℕ → Bool
is_sequence_more_recent s1 s2 =
    (ltb s2 s1 && ltb (s1 - s2) half_range) || (ltb s1 s2 && ltb half_range (s2 - s1))

-- The test of the loop over the sent packets: does this header acknowledge `sequence`?
unfoldable pub is_acked : ReliabilityPacketHeader → ℕ → Bool
is_acked header sequence =
    let diff = sub16 header.ack sequence in
    if sequence == header.ack
    then true
    else (if is_sequence_more_recent header.ack sequence && (ltb 0 diff && leb diff 32)
        then not (bit_and (header.ack_bitfield / 2 ^ (diff - 1)) 1 == 0)
        else false)

module _ {Float : Type 0} where
  -- The second part of `ProcessIncomingHeader`, on the receive window.
  unfoldable pub update_receive_window :
      ReliableConnectionState Float
      → ReliabilityPacketHeader
      → Option (ReliableConnectionState Float × Bool)
  update_receive_window state header =
      let bitfield = state.received_sequence_bitfield in
      if is_sequence_more_recent header.sequence state.highest_received_sequence
      then (shift_left32 bitfield (sub16 header.sequence state.highest_received_sequence)
          >>= λ shifted. some (
            record state {
              received_sequence_bitfield = bit_or shifted 1;
              highest_received_sequence = header.sequence;
              has_pending_ack_to_send = true;
            },
            true,
          ))
      else (let diff = sub16 state.highest_received_sequence header.sequence in
          if ltb 0 diff && leb diff 32
          then (shift_right32 bitfield diff >>= λ moved.
              if not (bit_and moved 1 == 0)
              then some (state, false)
              else (shift_left32 1 diff >>= λ mask. some (
                record state {
                  received_sequence_bitfield = bit_or bitfield mask;
                  has_pending_ack_to_send = true;
                },
                true,
              )))
          else some (state, false))

  unfoldable pub prepare_outgoing_packet :
      ReliableConnectionState Float → List ℕ → ℕ → ReliableConnectionState Float × List ℕ
  prepare_outgoing_packet state payload now =
      let general : GeneralPacketHeader = record {
        packet_type = to_byte PacketType.data_reliable;
      } in
      let reliable : ReliabilityPacketHeader = record {
        sequence = state.next_outgoing_sequence;
        ack = state.highest_received_sequence;
        ack_bitfield = state.received_sequence_bitfield;
      } in
      let packet = general_bytes general ++ (reliability_bytes reliable ++ payload) in
      let sent : SentPacket = record {
        sequence = reliable.sequence;
        time_sent = now;
        bytes = packet;
        retries = 0;
      } in
      (
        record state {
          next_outgoing_sequence = (state.next_outgoing_sequence + 1) % 65536;
          unacknowledged_packets = state.unacknowledged_packets ++ (sent ∷ []);
          has_pending_ack_to_send = false;
        },
        packet,
      )

  -- `timeout` is in seconds.
  unfoldable pub is_connection_timed_out : ReliableConnectionState Float → ℕ → ℕ → Bool
  is_connection_timed_out state now timeout =
      ltb_ℤ (pos timeout) (trunc_div (sub_ℕ now state.last_packet_received_time) 1_000_000_000)

module _ (floats : Floats) where
  open floats use {Float, literal, of_integer, add, sub, mul, div, abs, less, less_equal}

  -- `std::clamp` and `std::min`.
  abbrev pub clamp : Float → Float → Float → Float
  clamp v lo hi = if less v lo then lo else if less hi v then hi else v

  abbrev pub min_float : Float → Float → Float
  min_float a b = if less b a then b else a

  unfoldable pub initial_state : ℕ → ReliableConnectionState Float
  initial_state now = record {
    next_outgoing_sequence = 1;
    highest_received_sequence = 0;
    received_sequence_bitfield = 0;
    smoothed_rtt_ms = literal 100 1;
    rtt_variance_ms = literal 500 1;
    retransmission_timeout_ms = literal 250 1;
    is_first_rtt_sample = true;
    unacknowledged_packets = [];
    last_packet_received_time = now;
    has_pending_ack_to_send = false;
  }

  -- The estimate before the timeout is set.
  unfoldable pub update_rtt : ReliableConnectionState Float → Float → ReliableConnectionState Float
  update_rtt state sample =
      if state.is_first_rtt_sample
      then record state {
        smoothed_rtt_ms = sample;
        rtt_variance_ms = div sample (literal 2 1);
        is_first_rtt_sample = false;
      }
      else (let delta = sub sample state.smoothed_rtt_ms in
          record state {
            smoothed_rtt_ms = add state.smoothed_rtt_ms (mul (literal 1 8) delta);
            rtt_variance_ms =
                add state.rtt_variance_ms
                  (mul (literal 1 4) (sub (abs delta) state.rtt_variance_ms));
          })

  unfoldable pub apply_rtt_sample :
      ReliableConnectionState Float → Float → ReliableConnectionState Float
  unfolding update_rtt
  apply_rtt_sample state sample =
      let updated = update_rtt state sample in
      record updated {
        retransmission_timeout_ms =
            clamp (add updated.smoothed_rtt_ms (mul (literal 4 1) updated.rtt_variance_ms))
              (literal 100 1) (literal 3000 1);
      }

  -- The round trip of a packet in milliseconds, from whole microseconds.
  unfoldable pub sample_of : ℕ → SentPacket → Float
  sample_of now packet =
      div (of_integer (trunc_div (sub_ℕ now packet.time_sent) 1000)) (literal 1000 1)

  -- A packet that was never sent again is a sample.
  unfoldable pub sample_acked :
      ℕ → SentPacket → ReliableConnectionState Float → ReliableConnectionState Float
  sample_acked now packet state =
      if packet.retries == 0 then apply_rtt_sample state (sample_of now packet) else state

  -- The loop over the sent packets: what is acknowledged is erased, and sampled unless it was
  -- retransmitted.
  unfoldable pub process_acks :
      ReliabilityPacketHeader
      → ℕ
      → List SentPacket
      → ReliableConnectionState Float
      → ReliableConnectionState Float × List SentPacket
  process_acks header now [] state = (state, [])
  process_acks header now (packet ∷ packets) state =
      let acked = is_acked header packet.sequence in
      let sampled = if acked then sample_acked now packet state else state in
      let (state', kept) = process_acks header now packets sampled in
      (state', if acked then kept else (packet ∷ kept))

  unfoldable pub process_incoming_header :
      ReliableConnectionState Float
      → ReliabilityPacketHeader
      → ℕ
      → Option (ReliableConnectionState Float × Bool)
  process_incoming_header state header now =
      let arrived = record state { last_packet_received_time = now } in
      let (sampled, kept) = process_acks header now state.unacknowledged_packets arrived in
      update_receive_window (record sampled { unacknowledged_packets = kept }) header

  -- `elapsed_ms >= state.retransmissionTimeout_ms`
  pub is_due : ℕ → SentPacket → Float → Bool
  is_due now packet timeout =
      less_equal timeout (of_integer (trunc_div (sub_ℕ now packet.time_sent) 1_000_000))

  -- The loop of `ProcessRetransmissions`; the third part is what `sendFunc` is called with, in
  -- order.
  unfoldable pub retransmit : ℕ → List SentPacket → Float → Float × List SentPacket × List (List ℕ)
  retransmit now [] timeout = (timeout, [], [])
  retransmit now (packet ∷ packets) timeout =
      let due = is_due now packet timeout in
      let timeout' =
        if due then min_float (mul timeout (literal 2 1)) (literal 3000 1) else timeout in
      let (final, packets', sent) = retransmit now packets timeout' in
      (
        final,
        (if due then record packet { time_sent = now; retries = packet.retries + 1 } else packet)
            ∷ packets',
        if due then packet.bytes ∷ sent else sent,
      )

  unfoldable pub process_retransmissions :
      ReliableConnectionState Float → ℕ → ReliableConnectionState Float × List (List ℕ)
  process_retransmissions state now =
      let (timeout, packets, sent) =
        retransmit now state.unacknowledged_packets state.retransmission_timeout_ms in
      (record state { unacknowledged_packets = packets; retransmission_timeout_ms = timeout }, sent)
