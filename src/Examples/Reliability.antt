-- ===== src/Examples/Reliability.antt =====
-- The reliability protocol at concrete inputs.
use rift_net.Base.{ℕ, ◌<◌, ◌≤◌, ◌≡◌, ◌↔◌, ◌⊎◌, refl, true, false, none, some, List, [], ◌∷◌, arith}
use mathlib.Core.List.{Nodup}
use rift_net.Protocol.PacketFactory.RoundTrip.{outgoing_header}
use rift_net.Protocol.Reliability.{
  SentPacket, ReliableConnectionState, is_sequence_more_recent, sub16, update_receive_window,
  initial_state, is_acked, sample_acked, process_acks, process_incoming_header,
  process_retransmissions, prepare_outgoing_packet,
}
use rift_net.Protocol.Reliability.Window.{
  IsWindow, Holds, Accepted, update_receive_window_lem, update_receive_window-eq-none,
}
use rift_net.Protocol.Reliability.Delivery.{Arrival, receive_all, receive_all-Nodup}
use rift_net.Protocol.Reliability.Acks.{
  is_acked-outgoing_header, next_number, process_acks_forgets, unacked,
}
use rift_net.Protocol.Reliability.Timers.{Pass, process_retransmissions-Pass}
use rift_net.Protocol.Reliability.Reachable.{Reachable}
use rift_net.Examples.Toys.{toy_floats, used_state, header_of}

used_state-IsWindow : IsWindow used_state
used_state-IsWindow = record { highest_fits = omega arith; bitfield_fits = omega arith }

-- What `used_state` becomes when the packet 12 arrives.
abbrev moved_state : ReliableConnectionState ℕ
moved_state = record used_state {
  highest_received_sequence = 12;
  received_sequence_bitfield = 21;
  has_pending_ack_to_send = true;
}

moves : update_receive_window used_state (header_of 12) ≡ some (moved_state, true)
unfolding update_receive_window is_sequence_more_recent
moves = refl

update_receive_window_lem_example :
    ((true ≡ true) × Accepted used_state moved_state 12)
    ⊎ ((true ≡ false)
        × (moved_state ≡ used_state)
        × (Holds used_state 12
            ⊎ ((header_of 12).sequence ≡ used_state.highest_received_sequence)
            ⊎ ((32 < sub16 10 12) × (sub16 10 12 ≤ 32768))))
update_receive_window_lem_example =
    update_receive_window_lem used_state (header_of 12) used_state-IsWindow (omega arith)
      moved_state true moves

update_receive_window-eq-none_example :
    (update_receive_window used_state (header_of 42) ≡ none)
    ↔ (((32 ≤ sub16 42 10) × (sub16 42 10 < 32768)) ⊎ (sub16 10 42 ≡ 32))
update_receive_window-eq-none_example =
    update_receive_window-eq-none used_state (header_of 42) used_state-IsWindow (omega arith)

-- The packets 12, 9 and 12 again.
abbrev arrivals : List Arrival
arrivals =
    record { number = 12; header = header_of 12; time = 3000 }
    ∷ record { number = 9; header = header_of 9; time = 3001 }
    ∷ record { number = 12; header = header_of 12; time = 3002 }
    ∷ []

abbrev final_state : ReliableConnectionState ℕ
final_state = record used_state {
  highest_received_sequence = 12;
  received_sequence_bitfield = 29;
  unacknowledged_packets = [];
  last_packet_received_time = 3002;
  has_pending_ack_to_send = true;
}

-- What the application gets.
abbrev handed_on : List ℕ
handed_on = 12 ∷ 9 ∷ []

receives : receive_all toy_floats used_state arrivals ≡ some (final_state, handed_on)
unfolding receive_all process_incoming_header process_acks is_acked update_receive_window
    is_sequence_more_recent sample_acked
receives = refl

receive_all-Nodup_example : Nodup handed_on
receive_all-Nodup_example =
    receive_all-Nodup toy_floats used_state final_state 10 arrivals handed_on used_state-IsWindow
      refl
      (
        refl,
        omega arith,
        omega arith,
        (refl, omega arith, omega arith, (refl, omega arith, omega arith, tt)),
      )
      receives

is_acked-outgoing_header_example : (is_acked (outgoing_header used_state) 9 ≡ true) ↔ (
    ((header_of 9).sequence ≡ used_state.highest_received_sequence)
    ⊎ Holds used_state (next_number 9))
is_acked-outgoing_header_example =
    is_acked-outgoing_header used_state used_state-IsWindow 9 (omega arith)

-- The packet that is lost.
abbrev lost_packet : SentPacket
lost_packet = record { sequence = 11; time_sent = 1000; bytes = 6 ∷ []; retries = 0 }

process_acks_forgets_example :
    (¬ Holds moved_state 11)
    × ((process_acks toy_floats (outgoing_header moved_state) 4000 (lost_packet ∷ []) used_state).1
        ≡ unacked (outgoing_header moved_state) [])
process_acks_forgets_example =
    process_acks_forgets toy_floats used_state moved_state used_state (header_of 12) 4000
      lost_packet [] used_state-IsWindow (omega arith) (omega arith) (omega arith) moves refl

-- What `used_state` becomes when the header 12 is processed.
abbrev arrived_state : ReliableConnectionState ℕ
arrived_state = record moved_state { unacknowledged_packets = []; last_packet_received_time = 3000 }

arrives :
    process_incoming_header toy_floats used_state (header_of 12) 3000 ≡ some (arrived_state, true)
unfolding process_incoming_header process_acks is_acked update_receive_window
    is_sequence_more_recent sample_acked
arrives = refl

process_retransmissions-Pass_example :
    let (after, packets) = process_retransmissions toy_floats used_state 900_000_000 in
    Pass toy_floats 900_000_000 used_state.retransmission_timeout_ms after.retransmission_timeout_ms
      used_state.unacknowledged_packets after.unacknowledged_packets packets
process_retransmissions-Pass_example =
    process_retransmissions-Pass toy_floats 900_000_000 used_state

-- A new connection that sends a packet and sends it again.
sent_state : ReliableConnectionState ℕ
sent_state = (prepare_outgoing_packet (initial_state toy_floats 0) (104 ∷ []) 5).0

resent_state : ReliableConnectionState ℕ
resent_state = (process_retransmissions toy_floats sent_state 900_000_000).0
