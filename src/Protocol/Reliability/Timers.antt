-- ===== src/Protocol/Reliability/Timers.antt =====
-- The retransmission timeout, the retransmission pass, and the idle timeout.
use rift_net.Base.{
  ℕ, sub_ℕ, trunc_div, ◌+◌, ◌*◌, ◌<◌, ◌≤◌, ◌^◌, ◌≡◌, ◌↔◌, inl, inr, Bool, true, false, ltb, leb,
  ◌==◌, Bool-cases, some, List, [], ◌∷◌, arith,
}
use rift_net.Protocol.Packet.{ReliabilityPacketHeader}
use rift_net.Protocol.Reliability.{
  Floats, SentPacket, ReliableConnectionState, clamp, min_float, initial_state, apply_rtt_sample,
  sample_acked, process_acks, process_incoming_header, update_receive_window, retransmit,
  process_retransmissions, is_connection_timed_out, is_acked, sample_of, is_due,
}

-- What the bounds rest on. Whole constants below 2 ^ 24 are exact; no float is less than itself; and
-- the double of a float that is not less than 100 is not less than 100.
pub record FloatLaws (floats : Floats) : Type 0 where
  pub literal_order :
      (m n : ℕ)
      → m < 2 ^ 24
      → n < 2 ^ 24
      → floats.less (floats.literal m 1) (floats.literal n 1) ≡ ltb m n
  pub irreflexive : (x : floats.Float) → floats.less x x ≡ false
  pub doubling :
      (x : floats.Float)
      → floats.less x (floats.literal 100 1) ≡ false
      → floats.less (floats.mul x (floats.literal 2 1)) (floats.literal 100 1) ≡ false

module _ (floats : Floats) (laws : FloatLaws floats) where
  open floats use {Float, literal, less, mul}

  -- The timeout lies in [100 ms, 3000 ms].
  abbrev pub TimeoutInRange : Float → Type 0
  TimeoutInRange t = (less t (literal 100 1) ≡ false) × (less (literal 3000 1) t ≡ false)

  pub initial_state-TimeoutInRange :
      (now : ℕ) → TimeoutInRange (initial_state floats now).retransmission_timeout_ms
  unfolding initial_state
  initial_state-TimeoutInRange now = (
    laws.literal_order 250 100 (omega arith) (omega arith),
    laws.literal_order 3000 250 (omega arith) (omega arith),
  )

  clamp-TimeoutInRange :
      (v : Float) → TimeoutInRange (clamp floats v (literal 100 1) (literal 3000 1))
  clamp-TimeoutInRange v = elim (Bool-cases (less v (literal 100 1))) [
    | inl low ↦
        rw low (
          laws.irreflexive (literal 100 1),
          laws.literal_order 3000 100 (omega arith) (omega arith),
        )
    | inr fits ↦ elim (Bool-cases (less (literal 3000 1) v)) [
      | inl high ↦
          rw (fits, high)
            (
              laws.literal_order 3000 100 (omega arith) (omega arith),
              laws.irreflexive (literal 3000 1),
            )
      | inr below ↦ rw (fits, below) (fits, below)
    ]
  ]

  backoff-TimeoutInRange :
      (t : Float)
      → TimeoutInRange t
      → TimeoutInRange (min_float floats (mul t (literal 2 1)) (literal 3000 1))
  backoff-TimeoutInRange t h = elim (Bool-cases (less (literal 3000 1) (mul t (literal 2 1)))) [
    | inl high ↦
        rw high (
          laws.literal_order 3000 100 (omega arith) (omega arith),
          laws.irreflexive (literal 3000 1),
        )
    | inr below ↦ rw below (laws.doubling t h.0, below)
  ]

  abbrev pub InRange : ReliableConnectionState Float → Type 0
  InRange state = TimeoutInRange state.retransmission_timeout_ms

  -- A sample puts the timeout in range, whatever it was.
  apply_rtt_sample-InRange :
      (state : ReliableConnectionState Float) (sample : Float)
      → InRange (apply_rtt_sample floats state sample)
  unfolding apply_rtt_sample
  apply_rtt_sample-InRange state sample = clamp-TimeoutInRange _

  sample_acked-InRange :
      (now : ℕ) (packet : SentPacket) (state : ReliableConnectionState Float)
      → InRange state
      → InRange (sample_acked floats now packet state)
  unfolding sample_acked
  sample_acked-InRange now packet state h = elim (Bool-cases (packet.retries == 0)) [
    | inl first ↦ rw first (apply_rtt_sample-InRange state (sample_of floats now packet))
    | inr again ↦ rw again h
  ]

  process_acks-InRange :
      (header : ReliabilityPacketHeader) (now : ℕ) (packets : List SentPacket)
      (state : ReliableConnectionState Float)
      → InRange state
      → InRange (process_acks floats header now packets state).0
  unfolding process_acks
  process_acks-InRange header now [] state h = h
  process_acks-InRange header now (packet ∷ packets) state h =
      elim (Bool-cases (is_acked header packet.sequence)) [
        | inl acked ↦ rw acked (
            process_acks-InRange header now packets (sample_acked floats now packet state)
              (sample_acked-InRange now packet state h))
        | inr kept ↦ rw kept (process_acks-InRange header now packets state h)
      ]

  update_receive_window_timeout :
      (state state' : ReliableConnectionState Float) (header : ReliabilityPacketHeader)
      (fresh : Bool)
      → update_receive_window state header ≡ some (state', fresh)
      → state'.retransmission_timeout_ms ≡ state.retransmission_timeout_ms
  unfolding update_receive_window
  update_receive_window_timeout state state' header fresh e = ground arith

  retransmit-TimeoutInRange :
      (now : ℕ) (packets : List SentPacket) (t : Float)
      → TimeoutInRange t
      → TimeoutInRange (retransmit floats now packets t).0
  unfolding retransmit
  retransmit-TimeoutInRange now [] t h = h
  retransmit-TimeoutInRange now (packet ∷ packets) t h =
      elim (Bool-cases (is_due floats now packet t)) [
        | inl due ↦ rw due (retransmit-TimeoutInRange now packets _ (backoff-TimeoutInRange t h))
        | inr early ↦ rw early (retransmit-TimeoutInRange now packets t h)
      ]

  pub process_incoming_header-InRange :
      (state state' : ReliableConnectionState Float) (header : ReliabilityPacketHeader) (now : ℕ)
      (fresh : Bool)
      → InRange state
      → process_incoming_header floats state header now ≡ some (state', fresh)
      → InRange state'
  unfolding process_incoming_header
  process_incoming_header-InRange state state' header now fresh h e =
      let arrived = record state { last_packet_received_time = now } in
      let same = update_receive_window_timeout _ state' header fresh e in
      rw same (process_acks-InRange header now state.unacknowledged_packets arrived h)

  pub process_retransmissions-InRange :
      (state : ReliableConnectionState Float) (now : ℕ)
      → InRange state
      → InRange (process_retransmissions floats state now).0
  unfolding process_retransmissions
  process_retransmissions-InRange state now h =
      retransmit-TimeoutInRange now state.unacknowledged_packets _ h

-- What a retransmission pass at `now` does to the packets of a list.
module _ (floats : Floats) (now : ℕ) where
  open floats use {Float, literal, mul, less_equal, of_integer}

  -- The whole milliseconds since a packet was last sent.
  abbrev pub waited : SentPacket → Float
  waited packet = of_integer (trunc_div (sub_ℕ now packet.time_sent) 1_000_000)

  -- The timeout and the packets before and after, and what is sent. A packet that has waited less
  -- than the timeout is left alone; one that has waited that long is sent, stamped and counted, and
  -- the timeout doubles, up to 3000, for the packets behind it.
  pub data Pass : Float → Float → List SentPacket → List SentPacket → List (List ℕ) → Type 0 where
    done : {t : Float} → Pass t t [] [] []
    keep :
        (packet : SentPacket) {t t' : Float} {before after : List SentPacket} {sent : List (List ℕ)}
        → less_equal t (waited packet) ≡ false
        → Pass t t' before after sent
        → Pass t t' (packet ∷ before) (packet ∷ after) sent
    resend :
        (packet : SentPacket) {t t' : Float} {before after : List SentPacket} {sent : List (List ℕ)}
        → less_equal t (waited packet) ≡ true
        → Pass (min_float floats (mul t (literal 2 1)) (literal 3000 1)) t' before after sent
        → Pass t t'
            (packet ∷ before)
            (record packet { time_sent = now; retries = packet.retries + 1 } ∷ after)
            (packet.bytes ∷ sent)

  retransmit-Pass :
      (packets : List SentPacket) (t : Float)
      → Pass t
          (retransmit floats now packets t).0
          packets
          (retransmit floats now packets t).1
          (retransmit floats now packets t).2
  unfolding retransmit is_due
  retransmit-Pass [] t = done
  retransmit-Pass (packet ∷ packets) t = elim (Bool-cases (is_due floats now packet t)) [
    | inl due ↦ rw (due, retransmit) (resend packet due (retransmit-Pass packets _))
    | inr early ↦ rw (early, retransmit) (keep packet early (retransmit-Pass packets t))
  ]

  -- A retransmission pass neither drops nor adds nor reorders a packet. It goes through the list with
  -- the timeout: a packet whose whole milliseconds since it was sent are not at least the timeout is
  -- left as it is and not sent; of any other the stored bytes are sent once, its time becomes `now`,
  -- its count of retries goes up by one, and the timeout for the rest is doubled, to 3000 at most.
  -- The sends are in the order of the list, and the timeout at the end is kept.
  pub process_retransmissions-Pass :
      (state : ReliableConnectionState Float)
      → let (after, sent) = process_retransmissions floats state now in
        Pass state.retransmission_timeout_ms after.retransmission_timeout_ms
          state.unacknowledged_packets after.unacknowledged_packets sent
  unfolding process_retransmissions
  process_retransmissions-Pass state =
      retransmit-Pass state.unacknowledged_packets state.retransmission_timeout_ms

-- A connection is timed out exactly when at least `timeout` + 1 whole seconds have passed since the
-- last packet; a clock value before that packet never times it out.
pub is_connection_timed_out_iff :
    {Float : Type 0} (state : ReliableConnectionState Float) (now timeout : ℕ)
    → (is_connection_timed_out state now timeout ≡ true)
      ↔ (state.last_packet_received_time + (timeout + 1) * 1_000_000_000 ≤ now)
unfolding is_connection_timed_out
is_connection_timed_out_iff state now timeout = ground arith

pub is_connection_timed_out_lem :
    {Float : Type 0} (state : ReliableConnectionState Float) (now timeout : ℕ)
    → is_connection_timed_out state now timeout
      ≡ leb (state.last_packet_received_time + (timeout + 1) * 1_000_000_000) now
is_connection_timed_out_lem state now timeout =
    ground (arith, is_connection_timed_out_iff state now timeout)
