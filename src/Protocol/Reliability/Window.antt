-- ===== src/Protocol/Reliability/Window.antt =====
-- The receive window of `ProcessIncomingHeader` as a set of sequence numbers.
use mathlib.Core.Option
use rift_net.Base.{
  ℕ, ◌*◌, ◌%◌, ◌^◌, ◌<◌, ◌≤◌, ◌≡◌, ◌↔◌, ◌⊎◌, inl, inr, refl, bit_or, Bool, true, false,
  if◌then◌else◌, none, some, arith,
}
use rift_net.Base.Bits.{bit, bit_le_one, shift_right-bit, bit_or-lt}
use rift_net.Protocol.Packet.{ReliabilityPacketHeader}
use rift_net.Protocol.Reliability.{
  ReliableConnectionState, sub16, is_sequence_more_recent, update_receive_window,
}
use rift_net.Protocol.Reliability.Bitfield.{InWindow, InWindow-advance, InWindow-mark}

-- The fields that `ProcessIncomingHeader` reads of the receive side are in the range of their types.
pub record IsWindow {Float : Type 0} (state : ReliableConnectionState Float) : Type 0 where
  pub highest_fits : state.highest_received_sequence < 65536
  pub bitfield_fits : state.received_sequence_bitfield < 2 ^ 32

-- The window says that `q` has been received.
abbrev pub Holds : {Float : Type 0} → ReliableConnectionState Float → ℕ → Type 0
Holds state q = InWindow state.highest_received_sequence state.received_sequence_bitfield q

-- What a packet that is accepted does to the window.
pub record Accepted {Float : Type 0} (state state' : ReliableConnectionState Float) (seq : ℕ)
    : Type 0 where
  pub fresh : ¬ Holds state seq
  pub window : IsWindow state'
  pub holds :
      (q : ℕ)
      → q < 65536
      → Holds state' q
        ↔ ((q ≡ seq) ⊎ (Holds state q × (sub16 state'.highest_received_sequence q < 32)))
  pub highest : state'.highest_received_sequence ≡ (
      if is_sequence_more_recent seq state.highest_received_sequence
      then seq
      else state.highest_received_sequence)
  pub ack_due : state'.has_pending_ack_to_send ≡ true

module _ {Float : Type 0} (state : ReliableConnectionState Float) (header : ReliabilityPacketHeader)
    (v : IsWindow state) (fits : header.sequence < 65536) where
  abbrev highest : ℕ
  highest = state.highest_received_sequence

  abbrev bitfield : ℕ
  bitfield = state.received_sequence_bitfield

  abbrev seq : ℕ
  seq = header.sequence

  -- The update of the window, its tests written as distances.
  window_cases :
      ((0 < sub16 seq highest)
        × (sub16 seq highest < 32)
        × (update_receive_window state header
            ≡ some (
              record state {
                received_sequence_bitfield = bit_or (bitfield * 2 ^ sub16 seq highest % 2 ^ 32) 1;
                highest_received_sequence = seq;
                has_pending_ack_to_send = true;
              },
              true,
            ))
        × (is_sequence_more_recent seq highest ≡ true))
      ⊎ ((32 ≤ sub16 seq highest)
          × (sub16 seq highest < 32768)
          × (update_receive_window state header ≡ none))
      ⊎ ((0 < sub16 highest seq)
          × (sub16 highest seq < 32)
          × (bit bitfield (sub16 highest seq) ≡ 1)
          × (update_receive_window state header ≡ some (state, false)))
      ⊎ ((0 < sub16 highest seq)
          × (sub16 highest seq < 32)
          × (bit bitfield (sub16 highest seq) ≡ 0)
          × (update_receive_window state header
              ≡ some (
                record state {
                  received_sequence_bitfield = bit_or bitfield (1 * 2 ^ sub16 highest seq % 2 ^ 32);
                  has_pending_ack_to_send = true;
                },
                true,
              ))
          × (is_sequence_more_recent seq highest ≡ false))
      ⊎ ((sub16 highest seq ≡ 32) × (update_receive_window state header ≡ none))
      ⊎ (((seq ≡ highest) ⊎ ((32 < sub16 highest seq) × (sub16 highest seq ≤ 32768)))
          × (update_receive_window state header ≡ some (state, false)))
  unfolding update_receive_window is_sequence_more_recent
  window_cases = ground (
    arith,
    v.highest_fits,
    shift_right-bit bitfield (sub16 highest seq),
    bit_le_one bitfield (sub16 highest seq),
  )

  -- The update of the receive window is undefined behaviour exactly for a packet that is 32 to
  -- 32767 ahead of the highest number received, or exactly 32 behind it.
  pub update_receive_window-eq-none :
      (update_receive_window state header ≡ none)
      ↔ (((32 ≤ sub16 seq highest) × (sub16 seq highest < 32768)) ⊎ (sub16 highest seq ≡ 32))
  update_receive_window-eq-none = ground (arith, v.highest_fits, window_cases)

  module _ (state' : ReliableConnectionState Float) where
    accept_ahead :
        0 < sub16 seq highest
        → sub16 seq highest < 32
        → is_sequence_more_recent seq highest ≡ true
        → state' ≡ record state {
          received_sequence_bitfield = bit_or (bitfield * 2 ^ sub16 seq highest % 2 ^ 32) 1;
          highest_received_sequence = seq;
          has_pending_ack_to_send = true;
        }
        → Accepted state state' seq
    accept_ahead pos few recent e = rw e (record {
      fresh = λ held. omega (arith, v.highest_fits, held.0);
      window = record {
        highest_fits = fits;
        bitfield_fits =
            bit_or-lt 32 (bitfield * 2 ^ sub16 seq highest % 2 ^ 32) 1 (omega arith) (omega arith);
      };
      holds = λ q hq. InWindow-advance highest seq bitfield q v.highest_fits fits hq pos few;
      highest = rw recent;
      ack_due = refl;
    })

    accept_late :
        0 < sub16 highest seq
        → sub16 highest seq < 32
        → bit bitfield (sub16 highest seq) ≡ 0
        → is_sequence_more_recent seq highest ≡ false
        → state' ≡ record state {
          received_sequence_bitfield = bit_or bitfield (1 * 2 ^ sub16 highest seq % 2 ^ 32);
          has_pending_ack_to_send = true;
        }
        → Accepted state state' seq
    accept_late pos few clear late e = rw e (record {
      fresh = λ held. omega (arith, held.1);
      window = record {
        highest_fits = v.highest_fits;
        bitfield_fits =
            bit_or-lt 32 bitfield (1 * 2 ^ sub16 highest seq % 2 ^ 32) v.bitfield_fits
              (omega arith);
      };
      holds = λ q hq. InWindow-mark highest seq bitfield q v.highest_fits fits hq pos few;
      highest = rw late;
      ack_due = refl;
    })

  -- Where the update is defined, it either accepts the packet or refuses it. An accepted packet was
  -- not in the window; after it the window holds that packet and what it held before, less what is
  -- now 32 or more behind the highest number; the highest number is the more recent of the two; and
  -- an acknowledgement is due. A refused packet changes nothing, and is one that the window holds,
  -- or the highest number itself, or 33 to 32768 behind it.
  pub update_receive_window_lem :
      (state' : ReliableConnectionState Float) (fresh : Bool)
      → update_receive_window state header ≡ some (state', fresh)
      → ((fresh ≡ true) × Accepted state state' seq)
        ⊎ ((fresh ≡ false)
            × (state' ≡ state)
            × (Holds state seq
                ⊎ (seq ≡ highest)
                ⊎ ((32 < sub16 highest seq) × (sub16 highest seq ≤ 32768))))
  update_receive_window_lem state' fresh e = elim window_cases [
    | inl (pos, few, r, recent) ↦
        inl (ground arith, accept_ahead state' pos few recent (ground arith))
    | inr (inl (far, near, r)) ↦ absurd (ground arith)
    | inr (inr (inl (pos, few, set, r))) ↦ inr (ground arith, ground arith, inl (few, set))
    | inr (inr (inr (inl (pos, few, clear, r, late)))) ↦
        inl (ground arith, accept_late state' pos few clear late (ground arith))
    | inr (inr (inr (inr (inl (edge, r))))) ↦ absurd (ground arith)
    | inr (inr (inr (inr (inr (far, r))))) ↦ inr (ground arith, ground arith, ground arith)
  ]

  -- A packet is accepted exactly if it is 1 to 31 ahead of the highest number received, or 1 to 31
  -- behind it and not in the window.
  pub update_receive_window-accepts :
      (Option.map
          (λ (r : ReliableConnectionState Float × Bool). r.1)
          (update_receive_window state header)
        ≡ some true)
      ↔ (((0 < sub16 seq highest) × (sub16 seq highest < 32))
          ⊎ ((0 < sub16 highest seq) × (sub16 highest seq < 32) × (¬ Holds state seq)))
  update_receive_window-accepts = ground (arith, v.highest_fits, window_cases)
