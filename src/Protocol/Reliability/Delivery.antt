-- ===== src/Protocol/Reliability/Delivery.antt =====
-- A run of `ProcessIncomingHeader` over the headers that arrive, in any order, with repetitions.
use mathlib.Core.List.{Mem, Nodup, Nodup-cons, Nodup-nil, not-mem-nil, mem-cons}
use mathlib.Core.Logic.Or
use mathlib.Core.HLevel.{⊥_prop}
use native.Mathlib.Decide.{dec_lt}
use rift_net.Base.{
  ℕ, ◌+◌, ◌%◌, ◌<◌, ◌≤◌, ◌≡◌, ◌↔◌, ◌⊎◌, inl, inr, sym, ◌∙◌, max, Bool, true, false, if◌then◌else◌,
  Bool-cases, ◌>>=◌, >>=-eq-some, Option, some, List, [], ◌∷◌, arith,
}
use rift_net.Protocol.Packet.{ReliabilityPacketHeader}
use rift_net.Protocol.Reliability.{
  Floats, ReliableConnectionState, sub16, is_sequence_more_recent, update_receive_window,
  process_incoming_header,
}
use rift_net.Protocol.Reliability.Sequence.{is_sequence_more_recent-unwrapped}
use rift_net.Protocol.Reliability.Window.{IsWindow, Holds, Accepted, update_receive_window_lem}
use rift_net.Protocol.Reliability.Headers.{
  after_acks, after_acks-SameWindow, process_incoming_header-after_acks,
}

-- A header that arrives, with the number that its sender gave the packet before the cut to 16 bits.
pub record Arrival : Type 0 where
  pub number : ℕ
  pub header : ReliabilityPacketHeader
  pub time : ℕ

module _ (floats : Floats) where
  open floats use {Float}

  -- The run; the numbers of the packets that are handed on, in order. `none` as ever.
  unfoldable pub receive_all :
      ReliableConnectionState Float → List Arrival → Option (ReliableConnectionState Float × List ℕ)
  receive_all state [] = some (state, [])
  receive_all state (a ∷ arrivals) =
      process_incoming_header floats state a.header a.time >>= λ (state', fresh).
      receive_all state' arrivals >>= λ (final, rest).
      some (final, if fresh then a.number ∷ rest else rest)

-- The packet number `n` is settled: it can never be accepted again while the highest number is near.
abbrev Settled : {Float : Type 0} → ReliableConnectionState Float → ℕ → ℕ → Type 0
Settled state top n = (n ≤ top) × ((n + 32 ≤ top) ⊎ Holds state (n % 65536))

-- Every arrival is numbered by its sequence, and is less than half a circle from the greatest
-- number up to there.
abbrev pub Near : ℕ → List Arrival → Type 0
Near top [] = Unit {0}
Near top (a ∷ arrivals) =
    (a.header.sequence ≡ a.number % 65536)
    × (a.number < top + 32768)
    × (top < a.number + 32768)
    × Near (max top a.number) arrivals

-- What one arrival numbered `n` does to the window when `top` is the greatest number so far.
record Step {Float : Type 0} (state state' : ReliableConnectionState Float) (fresh : Bool)
    (top n : ℕ) : Type 0 where
  window : IsWindow state'
  highest : state'.highest_received_sequence ≡ max top n % 65536
  new : fresh ≡ true → ¬ Settled state top n
  settled : fresh ≡ true → Settled state' (max top n) n
  kept : (m : ℕ) → Settled state top m → Settled state' (max top n) m

module _ {Float : Type 0} (state state' : ReliableConnectionState Float)
    (header : ReliabilityPacketHeader) (fresh : Bool) (top n : ℕ) (v : IsWindow state)
    (at_top : state.highest_received_sequence ≡ top % 65536)
    (numbered : header.sequence ≡ n % 65536) (below : n < top + 32768) (above : top < n + 32768)
    (e : update_receive_window state header ≡ some (state', fresh)) where
  recent :
      (is_sequence_more_recent header.sequence state.highest_received_sequence ≡ true) ↔ (top < n)
  recent = rw (numbered, at_top) (is_sequence_more_recent-unwrapped n top below above)

  module _ (acc : Accepted state state' header.sequence) where
    highest_moves : state'.highest_received_sequence ≡ max top n % 65536
    highest_moves = ground (arith, acc.highest, recent)

    -- The accepted packet is in the window afterwards.
    held_after : Holds state' (n % 65536)
    held_after = (acc.holds (n % 65536) (omega arith)).1 (inl (sym numbered))

    not-Settled : ¬ Settled state top n
    not-Settled (old, inl far) = omega (arith, held_after.0, highest_moves)
    not-Settled (old, inr held) = acc.fresh (rw numbered held)

    stays-Settled : (m : ℕ) → Settled state top m → Settled state' (max top n) m
    stays-Settled m (old, inl far) = (omega arith, inl (omega arith))
    stays-Settled m (old, inr held) = elim (dec_lt (m + 31) (max top n)) [
      | yes far ↦ (omega arith, inl (omega arith))
      | no near ↦ (
        omega arith,
        inr ((acc.holds (m % 65536) (omega arith)).1 (inr (held, omega (arith, highest_moves)))),
      )
    ]

    Accepted-Step : Step state state' fresh top n
    Accepted-Step = record {
      window = acc.window;
      highest = highest_moves;
      new = λ _. not-Settled;
      settled = λ _. (omega arith, inr held_after);
      kept = stays-Settled;
    }

  refused-Step :
      fresh ≡ false
      → state' ≡ state
      → (Holds state header.sequence
          ⊎ (header.sequence ≡ state.highest_received_sequence)
          ⊎ ((32 < sub16 state.highest_received_sequence header.sequence)
              × (sub16 state.highest_received_sequence header.sequence ≤ 32768)))
      → Step state state' fresh top n
  refused-Step f same why = record {
    window = rw same v;
    highest = rw (same, unmoved) at_top;
    new = λ t. cc (f, t);
    settled = λ t. cc (f, t);
    kept = λ m s. rw (same, unmoved) s;
  }
    where
      unmoved : max top n ≡ top
      unmoved = ground (arith, why)

  update_receive_window-Step : Step state state' fresh top n
  update_receive_window-Step =
      elim (update_receive_window_lem state header v (omega arith) state' fresh e) [
        | inl (_, acc) ↦ Accepted-Step acc
        | inr (f, same, why) ↦ refused-Step f same why
      ]

process_incoming_header-Step :
    (floats : Floats) (state state' : ReliableConnectionState floats.Float)
    (header : ReliabilityPacketHeader) (now : ℕ) (fresh : Bool) (top n : ℕ)
    → IsWindow state
    → state.highest_received_sequence ≡ top % 65536
    → header.sequence ≡ n % 65536
    → n < top + 32768
    → top < n + 32768
    → process_incoming_header floats state header now ≡ some (state', fresh)
    → Step state state' fresh top n
process_incoming_header-Step floats state state' header now fresh top n v at_top numbered below
      above e =
    let mid = after_acks floats state header now in
    let same = after_acks-SameWindow floats state header now in
    let w : IsWindow mid = record {
      highest_fits = rw same.0 v.highest_fits;
      bitfield_fits = rw same.1 v.bitfield_fits;
    } in
    let step =
      update_receive_window-Step mid state' header fresh top n w (same.0 ∙ at_top) numbered below
        above (sym (process_incoming_header-after_acks floats state header now) ∙ e) in
    record {
      window = step.window;
      highest = step.highest;
      new = λ f s. step.new f (rw (same.0, same.1) s);
      settled = step.settled;
      kept = λ m s. step.kept m (rw (same.0, same.1) s);
    }

-- The numbers handed on by a run, by those of its rest.
module _ {Float : Type 0} {state state' : ReliableConnectionState Float} (fresh : Bool) (top n : ℕ)
    (rest : List ℕ) (step : Step state state' fresh top n) (once : Nodup rest)
    (later : (m : ℕ) → Settled state' (max top n) m → ¬ Mem m rest) where
  abbrev numbers_with : Bool → List ℕ
  numbers_with b = if b then n ∷ rest else rest

  Nodup-step : Nodup (numbers_with fresh)
  Nodup-step = elim (Bool-cases fresh) [
    | inl f ↦ rw f (Nodup-cons.1 (later n (step.settled f), once))
    | inr f ↦ rw f once
  ]

  not-Mem-step : (m : ℕ) → Settled state top m → ¬ Mem m (numbers_with fresh)
  not-Mem-step m s = elim (Bool-cases fresh) [
    | inl f ↦ rw f (λ mem.
        Or.elim ⊥_prop (mem-cons.0 mem) (λ e. step.new f (rw (← e) s)) (later m (step.kept m s)))
    | inr f ↦ rw f (later m (step.kept m s))
  ]

Near-Nodup :
    (floats : Floats) (arrivals : List Arrival) (state final : ReliableConnectionState floats.Float)
    (top : ℕ) (numbers : List ℕ)
    → IsWindow state
    → state.highest_received_sequence ≡ top % 65536
    → Near top arrivals
    → receive_all floats state arrivals ≡ some (final, numbers)
    → Nodup numbers × ((m : ℕ) → Settled state top m → ¬ Mem m numbers)
unfolding receive_all
Near-Nodup floats [] state final top numbers v at_top near e =
    let none_left : [] ≡ numbers = ground arith in
    (rw (← none_left) Nodup-nil, λ m s. rw (← none_left) not-mem-nil)
Near-Nodup floats (a ∷ arrivals) state final top numbers v at_top (numbered, below, above, near) e =
    let ((state', fresh), first, more) =
      >>=-eq-some (process_incoming_header floats state a.header a.time) _ e in
    let ((final', rest), run, last) = >>=-eq-some (receive_all floats state' arrivals) _ more in
    let step =
      process_incoming_header-Step floats state state' a.header a.time fresh top a.number v at_top
        numbered below above first in
    let all : (if fresh then a.number ∷ rest else rest) ≡ numbers = ground arith in
    let (once, later) =
      Near-Nodup floats arrivals state' final' (max top a.number) rest step.window step.highest near
        run in
    rw (← all) (
      Nodup-step fresh top a.number rest step once later,
      not-Mem-step fresh top a.number rest step once later,
    )

-- At-most-once delivery: in a run of `ProcessIncomingHeader` over headers that arrive in any order,
-- lost and repeated as may be, no packet is handed to the application twice. The conditions: the run
-- meets no undefined shift, it starts from a state whose window fields are in range and whose
-- highest number is that of the packet `top`, and every arriving packet is less than 32768 numbers
-- away from the greatest one so far.
pub receive_all-Nodup :
    (floats : Floats) (state final : ReliableConnectionState floats.Float) (top : ℕ)
    (arrivals : List Arrival) (numbers : List ℕ)
    → IsWindow state
    → state.highest_received_sequence ≡ top % 65536
    → Near top arrivals
    → receive_all floats state arrivals ≡ some (final, numbers)
    → Nodup numbers
receive_all-Nodup floats state final top arrivals numbers v at_top near e =
    (Near-Nodup floats arrivals state final top numbers v at_top near e).0
