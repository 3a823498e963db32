-- ===== src/Ports/Order.antt =====
-- Completions reach the callback, none of them twice. Two workers that dequeue one after the other may call
-- it in either order.
use rift_net.Base.{ℕ, ◌+◌, Bool, if◌then◌else◌, List, [], ◌∷◌, ◌++◌}
use rift_net.Ports.{
  IocpManager, Packet, poison_pill, operation, Phase, testing, waiting, handling, exited, PortEvent,
  takes_turn, operation_ends, stop_begins,
}

-- What the callback is to get for the operations of a queue, and for those that end in a run.
abbrev pub calls_for : List Packet → List (ℕ × ℕ)
calls_for [] = []
calls_for (poison_pill ∷ queue) = calls_for queue
calls_for (operation context bytes succeeded ∷ queue) =
    (context, if succeeded then bytes else 0) ∷ calls_for queue

abbrev pub ended : List PortEvent → List (ℕ × ℕ)
ended [] = []
ended (takes_turn i times_out ∷ events) = ended events
ended (operation_ends context bytes succeeded ∷ events) =
    (context, if succeeded then bytes else 0) ∷ ended events
ended (stop_begins ∷ events) = ended events

-- And what the workers are about to call it with.
abbrev in_hand : Phase → List (ℕ × ℕ)
in_hand testing = []
in_hand waiting = []
in_hand (handling context bytes) = (context, bytes) ∷ []
in_hand exited = []

abbrev pub in_hands : List Phase → List (ℕ × ℕ)
in_hands [] = []
in_hands (phase ∷ phases) = in_hand phase ++ in_hands phases

-- How many calls of a list are among those that `wanted` tells.
abbrev pub how_many : (ℕ × ℕ → Bool) → List (ℕ × ℕ) → ℕ
how_many wanted [] = 0
how_many wanted (call ∷ calls) = (if wanted call then 1 else 0) + how_many wanted calls

module _ (wanted : ℕ × ℕ → Bool) where
  -- All calls that are still to be made.
  abbrev to_come : IocpManager → ℕ
  to_come s = how_many wanted (in_hands s.worker_threads) + how_many wanted (calls_for s.queue)
