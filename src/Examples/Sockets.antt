-- ===== src/Examples/Sockets.antt =====
-- The socket and the completion port at concrete inputs.
use mathlib.Core.Option.{get_or}
use rift_net.Base.{
  ℕ, ◌<◌, ◌≡◌, ◌⊎◌, refl, Bool, true, false, ltb, ◌==◌, Option, none, some, List, [], ◌∷◌, length,
  arith,
}
use rift_net.Base.Counts.{remove, count_of}
use rift_net.Network.{
  SocketIo, NetworkOutput, InitAnswers, new_socket_io, init, start, open_socket, add_contexts,
  post_all, post_receive, begin_receive, finish_receive, return_receive_context, send_data,
  complete_send, stop,
}
use rift_net.Network.Contexts.{IsPool}
use rift_net.Network.Starting.{refuses, post_list, start_lem}
use rift_net.Network.Runs.{SocketCall, perform_socket, run_socket, run_socket-IsPool}
use rift_net.Network.Idle.{run_socket_idle}
use rift_net.Ports.{IocpManager, Phase, PortHandle, PortEvent, run_port, phase_at, begin_stop}
use rift_net.Ports.Exits.{run_port_exits}

abbrev good : InitAnswers
good = record {
  socket_opens = true;
  socket_binds = true;
  port_starts = true;
  port_takes_socket = true;
}

-- A datagram arrives in context 7, which the system then refuses; the socket sends and stops.
abbrev socket_calls : List SocketCall
socket_calls =
    SocketCall.initialise true good
    ∷ SocketCall.start_receives (λ context. true)
    ∷ SocketCall.receive_begins 7 20
    ∷ SocketCall.receive_ends 7 false
    ∷ SocketCall.send_bytes (some (1 ∷ [])) true
    ∷ SocketCall.send_ends 128 1
    ∷ SocketCall.stop_socket
    ∷ []

ran_socket : Option (SocketIo × List NetworkOutput)
ran_socket = run_socket new_socket_io socket_calls

final_socket : SocketIo × List NetworkOutput
final_socket = get_or ran_socket (new_socket_io, [])

socket_calls-run : run_socket new_socket_io socket_calls ≡ some (final_socket.0, final_socket.1)
unfolding final_socket ran_socket run_socket perform_socket init open_socket add_contexts start
    post_all post_receive begin_receive finish_receive return_receive_context remove send_data
    complete_send stop new_socket_io
socket_calls-run = refl

run_socket-IsPool_example : IsPool final_socket.0
run_socket-IsPool_example =
    run_socket-IsPool final_socket.0 socket_calls final_socket.1 socket_calls-run

-- One of two contexts was put back; the other goes on.
abbrev half : SocketIo
half = record {
  has_socket = true;
  has_handler = true;
  port_runs = true;
  is_associated = true;
  is_running = true;
  receive_context_pool = 0 ∷ 1 ∷ [];
  free_receive_contexts = 0 ∷ [];
  posted = 1 ∷ [];
  sending = [];
  handling = [];
  dropped = [];
  next_context = 2;
}

half-IsPool : IsPool half
half-IsPool = record {
  placed = λ x. omega arith;
  once = λ x. ground arith;
  below = λ x h. ground arith;
}

abbrev later_calls : List SocketCall
later_calls = SocketCall.receive_begins 1 9 ∷ SocketCall.receive_ends 1 true ∷ []

ran_later : Option (SocketIo × List NetworkOutput)
ran_later = run_socket half later_calls

later_socket : SocketIo × List NetworkOutput
later_socket = get_or ran_later (half, [])

later_calls-run : run_socket half later_calls ≡ some (later_socket.0, later_socket.1)
unfolding later_socket ran_later run_socket perform_socket begin_receive finish_receive post_receive
    remove
later_calls-run = refl

run_socket_idle_example :
    (0 < count_of 0 later_socket.0.free_receive_contexts)
    × (count_of 0 later_socket.0.posted ≡ 0)
    × (count_of 0 later_socket.0.handling ≡ 0)
run_socket_idle_example =
    run_socket_idle half later_socket.0 later_calls later_socket.1 0 half-IsPool (refl, (refl, tt))
      later_calls-run (omega arith)

-- The system refuses the second of two contexts.
abbrev idle : SocketIo
idle = record half { is_running = false; free_receive_contexts = 0 ∷ 1 ∷ []; posted = [] }

start_lem_example :
    let accepts : ℕ → Bool = λ context. context == 0 in
    ((idle.is_running ≡ true) × (start idle accepts ≡ some (idle, true)))
    ⊎ ((idle.is_running ≡ false)
        × (refuses accepts idle.free_receive_contexts ≡ false)
        × (start idle accepts
            ≡ some (
              record idle {
                is_running = true;
                free_receive_contexts = [];
                posted = post_list idle.free_receive_contexts idle.posted;
              },
              ltb 0 (length idle.free_receive_contexts),
            )))
    ⊎ ((idle.is_running ≡ false)
        × (refuses accepts idle.free_receive_contexts ≡ true)
        × (start idle accepts ≡ none))
start_lem_example = start_lem idle (λ context. context == 0)

-- Two workers and a packet; `Stop` is called while both wait.
abbrev two_workers : IocpManager
two_workers = record {
  iocp_handle = PortHandle.open_handle;
  worker_threads = Phase.waiting ∷ Phase.waiting ∷ [];
  is_running = true;
  queue = [];
}

abbrev port_events : List PortEvent
port_events =
    PortEvent.operation_ends 5 20 true
    ∷ PortEvent.operation_ends 6 0 false
    ∷ PortEvent.takes_turn 0 false
    ∷ PortEvent.stop_begins
    ∷ PortEvent.takes_turn 1 false
    ∷ PortEvent.takes_turn 1 true
    ∷ PortEvent.takes_turn 1 true
    ∷ []

-- The calls for context 5.
abbrev is_of_5 : ℕ × ℕ → Bool
is_of_5 call = call.0 == 5

run_port_exits_example :
    phase_at 1 (run_port (begin_stop two_workers) port_events).0.worker_threads ≡ some Phase.exited
unfolding begin_stop
run_port_exits_example =
    run_port_exits (begin_stop two_workers) 1 Phase.waiting port_events refl refl (omega arith)
