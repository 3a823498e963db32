-- ===== src/Ports.antt =====
-- RiftNet/src/core/iocpmanager/IOCPManager: the completion port and its worker threads. A worker is
-- its place in the loop of `WorkerThread`; a context is named by its number. What is handed to the
-- completion callback is a list of contexts with their byte counts.
pub mod Order
pub mod Exits
pub mod Starting
use rift_net.Base.{
  ℕ, zero, suc, ◌+◌, ◌%◌, ◌^◌, Bool, true, false, not, ltb, ◌==◌, if◌then◌else◌, Option, none, some,
  List, [], ◌∷◌, ◌++◌, length, replicate,
}

-- About to test the loop's condition, in `GetQueuedCompletionStatus`, back from it with a context
-- and the bytes that the callback is now to get, or out of the loop. What lies between the dequeue
-- and the callback is not under a lock, so other workers can take turns there.
pub data Phase : Type 0 where
  testing waiting : Phase
  handling : ℕ → ℕ → Phase
  exited : Phase

-- A packet of the port's queue: the signal of `Stop`, or an operation that ended, its context with
-- the bytes and whether it succeeded.
pub data Packet : Type 0 where
  poison_pill : Packet
  operation : ℕ → ℕ → Bool → Packet

pub data PortHandle : Type 0 where
  invalid_handle null_handle open_handle : PortHandle

pub record IocpManager : Type 0 where
  pub iocp_handle : PortHandle
  pub worker_threads : List Phase
  pub is_running : Bool
  pub queue : List Packet

unfoldable pub new_iocp_manager : IocpManager
new_iocp_manager = record {
  iocp_handle = PortHandle.invalid_handle;
  worker_threads = [];
  is_running = false;
  queue = [];
}

-- `hardware` is `std::thread::hardware_concurrency()`.
unfoldable pub determine_num_worker_threads : ℕ → ℕ → ℕ
determine_num_worker_threads concurrent hardware =
    if ltb 0 concurrent then concurrent else (if ltb 0 hardware then hardware else 4)

-- `Stop`, up to its joins, and after them.
unfoldable pub begin_stop : IocpManager → IocpManager
begin_stop s =
    let pills = replicate (length s.worker_threads) Packet.poison_pill in
    let woken : List Packet = elim s.iocp_handle [
      | null_handle ↦ s.queue
      | invalid_handle ↦ s.queue
      | open_handle ↦ s.queue ++ pills
    ] in
    if not s.is_running then s else record s { is_running = false; queue = woken }

unfoldable pub finish_stop : IocpManager → IocpManager
finish_stop s = record s { worker_threads = []; iocp_handle = PortHandle.null_handle; queue = [] }

-- `spawned` is how many threads the system can make: with too few the ones made are stopped.
unfoldable pub start : IocpManager → ℕ → ℕ → Bool → ℕ → IocpManager × Bool
start s concurrent hardware port_created spawned =
    let count = determine_num_worker_threads concurrent hardware in
    let opened = record s {
      iocp_handle = PortHandle.open_handle;
      is_running = true;
      worker_threads = s.worker_threads ++ replicate count Phase.testing;
    } in
    let partly = record s {
      iocp_handle = PortHandle.open_handle;
      is_running = true;
      worker_threads = s.worker_threads ++ replicate spawned Phase.testing;
    } in
    if s.is_running
    then (s, true)
    else (if not port_created
        then (record s { iocp_handle = PortHandle.null_handle }, false)
        else (if ltb spawned count
            then (finish_stop (begin_stop partly), false)
            else (opened, true)))

unfoldable pub associate_socket : IocpManager → Bool → Bool
associate_socket s accepted = elim s.iocp_handle [
  | null_handle ↦ false
  | invalid_handle ↦ accepted
  | open_handle ↦ accepted
]

-- What `GetQueuedCompletionStatus` gives a worker: its phase then, and the queue.
unfoldable pub take_packet : List Packet → Phase × List Packet
take_packet [] = (Phase.testing, [])
take_packet (poison_pill ∷ queue) = (Phase.exited, queue)
take_packet (operation context bytes succeeded ∷ queue) =
    (Phase.handling context (if succeeded then bytes else 0), queue)

-- One step of a worker: its phase, the queue, and the call of the callback. The wait may time out,
-- or fail, whatever is in the queue.
unfoldable pub step_worker : IocpManager → Phase → Bool → Phase × List Packet × List (ℕ × ℕ)
step_worker s testing times_out =
    (if s.is_running then Phase.waiting else Phase.exited, s.queue, [])
step_worker s waiting times_out =
    let (phase, queue) = take_packet s.queue in
    if times_out then (Phase.testing, s.queue, []) else (phase, queue, [])
step_worker s (handling context bytes) times_out = (Phase.testing, s.queue, (context, bytes) ∷ [])
step_worker s exited times_out = (Phase.exited, s.queue, [])

abbrev pub phase_at : ℕ → List Phase → Option Phase
phase_at i [] = none
phase_at zero (phase ∷ phases) = some phase
phase_at (suc i) (phase ∷ phases) = phase_at i phases

abbrev pub set_phase : ℕ → Phase → List Phase → List Phase
set_phase i new [] = []
set_phase zero new (phase ∷ phases) = new ∷ phases
set_phase (suc i) new (phase ∷ phases) = phase ∷ set_phase i new phases

-- A turn of worker `i`.
unfoldable turn_of : IocpManager → ℕ → Option Phase → Bool → IocpManager × List (ℕ × ℕ)
turn_of s i none times_out = (s, [])
turn_of s i (some phase) times_out =
    let (phase', queue, out) = step_worker s phase times_out in
    (record s { worker_threads = set_phase i phase' s.worker_threads; queue = queue }, out)

unfoldable pub turn : IocpManager → ℕ → Bool → IocpManager × List (ℕ × ℕ)
unfolding turn_of
turn s i times_out = turn_of s i (phase_at i s.worker_threads) times_out

-- What can happen: a worker's turn, an operation ends, and `Stop` is called.
pub data PortEvent : Type 0 where
  takes_turn : ℕ → Bool → PortEvent
  operation_ends : ℕ → ℕ → Bool → PortEvent
  stop_begins : PortEvent

unfoldable pub happen : IocpManager → PortEvent → IocpManager × List (ℕ × ℕ)
happen s (takes_turn i times_out) = turn s i times_out
happen s (operation_ends context bytes succeeded) =
    (record s { queue = s.queue ++ (operation context bytes succeeded ∷ []) }, [])
happen s stop_begins = (begin_stop s, [])

unfoldable pub run_port : IocpManager → List PortEvent → IocpManager × List (ℕ × ℕ)
run_port s [] = (s, [])
run_port s (event ∷ events) =
    let (s1, out) = happen s event in let (s2, more) = run_port s1 events in (s2, out ++ more)
