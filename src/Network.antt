-- ===== src/Network.antt =====
-- RiftNet/src/core/riftnetio/RiftNetIO: the datagram socket and its I/O contexts. A context is
-- named by the number of its allocation. What the system answers is an argument; what the code
-- hands to the event handler is a list of `NetworkOutput`. `none` is undefined behaviour: the code
-- locks its pool's mutex while the same thread has it.
-- The state also says where the contexts are that are in no vector: `posted` are the receive
-- contexts that the system has, `sending` the send contexts, `handling` those with which a thread is
-- in the event handler, and `dropped` the receive contexts that a completion after `Stop` left
-- nowhere.
pub mod Contexts
pub mod Starting
pub mod Runs
pub mod Idle
use rift_net.Base.Counts.{remove}
use rift_net.Base.{
  ℕ, zero, suc, ◌+◌, Bool, true, false, not, ◌&&◌, ◌||◌, ◌==◌, ltb, if◌then◌else◌, Option, none,
  some, ◌>>=◌, List, [], ◌∷◌, ◌++◌, length,
}

pub data IoOperationType : Type 0 where
  no_operation recv send : IoOperationType

-- A call of the event handler: the bytes of a datagram, and the end of a send.
pub data NetworkOutput : Type 0 where
  raw_data_received : ℕ → NetworkOutput
  send_completed : ℕ → Bool → NetworkOutput

pub record SocketIo : Type 0 where
  pub has_socket : Bool
  pub has_handler : Bool
  -- The completion port's threads run, and the socket is associated with the port.
  pub port_runs : Bool
  pub is_associated : Bool
  pub is_running : Bool
  pub receive_context_pool : List ℕ
  pub free_receive_contexts : List ℕ
  pub posted : List ℕ
  pub sending : List ℕ
  pub handling : List ℕ
  pub dropped : List ℕ
  pub next_context : ℕ

unfoldable pub new_socket_io : SocketIo
new_socket_io = record {
  has_socket = false;
  has_handler = false;
  port_runs = false;
  is_associated = false;
  is_running = false;
  receive_context_pool = [];
  free_receive_contexts = [];
  posted = [];
  sending = [];
  handling = [];
  dropped = [];
  next_context = 0;
}

-- What `Init` meets.
pub record InitAnswers : Type 0 where
  pub socket_opens : Bool
  pub socket_binds : Bool
  pub port_starts : Bool
  pub port_takes_socket : Bool

-- The loop that fills the pool.
unfoldable pub add_contexts : ℕ → SocketIo → SocketIo
add_contexts zero s = s
add_contexts (suc n) s = add_contexts n (record s {
  next_context = s.next_context + 1;
  free_receive_contexts = s.free_receive_contexts ++ (s.next_context ∷ []);
  receive_context_pool = s.receive_context_pool ++ (s.next_context ∷ []);
})

abbrev pub pool_size : ℕ
pool_size = 128

-- `Init` on a socket that is not open, with a handler. (A new manager replaces the old one.)
unfoldable pub open_socket : SocketIo → InitAnswers → SocketIo × Bool
open_socket s w =
    let opened = record s { has_socket = true; port_runs = w.port_starts; is_associated = false } in
    if not w.socket_opens
    then (s, false)
    else (if not w.socket_binds
        then (s, false)
        else (if not w.port_starts
            then (opened, false)
            else (if not w.port_takes_socket
                then (opened, false)
                else (add_contexts pool_size (record opened { is_associated = true }), true))))

unfoldable pub init : SocketIo → Bool → InitAnswers → SocketIo × Bool
init s has_handler w =
    if s.has_socket
    then (s, true)
    else (if not has_handler
        then (record s { has_handler = false }, false)
        else open_socket (record s { has_handler = true }) w)

-- `locked`: the calling thread has the pool's mutex.
unfoldable pub return_receive_context : SocketIo → Bool → ℕ → Option SocketIo
return_receive_context s locked context =
    if locked
    then none
    else some (record s { free_receive_contexts = s.free_receive_contexts ++ (context ∷ []) })

-- `accepted`: the system took the request.
unfoldable pub post_receive : SocketIo → Bool → ℕ → Bool → Option (SocketIo × Bool)
post_receive s locked context accepted =
    if s.is_running && accepted
    then some (record s { posted = context ∷ s.posted }, true)
    else return_receive_context s locked context >>= λ s'. some (s', false)

-- The loop of `Start`, with the number of the contexts that it posted.
unfoldable pub post_all : SocketIo → List ℕ → (ℕ → Bool) → ℕ → Option (SocketIo × ℕ)
post_all s [] accepts count = some (s, count)
post_all s (context ∷ contexts) accepts count =
    post_receive s true context (accepts context) >>= λ (s', ok).
    post_all s' contexts accepts (if ok then count + 1 else count)

unfoldable pub start : SocketIo → (ℕ → Bool) → Option (SocketIo × Bool)
start s accepts =
    if s.is_running
    then some (s, true)
    else post_all (record s { is_running = true }) s.free_receive_contexts accepts 0
      >>= λ (s', count). some (record s' { free_receive_contexts = [] }, ltb 0 count)

unfoldable pub stop : SocketIo → SocketIo
stop s = if not s.is_running then s else record s {
  is_running = false;
  has_socket = false;
  is_associated = false;
  port_runs = false;
}

-- A null pointer is `none`. The send context is deleted when the system refuses it.
unfoldable pub send_data : SocketIo → Option (List ℕ) → Bool → SocketIo × Bool
send_data s none accepted = (s, false)
send_data s (some bytes) accepted =
    let allocated = record s { next_context = s.next_context + 1 } in
    if not s.is_running
    then (s, false)
    else (if accepted
        then (record allocated { sending = s.next_context ∷ s.sending }, true)
        else (allocated, false))

-- The two halves of the receive case of `OnIOCompleted`, before and after `PostReceive` is called:
-- between them another thread may stop the socket. The Boolean is whether the second half follows.
unfoldable pub begin_receive : SocketIo → ℕ → ℕ → SocketIo × Bool × List NetworkOutput
begin_receive s context bytes =
    let back = record s { posted = remove context s.posted } in
    let out = if ltb 0 bytes then NetworkOutput.raw_data_received context ∷ [] else [] in
    if not s.is_running
    then (record back { dropped = context ∷ s.dropped }, false, [])
    else (record back { handling = context ∷ s.handling }, true, out)

unfoldable pub finish_receive : SocketIo → ℕ → Bool → Option SocketIo
finish_receive s context accepted =
    post_receive (record s { handling = remove context s.handling }) false context accepted
    >>= λ (s', _). some s'

-- The send case.
unfoldable pub complete_send : SocketIo → ℕ → ℕ → SocketIo × List NetworkOutput
complete_send s context bytes =
    let deleted = record s { sending = remove context s.sending } in
    if not s.is_running
    then (deleted, [])
    else (deleted, NetworkOutput.send_completed context (ltb 0 bytes) ∷ [])

-- The callback of the completion port for a context that the system gives back.
unfoldable pub on_io_completed :
    SocketIo → IoOperationType → ℕ → ℕ → Bool → Option (SocketIo × List NetworkOutput)
on_io_completed s no_operation context bytes accepted = some (s, [])
on_io_completed s recv context bytes accepted =
    let (s1, handled, out) = begin_receive s context bytes in
    if handled
    then (finish_receive s1 context accepted >>= λ s'. some (s', out))
    else some (s1, out)
on_io_completed s send context bytes accepted = some (complete_send s context bytes)

-- The last of a list that has a first, and the rest.
abbrev last_of : ℕ → List ℕ → ℕ
last_of x [] = x
last_of x (y ∷ ys) = last_of y ys

abbrev but_last : ℕ → List ℕ → List ℕ
but_last x [] = []
but_last x (y ∷ ys) = x ∷ but_last y ys

take_free : SocketIo → List ℕ → SocketIo × ℕ
take_free s [] = (
  record s {
    next_context = s.next_context + 1;
    receive_context_pool = s.receive_context_pool ++ (s.next_context ∷ []);
  },
  s.next_context,
)
take_free s (context ∷ contexts) =
    (record s { free_receive_contexts = but_last context contexts }, last_of context contexts)

-- A context for a receive, which the caller then has. (Nothing calls it.)
unfoldable pub get_free_receive_context : SocketIo → SocketIo × ℕ
unfolding take_free
get_free_receive_context s = take_free s s.free_receive_contexts
