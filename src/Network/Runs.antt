-- ===== src/Network/Runs.antt =====
-- Any sequence of calls of the socket and of answers of the system, from any threads.
use mathlib.Core.Option.{some-injective}
use mathlib.Core.Path.{subst}
use rift_net.Base.{
  ℕ, ◌≡◌, refl, ap, Bool, ltb, if◌then◌else◌, if-either, Option, none, some, ◌>>=◌, >>=-eq-some,
  List, [], ◌∷◌, ◌++◌, arith,
}
use rift_net.Base.Counts.{count_of}
use rift_net.Network.{
  SocketIo, NetworkOutput, InitAnswers, new_socket_io, init, start, stop, send_data, begin_receive,
  finish_receive, complete_send,
}
use rift_net.Network.Contexts.{
  IsPool, new_socket_io-IsPool, init-IsPool, begin_receive-IsPool, finish_receive-IsPool,
  complete_send-IsPool, send_data-IsPool, stop-IsPool,
}
use rift_net.Network.Starting.{start-IsPool}

-- The system gives back what it has: `receive_begins` and `send_ends` of another context, and
-- `receive_ends` of one that no handler has, do not happen.
pub data SocketCall : Type 0 where
  initialise : Bool → InitAnswers → SocketCall
  start_receives : (ℕ → Bool) → SocketCall
  stop_socket : SocketCall
  send_bytes : Option (List ℕ) → Bool → SocketCall
  receive_begins : ℕ → ℕ → SocketCall
  receive_ends : ℕ → Bool → SocketCall
  send_ends : ℕ → ℕ → SocketCall

unfoldable pub perform_socket : SocketIo → SocketCall → Option (SocketIo × List NetworkOutput)
perform_socket s (initialise has_handler w) = some ((init s has_handler w).0, [])
perform_socket s (start_receives accepts) = start s accepts >>= λ (s', _). some (s', [])
perform_socket s stop_socket = some (stop s, [])
perform_socket s (send_bytes bytes accepted) = some ((send_data s bytes accepted).0, [])
perform_socket s (receive_begins context bytes) =
    let (s', _, out) = begin_receive s context bytes in
    if ltb 0 (count_of context s.posted) then some (s', out) else some (s, [])
perform_socket s (receive_ends context accepted) =
    if ltb 0 (count_of context s.handling)
    then (finish_receive s context accepted >>= λ s'. some (s', []))
    else some (s, [])
perform_socket s (send_ends context bytes) =
    if ltb 0 (count_of context s.sending)
    then some (complete_send s context bytes)
    else some (s, [])

unfoldable pub run_socket : SocketIo → List SocketCall → Option (SocketIo × List NetworkOutput)
run_socket s [] = some (s, [])
run_socket s (call ∷ calls) = perform_socket s call >>= λ (s1, out).
    run_socket s1 calls >>= λ (s2, more). some (s2, out ++ more)

abbrev PoolIfDefined : Option (SocketIo × List NetworkOutput) → Type 0
PoolIfDefined none = Unit
PoolIfDefined (some (s, out)) = IsPool s

perform_socket-PoolIfDefined :
    (s : SocketIo) (call : SocketCall) → IsPool s → PoolIfDefined (perform_socket s call)
unfolding perform_socket
perform_socket-PoolIfDefined s (initialise has_handler w) v = init-IsPool s has_handler w v
perform_socket-PoolIfDefined s (start_receives accepts) v = started (start s accepts) refl
  where
    started :
        (r : Option (SocketIo × Bool))
        → start s accepts ≡ r
        → PoolIfDefined (r >>= λ (s', _). some (s', []))
    started none e = tt
    started (some (s', ok)) e = start-IsPool s s' accepts ok v e
perform_socket-PoolIfDefined s stop_socket v = stop-IsPool s v
perform_socket-PoolIfDefined s (send_bytes bytes accepted) v = send_data-IsPool s bytes accepted v
perform_socket-PoolIfDefined s (receive_begins context bytes) v =
    if-either PoolIfDefined (ltb 0 (count_of context s.posted)) _ _
      (λ here. begin_receive-IsPool s context bytes (ground arith) v) (λ no. v)
perform_socket-PoolIfDefined s (receive_ends context accepted) v =
    if-either PoolIfDefined (ltb 0 (count_of context s.handling)) _ _
      (λ here.
        let (s', e, after) = finish_receive-IsPool s context accepted (ground arith) v in
        simp e after)
      (λ no. v)
perform_socket-PoolIfDefined s (send_ends context bytes) v =
    if-either PoolIfDefined (ltb 0 (count_of context s.sending)) _ _
      (λ here. complete_send-IsPool s context bytes v) (λ no. v)

pub run_socket-IsPool_from :
    (s s' : SocketIo) (calls : List SocketCall) (out : List NetworkOutput)
    → IsPool s
    → run_socket s calls ≡ some (s', out)
    → IsPool s'
unfolding run_socket
run_socket-IsPool_from s s' [] out v h = subst IsPool (ap (λ r. r.0) (some-injective _ _ h)) v
run_socket-IsPool_from s s' (call ∷ calls) out v h =
    let ((s1, first), here, rest) = >>=-eq-some (perform_socket s call) _ h in
    let ((s2, more), later, last) = >>=-eq-some (run_socket s1 calls) _ rest in
    let v1 : IsPool s1 = subst PoolIfDefined here (perform_socket-PoolIfDefined s call v) in
    subst IsPool (ap (λ r. r.0) (some-injective _ _ last))
      (run_socket-IsPool_from s1 s2 calls more v1 later)

-- Whatever is called, whatever the system answers, and in whatever order, if no undefined behaviour
-- is met: every receive context of the pool is in exactly one place, free, with the system, in an
-- event handler, or dropped, so that none is given to the system twice; and a send context that is
-- with the system is there once and is no receive context.
pub run_socket-IsPool :
    (s' : SocketIo) (calls : List SocketCall) (out : List NetworkOutput)
    → run_socket new_socket_io calls ≡ some (s', out)
    → IsPool s'
run_socket-IsPool s' calls out h =
    run_socket-IsPool_from new_socket_io s' calls out new_socket_io-IsPool h
