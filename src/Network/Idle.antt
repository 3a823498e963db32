-- ===== src/Network/Idle.antt =====
-- Receive contexts that `PostReceive` puts back.
use mathlib.Core.Option.{some-injective}
use mathlib.Core.Path.{subst}
use rift_net.Base.{
  ℕ, zero, suc, ◌+◌, ◌≤◌, ◌<◌, ◌≡◌, inl, inr, ap, Bool, true, false, not, ◌&&◌, ltb, Bool-cases,
  if-either, Option, none, some, ◌>>=◌, >>=-eq-some, List, [], ◌∷◌, ◌++◌, All, arith,
}
use rift_net.Base.Counts.{count_of-append, count_of}
use rift_net.Network.{
  SocketIo, NetworkOutput, InitAnswers, add_contexts, open_socket, init, post_receive,
  return_receive_context, stop, send_data, begin_receive, finish_receive, complete_send, pool_size,
}
use rift_net.Network.Contexts.{IsPool}
use rift_net.Network.Runs.{
  SocketCall, initialise, start_receives, stop_socket, send_bytes, receive_begins, receive_ends,
  send_ends, perform_socket, run_socket, run_socket-IsPool_from,
}

-- What is free stays free.
abbrev Keeps : SocketIo → SocketIo → Type 0
Keeps s s' = (x : ℕ) → count_of x s.free_receive_contexts ≤ count_of x s'.free_receive_contexts

add_contexts-Keeps : (n : ℕ) (s : SocketIo) → Keeps s (add_contexts n s)
unfolding add_contexts
add_contexts-Keeps zero s x = omega arith
add_contexts-Keeps (suc n) s x = omega (
  arith,
  add_contexts-Keeps n
      (record s {
        next_context = s.next_context + 1;
        free_receive_contexts = s.free_receive_contexts ++ (s.next_context ∷ []);
        receive_context_pool = s.receive_context_pool ++ (s.next_context ∷ []);
      })
      x,
  count_of-append x s.free_receive_contexts (s.next_context ∷ []),
)

open_socket-Keeps : (s : SocketIo) (w : InitAnswers) → Keeps s (open_socket s w).0
unfolding open_socket
open_socket-Keeps s w =
    let P : SocketIo × Bool → Type 0 = λ r. Keeps s r.0 in
    let same : Keeps s s = λ x. omega arith in
    if-either P (not w.socket_opens) _ _ (λ e. same)
      (λ opens.
        if-either P (not w.socket_binds) _ _ (λ e. same)
          (λ binds.
            if-either P (not w.port_starts) _ _ (λ e. same)
              (λ starts.
                if-either P (not w.port_takes_socket) _ _ (λ e. same)
                  (λ takes. add_contexts-Keeps pool_size (record s {
                    has_socket = true;
                    port_runs = w.port_starts;
                    is_associated = true;
                  })))))

init-Keeps :
    (s : SocketIo) (has_handler : Bool) (w : InitAnswers) → Keeps s (init s has_handler w).0
unfolding init
init-Keeps s has_handler w =
    let P : SocketIo × Bool → Type 0 = λ r. Keeps s r.0 in
    let same : Keeps s s = λ x. omega arith in
    if-either P s.has_socket _ _ (λ e. same)
      (λ closed.
        if-either P (not has_handler) _ _ (λ e. same)
          (λ e. open_socket-Keeps (record s { has_handler = true }) w))

abbrev KeepsIfDefined : SocketIo → Option (SocketIo × List NetworkOutput) → Type 0
KeepsIfDefined s none = Unit
KeepsIfDefined s (some (s', out)) = Keeps s s'

finish_receive-Keeps :
    (s : SocketIo) (context : ℕ) (accepted : Bool)
    → KeepsIfDefined s (finish_receive s context accepted >>= λ s'. some (s', []))
unfolding finish_receive post_receive return_receive_context
finish_receive-Keeps s context accepted = elim (Bool-cases (s.is_running && accepted)) [
  | inl e ↦ simp e (λ x. omega arith)
  | inr e ↦ simp e (λ x. omega (arith, count_of-append x s.free_receive_contexts (context ∷ [])))
]

-- Every call but `Start`.
abbrev pub is_start : SocketCall → Bool
is_start (initialise has_handler w) = false
is_start (start_receives accepts) = true
is_start stop_socket = false
is_start (send_bytes bytes accepted) = false
is_start (receive_begins context bytes) = false
is_start (receive_ends context accepted) = false
is_start (send_ends context bytes) = false

perform_socket-Keeps :
    (s : SocketIo) (call : SocketCall)
    → is_start call ≡ false
    → KeepsIfDefined s (perform_socket s call)
unfolding perform_socket stop send_data begin_receive complete_send
perform_socket-Keeps s (initialise has_handler w) h = init-Keeps s has_handler w
perform_socket-Keeps s (start_receives accepts) h = cc h
perform_socket-Keeps s stop_socket h =
    if-either (Keeps s) (not s.is_running) _ _ (λ e x. omega arith) (λ e x. omega arith)
perform_socket-Keeps s (send_bytes none accepted) h = λ x. omega arith
perform_socket-Keeps s (send_bytes (some bytes) accepted) h =
    let P : SocketIo × Bool → Type 0 = λ r. Keeps s r.0 in
    if-either P (not s.is_running) _ _ (λ e x. omega arith)
      (λ running. if-either P accepted _ _ (λ e x. omega arith) (λ e x. omega arith))
perform_socket-Keeps s (receive_begins context bytes) h =
    if-either (KeepsIfDefined s) (ltb 0 (count_of context s.posted)) _ _
      (λ here.
        if-either (λ (r : SocketIo × Bool × List NetworkOutput). Keeps s r.0) (not s.is_running) _ _
          (λ e x. omega arith) (λ e x. omega arith))
      (λ no x. omega arith)
perform_socket-Keeps s (receive_ends context accepted) h =
    if-either (KeepsIfDefined s) (ltb 0 (count_of context s.handling)) _ _
      (λ here. finish_receive-Keeps s context accepted) (λ no x. omega arith)
perform_socket-Keeps s (send_ends context bytes) h =
    if-either (KeepsIfDefined s) (ltb 0 (count_of context s.sending)) _ _
      (λ here.
        if-either (λ (r : SocketIo × List NetworkOutput). Keeps s r.0) (not s.is_running) _ _
          (λ e x. omega arith) (λ e x. omega arith))
      (λ no x. omega arith)

run_socket-Keeps :
    (s s' : SocketIo) (calls : List SocketCall) (out : List NetworkOutput)
    → All (λ call. is_start call ≡ false) calls
    → run_socket s calls ≡ some (s', out)
    → Keeps s s'
unfolding run_socket
run_socket-Keeps s s' [] out later h =
    subst (Keeps s) (ap (λ r. r.0) (some-injective _ _ h)) (λ x. omega arith)
run_socket-Keeps s s' (call ∷ calls) out (now, later) h =
    let ((s1, first), here, rest) = >>=-eq-some (perform_socket s call) _ h in
    let ((s2, more), after, last) = >>=-eq-some (run_socket s1 calls) _ rest in
    let k1 : Keeps s s1 = subst (KeepsIfDefined s) here (perform_socket-Keeps s call now) in
    let k2 : Keeps s1 s2 = run_socket-Keeps s1 s2 calls more later after in
    subst (Keeps s) (ap (λ r. r.0) (some-injective _ _ last)) (λ x. omega (arith, k1 x, k2 x))

-- A receive context that `PostReceive` has put back, because the system refused the request, stays
-- idle: whatever is called except `Start`, it is free and the system does not get it again. So every
-- refusal takes one of the receives away for as long as the socket runs. (Every context is in
-- exactly one place.)
pub run_socket_idle :
    (s s' : SocketIo) (calls : List SocketCall) (out : List NetworkOutput) (context : ℕ)
    → IsPool s
    → All (λ call. is_start call ≡ false) calls
    → run_socket s calls ≡ some (s', out)
    → 0 < count_of context s.free_receive_contexts
    → (0 < count_of context s'.free_receive_contexts)
      × (count_of context s'.posted ≡ 0)
      × (count_of context s'.handling ≡ 0)
run_socket_idle s s' calls out context v later h free =
    let kept = run_socket-Keeps s s' calls out later h context in
    let v' = run_socket-IsPool_from s s' calls out v h in
    let total = v'.placed context in
    let one = v'.once context in (omega arith, omega arith, omega arith)
