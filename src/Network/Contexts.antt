-- ===== src/Network/Contexts.antt =====
-- Where the I/O contexts are, whatever calls are made and whatever the system answers.
use rift_net.Base.{
  ℕ, zero, suc, ◌+◌, ◌≤◌, ◌<◌, ◌≡◌, inl, inr, refl, Bool, true, false, not, ◌&&◌, ◌==◌,
  if◌then◌else◌, Bool-cases, if-either, Option, none, some, List, [], ◌∷◌, ◌++◌, arith,
}
use rift_net.Base.Counts.{count_of, count_of-append, count_of-remove, remove}
use rift_net.Network.{
  SocketIo, NetworkOutput, InitAnswers, new_socket_io, add_contexts, open_socket, init,
  return_receive_context, post_receive, stop, send_data, begin_receive, finish_receive,
  complete_send, pool_size,
}

-- Every receive context of the pool is in exactly one place: free, with the system, in a handler,
-- or dropped. Every send context that is not deleted is with the system, once. And no context is
-- both.
pub record IsPool (s : SocketIo) : Type 0 where
  pub placed :
      (x : ℕ)
      → count_of x s.free_receive_contexts
          + count_of x s.posted
          + count_of x s.handling
          + count_of x s.dropped
        ≡ count_of x s.receive_context_pool
  pub once : (x : ℕ) → count_of x s.receive_context_pool + count_of x s.sending ≤ 1
  pub below :
      (x : ℕ) → s.next_context ≤ x → count_of x s.receive_context_pool + count_of x s.sending ≡ 0

pub new_socket_io-IsPool : IsPool new_socket_io
unfolding new_socket_io
new_socket_io-IsPool = record { placed = λ x. refl; once = λ x. omega arith; below = λ x h. refl }

add_contexts-IsPool : (n : ℕ) (s : SocketIo) → IsPool s → IsPool (add_contexts n s)
unfolding add_contexts
add_contexts-IsPool zero s v = v
add_contexts-IsPool (suc n) s v =
    let next = s.next_context in
    add_contexts-IsPool n _ (record {
      placed = λ x. ground (
        arith,
        v.placed x,
        count_of-append x s.free_receive_contexts (next ∷ []),
        count_of-append x s.receive_context_pool (next ∷ []),
      );
      once = λ x.
          ground (arith, v.once x, v.below x, count_of-append x s.receive_context_pool (next ∷ []));
      below =
          λ x h. ground (arith, v.below x, count_of-append x s.receive_context_pool (next ∷ []));
    })

-- `Init` fills the pool or leaves it.
open_socket-IsPool : (s : SocketIo) (w : InitAnswers) → IsPool s → IsPool (open_socket s w).0
unfolding open_socket
open_socket-IsPool s w v =
    let P : SocketIo × Bool → Type 0 = λ r. IsPool r.0 in
    let same : (associated : Bool)
        → IsPool (record s {
          has_socket = true;
          port_runs = w.port_starts;
          is_associated = associated;
        }) =
      λ associated. record { placed = v.placed; once = v.once; below = v.below } in
    if-either P (not w.socket_opens) _ _ (λ e. v)
      (λ opens.
        if-either P (not w.socket_binds) _ _ (λ e. v)
          (λ binds.
            if-either P (not w.port_starts) _ _ (λ e. same false)
              (λ starts.
                if-either P (not w.port_takes_socket) _ _ (λ e. same false)
                  (λ takes. add_contexts-IsPool pool_size _ (same true)))))

pub init-IsPool :
    (s : SocketIo) (has_handler : Bool) (w : InitAnswers)
    → IsPool s
    → IsPool (init s has_handler w).0
unfolding init
init-IsPool s has_handler w v =
    let P : SocketIo × Bool → Type 0 = λ r. IsPool r.0 in
    let same : (handler : Bool) → IsPool (record s { has_handler = handler }) =
      λ handler. record { placed = v.placed; once = v.once; below = v.below } in
    if-either P s.has_socket _ _ (λ e. v)
      (λ closed.
        if-either P (not has_handler) _ _ (λ e. same false)
          (λ e. open_socket-IsPool (record s { has_handler = true }) w (same true)))

-- With one context in hand, which is in none of the places.
pub record IsHeld (context : ℕ) (s : SocketIo) : Type 0 where
  pub placed :
      (x : ℕ)
      → (if x == context then 1 else 0)
          + (count_of x s.free_receive_contexts
              + count_of x s.posted
              + count_of x s.handling
              + count_of x s.dropped)
        ≡ count_of x s.receive_context_pool
  pub once : (x : ℕ) → count_of x s.receive_context_pool + count_of x s.sending ≤ 1
  pub below :
      (x : ℕ) → s.next_context ≤ x → count_of x s.receive_context_pool + count_of x s.sending ≡ 0

-- `PostReceive` by a thread that has no mutex puts it in one.
post_receive-IsPool :
    (s : SocketIo) (context : ℕ) (accepted : Bool)
    → IsHeld context s
    → (s' : SocketIo) × (ok : Bool) × (post_receive s false context accepted ≡ some (s', ok))
      × IsPool s'
unfolding post_receive return_receive_context
post_receive-IsPool s context accepted v = elim (Bool-cases (s.is_running && accepted)) [
  | inl e ↦ (
    record s { posted = context ∷ s.posted },
    true,
    simp e refl,
    record { placed = λ x. omega (arith, v.placed x); once = v.once; below = v.below },
  )
  | inr e ↦ (
    record s { free_receive_contexts = s.free_receive_contexts ++ (context ∷ []) },
    false,
    simp e refl,
    record {
      placed =
          λ x. omega (arith, v.placed x, count_of-append x s.free_receive_contexts (context ∷ []));
      once = v.once;
      below = v.below;
    },
  )
]

pub begin_receive-IsPool :
    (s : SocketIo) (context bytes : ℕ)
    → 0 < count_of context s.posted
    → IsPool s
    → IsPool (begin_receive s context bytes).0
unfolding begin_receive
begin_receive-IsPool s context bytes here v =
    if-either (λ (r : SocketIo × Bool × List NetworkOutput). IsPool r.0) (not s.is_running) _ _
      (λ e. record {
        placed = λ x. ground (arith, v.placed x, count_of-remove x context s.posted, here);
        once = v.once;
        below = v.below;
      })
      (λ e. record {
        placed = λ x. ground (arith, v.placed x, count_of-remove x context s.posted, here);
        once = v.once;
        below = v.below;
      })

pub finish_receive-IsPool :
    (s : SocketIo) (context : ℕ) (accepted : Bool)
    → 0 < count_of context s.handling
    → IsPool s
    → (s' : SocketIo) × (finish_receive s context accepted ≡ some s') × IsPool s'
unfolding finish_receive
finish_receive-IsPool s context accepted here v =
    let held : IsHeld context (record s { handling = remove context s.handling }) = record {
      placed = λ x. ground (arith, v.placed x, count_of-remove x context s.handling, here);
      once = v.once;
      below = v.below;
    } in
    let (s', ok, e, after) = post_receive-IsPool _ context accepted held in (s', simp e refl, after)

pub complete_send-IsPool :
    (s : SocketIo) (context bytes : ℕ) → IsPool s → IsPool (complete_send s context bytes).0
unfolding complete_send
complete_send-IsPool s context bytes v =
    let deleted : IsPool (record s { sending = remove context s.sending }) = record {
      placed = v.placed;
      once = λ x. omega (arith, v.once x, count_of-remove x context s.sending);
      below = λ x h. omega (arith, v.below x h, count_of-remove x context s.sending);
    } in
    if-either (λ (r : SocketIo × List NetworkOutput). IsPool r.0) (not s.is_running) _ _
      (λ e. deleted) (λ e. deleted)

pub send_data-IsPool :
    (s : SocketIo) (bytes : Option (List ℕ)) (accepted : Bool)
    → IsPool s
    → IsPool (send_data s bytes accepted).0
unfolding send_data
send_data-IsPool s none accepted v = v
send_data-IsPool s (some bytes) accepted v =
    let P : SocketIo × Bool → Type 0 = λ r. IsPool r.0 in
    if-either P (not s.is_running) _ _ (λ e. v)
      (λ running.
        if-either P accepted _ _
          (λ ok. record {
            placed = v.placed;
            once = λ x. ground (arith, v.once x, v.below x);
            below = λ x h. ground (arith, v.below x);
          })
          (λ refused. record {
            placed = v.placed;
            once = v.once;
            below = λ x h. v.below x (omega arith);
          }))

pub stop-IsPool : (s : SocketIo) → IsPool s → IsPool (stop s)
unfolding stop
stop-IsPool s v =
    if-either IsPool (not s.is_running) _ _ (λ e. v)
      (λ e. record { placed = v.placed; once = v.once; below = v.below })
