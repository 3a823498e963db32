-- ===== src/Server/Calls.antt =====
-- Any sequence of calls of a server, from any threads: what is done under the mutex is one call, and
-- what follows outside it another.
use rift_net.Base.{ℕ, Bool, Option, none, some, List, [], ◌∷◌, ◌++◌, All, ◌>>=◌, ◌≡◌}
use mathlib.Core.Path.{subst}
use rift_net.Connection.{Platform, NetworkEndpoint}
use rift_net.Server.{
  Server, ServerOutput, Fresh, start, stop, find_or_create_connection, process_on, send, broadcast,
  update_all, remove_client, raise_disconnected,
}
use rift_net.Server.Acts.{Acts, Acts-append, done}
use rift_net.Server.Acts.Operations.{
  ActsIfDefined, start-Acts, stop-Acts, find-Acts, process_on-Acts, send-Acts, broadcast-Acts,
  update_all-Acts, remove_client-Acts, raise_disconnected-Acts,
}

-- `find` and `handle` are the two halves of `OnRawDataReceived`, `update_clients` is the locked
-- loop of `Update`; `disconnect` is the locked half of `DisconnectClient`, and `report` the other.
pub data ServerCall (platform : Platform) : Type 0 where
  start_up : Bool → Bool → ServerCall platform
  shut_down : Bool → ServerCall platform
  find : NetworkEndpoint → Fresh platform → ServerCall platform
  handle : ℕ → List ℕ → ℕ → ServerCall platform
  send_bytes : ℕ → Option (List ℕ) → Bool → ℕ → ServerCall platform
  broadcast_bytes : Option (List ℕ) → Bool → ℕ → ServerCall platform
  update_clients : ℕ → ServerCall platform
  disconnect : ℕ → ServerCall platform
  report : ℕ → ServerCall platform

module _ (platform : Platform) where
  abbrev State : Type 0
  State = Server platform

  unfoldable pub perform_call : State → ServerCall platform → Option (State × List ServerOutput)
  perform_call s (start_up init_succeeds start_succeeds) =
      some ((start platform s init_succeeds start_succeeds).0, [])
  perform_call s (shut_down self_call) = some (stop platform s self_call, [])
  perform_call s (find endpoint w) =
      let (s', _, events) = find_or_create_connection platform s endpoint w in some (s', events)
  perform_call s (handle pointer bytes now) = process_on platform s pointer bytes now
  perform_call s (send_bytes id bytes reliable now) =
      let (s', _, out) = send platform s id bytes reliable now in some (s', out)
  perform_call s (broadcast_bytes bytes reliable now) =
      some (broadcast platform s bytes reliable now)
  perform_call s (update_clients now) =
      let (s', _, out) = update_all platform s s.clients_by_id now in some (s', out)
  perform_call s (disconnect id) = some ((remove_client platform s id).0, [])
  perform_call s (report id) = some (raise_disconnected platform s id)

  abbrev prepend :
      List ServerOutput → Option (State × List ServerOutput) → Option (State × List ServerOutput)
  prepend out none = none
  prepend out (some (s, more)) = some (s, out ++ more)

  unfoldable pub run_calls : State → List (ServerCall platform) → Option (State × List ServerOutput)
  run_calls s [] = some (s, [])
  run_calls s (call ∷ calls) = perform_call s call >>= λ (s1, out). prepend out (run_calls s1 calls)

  -- The endpoint of every `find` is `heard` of.
  abbrev pub Heard : (NetworkEndpoint → Type 0) → ServerCall platform → Type 0
  Heard heard (start_up init_succeeds start_succeeds) = Unit
  Heard heard (shut_down self_call) = Unit
  Heard heard (find endpoint w) = heard endpoint
  Heard heard (handle pointer bytes now) = Unit
  Heard heard (send_bytes id bytes reliable now) = Unit
  Heard heard (broadcast_bytes bytes reliable now) = Unit
  Heard heard (update_clients now) = Unit
  Heard heard (disconnect id) = Unit
  Heard heard (report id) = Unit

module _ (platform : Platform) (heard : NetworkEndpoint → Type 0) where
  perform_call-Acts :
      (s : Server platform) (call : ServerCall platform)
      → Heard platform heard call
      → ActsIfDefined platform heard s (perform_call platform s call)
  unfolding perform_call
  perform_call-Acts s (start_up init_succeeds start_succeeds) from =
      start-Acts platform heard s init_succeeds start_succeeds
  perform_call-Acts s (shut_down self_call) from = stop-Acts platform heard s self_call
  perform_call-Acts s (find endpoint w) from = find-Acts platform heard s endpoint w from
  perform_call-Acts s (handle pointer bytes now) from =
      process_on-Acts platform heard s pointer bytes now
  perform_call-Acts s (send_bytes id bytes reliable now) from =
      send-Acts platform heard s id bytes reliable now
  perform_call-Acts s (broadcast_bytes bytes reliable now) from =
      broadcast-Acts platform heard s bytes reliable now
  perform_call-Acts s (update_clients now) from =
      update_all-Acts platform heard s s.clients_by_id now
  perform_call-Acts s (disconnect id) from = remove_client-Acts platform heard s id
  perform_call-Acts s (report id) from = raise_disconnected-Acts platform heard s id

  prepend-Acts :
      (s s1 : Server platform) (out : List ServerOutput)
      (r : Option (Server platform × List ServerOutput))
      → Acts platform heard s out s1
      → ActsIfDefined platform heard s1 r
      → ActsIfDefined platform heard s (prepend platform out r)
  prepend-Acts s s1 out none first rest = tt
  prepend-Acts s s1 out (some (s2, more)) first rest = Acts-append first rest

  run_step-Acts :
      (s : Server platform) (calls : List (ServerCall platform))
      (r : Option (Server platform × List ServerOutput))
      → ActsIfDefined platform heard s r
      → ((s1 : Server platform) → ActsIfDefined platform heard s1 (run_calls platform s1 calls))
      → ActsIfDefined platform heard s
          (r >>= λ (s1, out). prepend platform out (run_calls platform s1 calls))
  run_step-Acts s calls none first rest = tt
  run_step-Acts s calls (some (s1, out)) first rest =
      prepend-Acts s s1 out (run_calls platform s1 calls) first (rest s1)

  run_calls-ActsIfDefined :
      (calls : List (ServerCall platform)) (s : Server platform)
      → All (Heard platform heard) calls
      → ActsIfDefined platform heard s (run_calls platform s calls)
  unfolding run_calls
  run_calls-ActsIfDefined [] s from = done
  run_calls-ActsIfDefined (call ∷ calls) s from =
      run_step-Acts s calls (perform_call platform s call) (perform_call-Acts s call from.0)
        (λ s1. run_calls-ActsIfDefined calls s1 from.1)

  pub run_calls-Acts :
      (s s' : Server platform) (calls : List (ServerCall platform)) (out : List ServerOutput)
      → All (Heard platform heard) calls
      → run_calls platform s calls ≡ some (s', out)
      → Acts platform heard s out s'
  run_calls-Acts s s' calls out from h =
      subst (ActsIfDefined platform heard s) h (run_calls-ActsIfDefined calls s from)

pub Heard-anywhere :
    (platform : Platform) (calls : List (ServerCall platform))
    → All (Heard platform (λ endpoint. Unit)) calls
Heard-anywhere platform [] = tt
Heard-anywhere platform (call ∷ calls) = (Heard-any call, Heard-anywhere platform calls)
  where
    Heard-any : (call : ServerCall platform) → Heard platform (λ endpoint. Unit) call
    Heard-any (start_up init_succeeds start_succeeds) = tt
    Heard-any (shut_down self_call) = tt
    Heard-any (find endpoint w) = tt
    Heard-any (handle pointer bytes now) = tt
    Heard-any (send_bytes id bytes reliable now) = tt
    Heard-any (broadcast_bytes bytes reliable now) = tt
    Heard-any (update_clients now) = tt
    Heard-any (disconnect id) = tt
    Heard-any (report id) = tt
