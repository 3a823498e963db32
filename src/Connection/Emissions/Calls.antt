-- ===== src/Connection/Emissions/Calls.antt =====
-- Any sequence of calls of a connection.
use rift_net.Base.{ℕ, Bool, Option, none, some, List, [], ◌∷◌, ◌++◌, ◌>>=◌}
use rift_net.Connection.{
  set_send_callback, set_app_data_callback, Platform, Output, begin_handshake,
  send_application_data, initialize_session, process_incoming_raw_packet, update,
}
use rift_net.Connection.Emissions.Operations.{State}

-- A call from outside. `initialise` is a call of `InitializeSession` with a key that came otherwise
-- than in a HELLO.
pub data Call : Type 0 where
  set_callbacks : Call
  begin : Call
  send : List ℕ → Bool → Call
  initialise : List ℕ → Call
  receive : List ℕ → Call
  tick : Call

module _ (platform : Platform) where
  -- One call at a time `now`; `none` is undefined behaviour.
  unfoldable pub perform : State platform → Call → ℕ → Option (State platform × List Output)
  perform c set_callbacks now =
      some (set_app_data_callback platform (set_send_callback platform c), [])
  perform c begin now = some (begin_handshake platform c)
  perform c (send bytes reliable) now = some (send_application_data platform c bytes reliable now)
  perform c (initialise remote) now =
      let (c', _, out) = initialize_session platform c remote now in some (c', out)
  perform c (receive bytes) now = process_incoming_raw_packet platform c bytes now
  perform c tick now = some (update platform c now)

  abbrev prepend :
      List Output → Option (State platform × List Output) → Option (State platform × List Output)
  prepend out none = none
  prepend out (some (c, more)) = some (c, out ++ more)

  -- A sequence of calls, each with its time.
  unfoldable pub run : State platform → List (Call × ℕ) → Option (State platform × List Output)
  run c [] = some (c, [])
  run c ((call, now) ∷ calls) = perform c call now >>= λ (c1, out). prepend out (run c1 calls)
