-- ===== src/Client.antt =====
-- RiftNet/src/api/RiftClient: the client object. The network layer is a parameter: whether its calls
-- succeed is an argument, and what is handed to it is a value of `ClientOutput`, in order.
pub mod Running
pub mod Connecting
use rift_net.Base.{
  ℕ, ◌+◌, Bool, true, false, not, ◌&&◌, ◌||◌, leb, if◌then◌else◌, ◌>>=◌, Option, none, some, List,
  [], ◌∷◌, ◌++◌, map, is_empty,
}
use rift_net.Connection.{
  Platform, Connection, NetworkEndpoint, Output, transmit, deliver, new_connection,
  set_send_callback, set_app_data_callback, send_application_data, process_incoming_raw_packet,
  update, is_timed_out,
}

pub data RiftResult : Type 0 where
  success error_generic error_invalid_handle error_invalid_parameter : RiftResult
  error_socket_creation_failed error_socket_bind_failed error_connection_failed : RiftResult
  error_send_failed : RiftResult

-- A call of the user's event callback, or of `SendData`.
pub data ClientOutput : Type 0 where
  client_connected client_disconnected : ClientOutput
  packet_received : List ℕ → ClientOutput
  send_data : NetworkEndpoint → List ℕ → ClientOutput

-- What the callbacks that `Connect` sets do.
abbrev pub of_output : Output → ClientOutput
of_output (transmit endpoint bytes) = ClientOutput.send_data endpoint bytes
of_output (deliver payload) = ClientOutput.packet_received payload

pub record Client (platform : Platform) : Type 0 where
  pub server_connection : Option (Connection platform)
  pub is_running : Bool
  pub has_update_thread : Bool
  pub last_keepalive : ℕ

-- What `Connect` meets outside: the network layer's answers, and what a new connection is made of.
pub record Surroundings (platform : Platform) : Type 0 where
  pub init_succeeds : Bool
  pub start_succeeds : Bool
  pub generated : Option platform.crypto.KeyPair
  pub compressor_ready : Bool

-- 'R', 'F', 'N', 'T', 1.
abbrev pub primer : List ℕ
primer = 82 ∷ 70 ∷ 78 ∷ 84 ∷ 1 ∷ []

module _ (platform : Platform) where
  abbrev pub State : Type 0
  State = Client platform

  unfoldable pub new_client : State
  new_client = record {
    server_connection = none;
    is_running = false;
    has_update_thread = false;
    last_keepalive = 0;
  }

  abbrev pub with_callbacks : Connection platform → Connection platform
  with_callbacks c = set_app_data_callback platform (set_send_callback platform c)

  -- The update thread takes the time of its start as that of its last keepalive.
  unfoldable pub connect :
      State
      → Option (List ℕ)
      → ℕ
      → Surroundings platform
      → ℕ
      → State × RiftResult × List ClientOutput
  connect c none port w now = (c, RiftResult.error_invalid_parameter, [])
  connect c (some host) port w now =
      let endpoint : NetworkEndpoint = record { ip_address = host; port = port } in
      let fresh =
        with_callbacks
          (new_connection platform endpoint false w.generated w.compressor_ready now) in
      let (primed, out) = send_application_data platform fresh primer true now in
      if c.is_running || c.has_update_thread
      then (c, RiftResult.error_generic, [])
      else (if not w.init_succeeds
          then (c, RiftResult.error_socket_bind_failed, [])
          else (if not w.start_succeeds
              then (record c { server_connection = none }, RiftResult.error_generic, [])
              else (
                record {
                  server_connection = some primed;
                  is_running = true;
                  has_update_thread = true;
                  last_keepalive = now;
                },
                RiftResult.success,
                ClientOutput.client_connected ∷ map of_output out,
              )))

  -- `self_call`: the call comes from the update thread, which then cannot join itself.
  unfoldable pub disconnect : State → Bool → State × List ClientOutput
  disconnect c self_call = (
    record c {
      server_connection = none;
      is_running = false;
      has_update_thread = c.has_update_thread && self_call;
    },
    ClientOutput.client_disconnected ∷ [],
  )

  unfoldable pub send_on :
      State
      → Option (Connection platform)
      → List ℕ
      → Bool
      → ℕ
      → State × RiftResult × List ClientOutput
  send_on c none bytes reliable now = (c, RiftResult.error_connection_failed, [])
  send_on c (some connection) bytes reliable now =
      let (connection', out) = send_application_data platform connection bytes reliable now in
      (record c { server_connection = some connection' }, RiftResult.success, map of_output out)

  unfoldable pub send : State → Option (List ℕ) → Bool → ℕ → State × RiftResult × List ClientOutput
  unfolding send_on
  send c none reliable now = (c, RiftResult.error_invalid_parameter, [])
  send c (some bytes) reliable now =
      if is_empty bytes
      then (c, RiftResult.error_invalid_parameter, [])
      else (if not c.is_running
          then (c, RiftResult.error_connection_failed, [])
          else send_on c c.server_connection bytes reliable now)

  unfoldable pub receive_on :
      State → Option (Connection platform) → List ℕ → ℕ → Option (State × List ClientOutput)
  receive_on c none bytes now = some (c, [])
  receive_on c (some connection) bytes now =
      process_incoming_raw_packet platform connection bytes now >>= λ (connection', out).
      some (record c { server_connection = some connection' }, map of_output out)

  unfoldable pub on_raw_data_received : State → List ℕ → ℕ → Option (State × List ClientOutput)
  unfolding receive_on
  on_raw_data_received c bytes now =
      if not c.is_running then some (c, []) else receive_on c c.server_connection bytes now

  -- The keepalive that is due once a second.
  unfoldable pub keep_alive :
      State → Connection platform → ℕ → Connection platform × List Output × ℕ
  keep_alive c connection now =
      let (noop_sent, out) = send_application_data platform connection (0 ∷ []) true now in
      if leb (c.last_keepalive + 1_000_000_000) now
      then (noop_sent, out, now)
      else (connection, [], c.last_keepalive)

  tick_on : State → Option (Connection platform) → ℕ → State × List ClientOutput
  unfolding keep_alive
  tick_on c none now = (c, [])
  tick_on c (some connection) now =
      let (updated, out) = update platform connection now in
      let (kept, more, last) = keep_alive c updated now in
      let c' = record c { server_connection = some kept; last_keepalive = last } in
      let sent = map of_output (out ++ more) in
      if is_timed_out platform kept now 30
      then (record c' { is_running = false }, sent ++ (ClientOutput.client_disconnected ∷ []))
      else (c', sent)

  -- One round of the loop of `Update`, 100 milliseconds after the last.
  unfoldable pub update_client : State → ℕ → State × List ClientOutput
  unfolding tick_on
  update_client c now = if not c.is_running then (c, []) else tick_on c c.server_connection now

-- A call of the client object.
pub data ClientCall (platform : Platform) : Type 0 where
  connect_to : Option (List ℕ) → ℕ → Surroundings platform → ClientCall platform
  disconnect_from : Bool → ClientCall platform
  send_bytes : Option (List ℕ) → Bool → ClientCall platform
  raw_data : List ℕ → ClientCall platform
  round : ClientCall platform

module _ (platform : Platform) where
  unfoldable pub call_client :
      Client platform → ClientCall platform → ℕ → Option (Client platform × List ClientOutput)
  call_client c (connect_to host port w) now =
      let (c', _, out) = connect platform c host port w now in some (c', out)
  call_client c (disconnect_from self_call) now = some (disconnect platform c self_call)
  call_client c (send_bytes bytes reliable) now =
      let (c', _, out) = send platform c bytes reliable now in some (c', out)
  call_client c (raw_data bytes) now = on_raw_data_received platform c bytes now
  call_client c round now = some (update_client platform c now)

  prepend_client :
      List ClientOutput
      → Option (Client platform × List ClientOutput)
      → Option (Client platform × List ClientOutput)
  prepend_client out none = none
  prepend_client out (some (c, more)) = some (c, out ++ more)

  -- A sequence of calls, each with its time.
  unfoldable pub run_client :
      Client platform
      → List (ClientCall platform × ℕ)
      → Option (Client platform × List ClientOutput)
  unfolding prepend_client
  run_client c [] = some (c, [])
  run_client c ((call, now) ∷ calls) =
      call_client c call now >>= λ (c', out). prepend_client out (run_client c' calls)
