-- ===== src/Server.antt =====
-- RiftNet/src/api/RiftServer: the server object. As in `Client`, the network layer's answers are
-- arguments, and what is handed to it and to the event callback is a list of `ServerOutput`.
-- A connection object is shared by the two maps and by the I/O threads that use it: `objects` is
-- the heap of them, and a pointer is the name of an object, for which the id of the client for
-- which it was made serves. (An object stays in the heap when no map points to it any more.)
pub mod Endpoint
pub mod Maps
pub mod Acts
pub mod Calls
pub mod Roster
pub mod Senders
pub mod Sending
pub mod Timeouts
pub mod Meeting
pub mod Messages
pub mod Late
pub mod FirstMessage
use rift_net.Base.{
  ℕ, ◌+◌, ◌%◌, ◌^◌, Bool, true, false, not, ◌&&◌, ◌||◌, ltb, ◌==◌, if◌then◌else◌, ◌>>=◌, Option,
  none, some, List, [], ◌∷◌, ◌++◌, map, is_empty, bytes_eq,
}
use rift_net.Base.Counts.{count_of, remove}
use rift_net.Base.Dict.{Dict, number_key, lookup, insert, erase}
use rift_net.Connection.{
  Platform, Connection, NetworkEndpoint, Output, transmit, deliver, new_connection,
  set_send_callback, set_app_data_callback, send_application_data, process_incoming_raw_packet,
  update, is_timed_out,
}
use rift_net.Server.Endpoint.{endpoint_key}
use rift_net.Client.{RiftResult}

-- A call of the user's event callback, or of `SendData`.
pub data ServerOutput : Type 0 where
  client_connected client_disconnected : ℕ → ServerOutput
  packet_received : ℕ → List ℕ → ServerOutput
  send_data : NetworkEndpoint → List ℕ → ServerOutput

-- What the callbacks do that were set for client `id`.
abbrev pub of_output : ℕ → Output → ServerOutput
of_output id (transmit endpoint bytes) = ServerOutput.send_data endpoint bytes
of_output id (deliver payload) = ServerOutput.packet_received id payload

-- `leaving` stands for the threads between the two halves of `DisconnectClient`: the ids whose
-- clients were taken out of the maps, and whose event is still to be raised.
pub record Server (platform : Platform) : Type 0 where
  pub objects : Dict ℕ (Connection platform)
  pub clients_by_id : Dict ℕ ℕ
  pub clients_by_endpoint : Dict NetworkEndpoint ℕ
  pub next_client_id : ℕ
  pub is_running : Bool
  pub has_update_thread : Bool
  pub leaving : List ℕ

-- What the constructor of a connection meets outside: the key pair, the compressor, the time.
pub record Fresh (platform : Platform) : Type 0 where
  pub generated : Option platform.crypto.KeyPair
  pub compressor_ready : Bool
  pub now : ℕ

module _ (platform : Platform) where
  abbrev pub State : Type 0
  State = Server platform

  unfoldable pub new_server : State
  new_server = record {
    objects = [];
    clients_by_id = [];
    clients_by_endpoint = [];
    next_client_id = 1;
    is_running = false;
    has_update_thread = false;
    leaving = [];
  }

  unfoldable pub start : State → Bool → Bool → State × RiftResult
  start s init_succeeds start_succeeds =
      if s.is_running || s.has_update_thread
      then (s, RiftResult.error_generic)
      else (if not init_succeeds
          then (s, RiftResult.error_socket_bind_failed)
          else (if not start_succeeds
              then (s, RiftResult.error_generic)
              else (record s { is_running = true; has_update_thread = true }, RiftResult.success)))

  -- `self_call`: the call comes from the update thread, which then cannot join itself.
  unfoldable pub stop : State → Bool → State
  stop s self_call = record s {
    is_running = false;
    has_update_thread = s.has_update_thread && self_call;
    clients_by_endpoint = [];
    clients_by_id = [];
  }

  -- The connection that is made for a new endpoint, with its callbacks.
  abbrev pub fresh_connection : NetworkEndpoint → Fresh platform → Connection platform
  fresh_connection endpoint w = set_app_data_callback platform (
      set_send_callback platform
        (new_connection platform endpoint true w.generated w.compressor_ready w.now))

  unfoldable pub create_connection :
      State → NetworkEndpoint → Fresh platform → State × ℕ × List ServerOutput
  create_connection s endpoint w =
      let id = s.next_client_id in
      (
        record s {
          next_client_id = (id + 1) % 2 ^ 64;
          objects = insert id (fresh_connection endpoint w) s.objects;
          clients_by_id = insert id id s.clients_by_id;
          clients_by_endpoint = insert endpoint id s.clients_by_endpoint;
        },
        id,
        ServerOutput.client_connected id ∷ [],
      )

  -- The pointer that is returned stands between the state and the events.
  unfoldable pub find_or_create_connection :
      State → NetworkEndpoint → Fresh platform → State × ℕ × List ServerOutput
  unfolding create_connection
  find_or_create_connection s endpoint w = elim (lookup endpoint s.clients_by_endpoint) [
    | some pointer ↦ (s, pointer, [])
    | none ↦ create_connection s endpoint w
  ]

  -- `connection->ProcessIncomingRawPacket(data, size)`; `none` is undefined behaviour.
  unfoldable pub process_on : State → ℕ → List ℕ → ℕ → Option (State × List ServerOutput)
  process_on s pointer bytes now = elim (lookup pointer s.objects) [
    | none ↦ some (s, [])
    | some connection ↦
        process_incoming_raw_packet platform connection bytes now >>= λ (connection', out).
        some
          (record s { objects = insert pointer connection' s.objects }, map (of_output pointer) out)
  ]

  unfoldable pub append_output :
      List ServerOutput → State × List ServerOutput → State × List ServerOutput
  append_output out (s, more) = (s, out ++ more)

  unfoldable pub on_raw_data_received :
      State → NetworkEndpoint → List ℕ → Fresh platform → Option (State × List ServerOutput)
  unfolding append_output
  on_raw_data_received s sender bytes w =
      let (found, pointer, events) = find_or_create_connection s sender w in
      if not s.is_running
      then some (s, [])
      else process_on found pointer bytes w.now >>= λ r. some (append_output events r)

  -- `pair.second->SendApplicationData(...)`
  unfoldable pub send_to : State → ℕ → List ℕ → Bool → ℕ → State × List ServerOutput
  send_to s pointer bytes reliable now = elim (lookup pointer s.objects) [
    | none ↦ (s, [])
    | some connection ↦
        let (connection', out) = send_application_data platform connection bytes reliable now in
        (record s { objects = insert pointer connection' s.objects }, map (of_output pointer) out)
  ]

  unfoldable pub send_found :
      State → Option ℕ → List ℕ → Bool → ℕ → State × RiftResult × List ServerOutput
  send_found s none bytes reliable now = (s, RiftResult.error_invalid_parameter, [])
  send_found s (some pointer) bytes reliable now =
      let (s', out) = send_to s pointer bytes reliable now in (s', RiftResult.success, out)

  -- A null pointer is `none`.
  unfoldable pub send :
      State → ℕ → Option (List ℕ) → Bool → ℕ → State × RiftResult × List ServerOutput
  unfolding send_found
  send s id none reliable now = (s, RiftResult.error_invalid_parameter, [])
  send s id (some bytes) reliable now =
      if is_empty bytes
      then (s, RiftResult.error_invalid_parameter, [])
      else send_found s (lookup id s.clients_by_id) bytes reliable now

  unfoldable pub send_to_all : State → Dict ℕ ℕ → List ℕ → Bool → ℕ → State × List ServerOutput
  send_to_all s [] bytes reliable now = (s, [])
  send_to_all s ((id, pointer) ∷ clients) bytes reliable now =
      let (s1, out) = send_to s pointer bytes reliable now in
      let (s2, more) = send_to_all s1 clients bytes reliable now in (s2, out ++ more)

  unfoldable pub broadcast : State → Option (List ℕ) → Bool → ℕ → State × List ServerOutput
  broadcast s none reliable now = (s, [])
  broadcast s (some bytes) reliable now =
      if is_empty bytes then (s, []) else send_to_all s s.clients_by_id bytes reliable now

  -- The idle timeout, in seconds.
  abbrev pub idle_timeout : ℕ
  idle_timeout = 30

  -- One pass of the locked loop of `Update`; the Boolean is `IsTimedOut`.
  unfoldable pub update_on : State → ℕ → ℕ → State × Bool × List ServerOutput
  update_on s pointer now = elim (lookup pointer s.objects) [
    | none ↦ (s, false, [])
    | some connection ↦
        let (connection', out) = update platform connection now in
        (
          record s { objects = insert pointer connection' s.objects },
          is_timed_out platform connection' now idle_timeout,
          map (of_output pointer) out,
        )
  ]

  -- The locked loop; the middle part is `toDisconnect`.
  unfoldable pub update_all : State → Dict ℕ ℕ → ℕ → State × List ℕ × List ServerOutput
  update_all s [] now = (s, [], [])
  update_all s ((id, pointer) ∷ clients) now =
      let (s1, timed_out, out) = update_on s pointer now in
      let (s2, ids, more) = update_all s1 clients now in
      (s2, if timed_out then id ∷ ids else ids, out ++ more)

  -- The locked half of `DisconnectClient`; the Boolean is whether it found the connection.
  unfoldable pub disconnect_found : State → ℕ → Option ℕ → State × Bool
  disconnect_found s id none = (s, false)
  disconnect_found s id (some pointer) = elim (lookup pointer s.objects) [
    | none ↦ (s, false)
    | some connection ↦ (
      record s {
        clients_by_endpoint = erase connection.endpoint s.clients_by_endpoint;
        clients_by_id = erase id s.clients_by_id;
        leaving = id ∷ s.leaving;
      },
      true,
    )
  ]

  unfoldable pub remove_client : State → ℕ → State × Bool
  unfolding disconnect_found
  remove_client s id = disconnect_found s id (lookup id s.clients_by_id)

  -- The other half, after the mutex is released, of a thread that took client `id` out.
  unfoldable pub raise_disconnected : State → ℕ → State × List ServerOutput
  raise_disconnected s id =
      if ltb 0 (count_of id s.leaving)
      then (record s { leaving = remove id s.leaving }, ServerOutput.client_disconnected id ∷ [])
      else (s, [])

  -- Both, when nothing comes between them.
  unfoldable pub disconnect_client : State → ℕ → State × List ServerOutput
  disconnect_client s id =
      let (removed, found) = remove_client s id in
      if found then raise_disconnected removed id else (removed, [])

  unfoldable pub disconnect_all : State → List ℕ → State × List ServerOutput
  disconnect_all s [] = (s, [])
  disconnect_all s (id ∷ ids) =
      let (s1, out) = disconnect_client s id in
      let (s2, more) = disconnect_all s1 ids in (s2, out ++ more)

  -- One round of `Update`, 100 milliseconds after the last.
  unfoldable pub update_server : State → ℕ → State × List ServerOutput
  update_server s now =
      let (updated, ids, out) = update_all s s.clients_by_id now in
      let (s', more) = disconnect_all updated ids in
      if not s.is_running then (s, []) else (s', out ++ more)
