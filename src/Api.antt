-- ===== src/Api.antt =====
-- The C functions at the end of RiftNet/src/api/RiftServer.cpp and RiftClient.cpp. A handle is an
-- object or null.
use rift_net.Base.{
  ℕ, ◌≡◌, refl, Bool, true, false, not, ◌&&◌, if◌then◌else◌, Option, none, some, List, [],
}
use rift_net.Client.{
  Client, ClientOutput, RiftResult, success, error_invalid_handle, Surroundings, new_client,
  connect, disconnect,
}
use rift_net.Client
use rift_net.Connection.{Platform}
use rift_net.Server.{Server, ServerOutput, new_server, start, stop, broadcast}
use rift_net.Server

module _ (platform : Platform) where
  -- Of either object: a configuration with a callback is asked for, and memory.
  unfoldable pub rift_server_create : Bool → Bool → Bool → Option (Server platform)
  rift_server_create has_config has_callback allocates =
      if not (has_config && has_callback)
      then none
      else (if allocates then some (new_server platform) else none)

  unfoldable pub rift_client_create : Bool → Bool → Bool → Option (Client platform)
  rift_client_create has_config has_callback allocates =
      if not (has_config && has_callback)
      then none
      else (if allocates then some (new_client platform) else none)

  -- The destructor stops the object; a thread that it did not join is joined when the object goes,
  -- and if that is the calling thread the program is terminated (`false`).
  unfoldable pub rift_server_destroy : Option (Server platform) → Bool → Bool
  rift_server_destroy none self_call = true
  rift_server_destroy (some s) self_call = not (stop platform s self_call).has_update_thread

  unfoldable pub rift_client_destroy : Option (Client platform) → Bool → Bool × List ClientOutput
  rift_client_destroy none self_call = (true, [])
  rift_client_destroy (some c) self_call =
      let (c', out) = disconnect platform c self_call in (not c'.has_update_thread, out)

  unfoldable pub rift_server_start :
      Option (Server platform) → Bool → Bool → Option (Server platform) × RiftResult
  rift_server_start none init_succeeds start_succeeds = (none, error_invalid_handle)
  rift_server_start (some s) init_succeeds start_succeeds =
      let (s', result) = start platform s init_succeeds start_succeeds in (some s', result)

  unfoldable pub rift_server_stop : Option (Server platform) → Bool → Option (Server platform)
  rift_server_stop none self_call = none
  rift_server_stop (some s) self_call = some (stop platform s self_call)

  abbrev pub ServerResult : Type 0
  ServerResult = Option (Server platform) × RiftResult × List ServerOutput

  -- The Boolean is whether the variant is the reliable one.
  unfoldable pub server_send :
      Bool → Option (Server platform) → ℕ → Option (List ℕ) → ℕ → ServerResult
  server_send reliable none id bytes now = (none, error_invalid_handle, [])
  server_send reliable (some s) id bytes now =
      let (s', result, out) = Server.send platform s id bytes reliable now in (some s', result, out)

  unfoldable pub server_broadcast :
      Bool → Option (Server platform) → Option (List ℕ) → ℕ → ServerResult
  server_broadcast reliable none bytes now = (none, error_invalid_handle, [])
  server_broadcast reliable (some s) bytes now =
      let (s', out) = broadcast platform s bytes reliable now in (some s', success, out)

  abbrev pub rift_server_send : Option (Server platform) → ℕ → Option (List ℕ) → ℕ → ServerResult
  rift_server_send = server_send true

  abbrev pub rift_server_send_reliable :
      Option (Server platform) → ℕ → Option (List ℕ) → ℕ → ServerResult
  rift_server_send_reliable = server_send true

  abbrev pub rift_server_send_unreliable :
      Option (Server platform) → ℕ → Option (List ℕ) → ℕ → ServerResult
  rift_server_send_unreliable = server_send false

  abbrev pub rift_server_broadcast : Option (Server platform) → Option (List ℕ) → ℕ → ServerResult
  rift_server_broadcast = server_broadcast true

  abbrev pub rift_server_broadcast_reliable :
      Option (Server platform) → Option (List ℕ) → ℕ → ServerResult
  rift_server_broadcast_reliable = server_broadcast true

  abbrev pub rift_server_broadcast_unreliable :
      Option (Server platform) → Option (List ℕ) → ℕ → ServerResult
  rift_server_broadcast_unreliable = server_broadcast false

  abbrev pub ClientResult : Type 0
  ClientResult = Option (Client platform) × RiftResult × List ClientOutput

  unfoldable pub rift_client_connect :
      Option (Client platform) → Option (List ℕ) → ℕ → Surroundings platform → ℕ → ClientResult
  rift_client_connect none host port w now = (none, error_invalid_handle, [])
  rift_client_connect (some c) host port w now =
      let (c', result, out) = connect platform c host port w now in (some c', result, out)

  unfoldable pub rift_client_disconnect :
      Option (Client platform) → Bool → Option (Client platform) × List ClientOutput
  rift_client_disconnect none self_call = (none, [])
  rift_client_disconnect (some c) self_call =
      let (c', out) = disconnect platform c self_call in (some c', out)

  unfoldable pub client_send : Bool → Option (Client platform) → Option (List ℕ) → ℕ → ClientResult
  client_send reliable none bytes now = (none, error_invalid_handle, [])
  client_send reliable (some c) bytes now =
      let (c', result, out) = Client.send platform c bytes reliable now in (some c', result, out)

  abbrev pub rift_client_send : Option (Client platform) → Option (List ℕ) → ℕ → ClientResult
  rift_client_send = client_send true

  abbrev pub rift_client_send_reliable :
      Option (Client platform) → Option (List ℕ) → ℕ → ClientResult
  rift_client_send_reliable = client_send true

  abbrev pub rift_client_send_unreliable :
      Option (Client platform) → Option (List ℕ) → ℕ → ClientResult
  rift_client_send_unreliable = client_send false

  -- Destroying an object ends the program exactly if its update thread does it, as an event handler
  -- does that this thread called.
  pub destroy_terminates :
      (s : Server platform) (c : Client platform) (self_call : Bool)
      → (rift_server_destroy (some s) self_call ≡ not (s.has_update_thread && self_call))
        × ((rift_client_destroy (some c) self_call).0 ≡ not (c.has_update_thread && self_call))
  unfolding rift_server_destroy rift_client_destroy stop disconnect
  destroy_terminates s c self_call = (refl, refl)
