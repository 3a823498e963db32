-- ===== src/Server/Late.antt =====
-- What is done outside the mutex can come late.
use rift_net.Base.{arith, ltb, ◌==◌, true, ℕ, ◌+◌, ◌≡◌, refl, some, List, [], ◌∷◌}
use rift_net.Base.Counts.{count_of, remove}
use rift_net.Base.Dict.{number_key}
use rift_net.Connection.{
  Platform, Connection, NetworkEndpoint, deliver, process_incoming_raw_packet,
}
use rift_net.Server.{
  Server, client_disconnected, packet_received, remove_client, raise_disconnected, disconnect_found,
}
use rift_net.Server.Calls.{perform_call, run_calls, disconnect, report, handle}
use rift_net.Server.Maps.{Registered, put}
use rift_net.Server.Maps.Change.{leave}
use rift_net.Server.Messages.Steps.{process_on_held}

-- A client is out of the maps, and no thread is still to report it.
abbrev pub without : {platform : Platform} → Server platform → ℕ → NetworkEndpoint → Server platform
without s id endpoint = record (leave s id endpoint) { leaving = s.leaving }

module _ (platform : Platform) where
  client_removed :
      (s : Server platform) (id : ℕ) (c : Connection platform)
      → Registered s id c
      → remove_client platform s id ≡ (leave s id c.endpoint, true)
  unfolding remove_client disconnect_found
  client_removed s id c entry = simp entry.by_id (rw (entry.object, disconnect_found) refl)

  client_reported :
      (s : Server platform) (id : ℕ) (endpoint : NetworkEndpoint)
      → raise_disconnected platform (leave s id endpoint) id
        ≡ (without s id endpoint, client_disconnected id ∷ [])
  unfolding raise_disconnected remove
  client_reported s id endpoint =
      let self : (id == id) ≡ true = ground arith in
      let here : ltb 0 (1 + count_of id s.leaving) ≡ true = ground arith in simp (self, here) refl

  -- An I/O thread that has found the connection of a packet still delivers it after the client was
  -- disconnected: the application gets a packet of that client after the event that says it is gone.
  -- (The client is registered, and its connection makes `payload` of the packet.)
  pub packet_after_disconnect :
      (s : Server platform) (id : ℕ) (c c' : Connection platform) (bytes payload : List ℕ) (now : ℕ)
      → Registered s id c
      → process_incoming_raw_packet platform c bytes now ≡ some (c', deliver payload ∷ [])
      → run_calls platform s (disconnect id ∷ report id ∷ handle id bytes now ∷ [])
        ≡ some (
          put (without s id c.endpoint) id c',
          client_disconnected id ∷ packet_received id payload ∷ [],
        )
  unfolding run_calls perform_call
  packet_after_disconnect s id c c' bytes payload now entry read =
      simp
        (
          client_removed s id c entry,
          client_reported s id c.endpoint,
          process_on_held platform (without s id c.endpoint) id c bytes now
              (c', deliver payload ∷ []) entry.object read,
        )
        refl
