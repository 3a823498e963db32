-- ===== src/Server/Messages/Steps.antt =====
-- How a call of the client or the server, and a datagram that arrives, reach a connection.
use rift_net.Base.{
  ℕ, ◌≡◌, ◌≢◌, refl, ap, ◌∙◌, Bool, true, false, ◌>>=◌, some, List, [], ◌∷◌, map, is_empty,
}
use rift_net.Base.Dict.{number_key, lookup}
use rift_net.Client.{Client, ClientOutput, RiftResult, send_on, receive_on}
use rift_net.Client
use rift_net.Connection.{
  Platform, Connection, NetworkEndpoint, Output, send_application_data, process_incoming_raw_packet,
}
use rift_net.Server.{
  Server, ServerOutput, Fresh, find_or_create_connection, create_connection, process_on, send,
  send_found, send_to, on_raw_data_received, append_output,
}
use rift_net.Server
use rift_net.Server.Endpoint.{endpoint_key}
use rift_net.Server.Maps.{Registered, put}

pub running_receives :
    (platform : Platform) (s : Server platform) (sender : NetworkEndpoint) (bytes : List ℕ)
    (w : Fresh platform)
    → s.is_running ≡ true
    → let (found, pointer, events) = find_or_create_connection platform s sender w in
      on_raw_data_received platform s sender bytes w ≡ (
        process_on platform found pointer bytes w.now >>= λ r.
        some (append_output platform events r))
unfolding on_raw_data_received append_output
running_receives platform s sender bytes w running = simp running refl

pub client_receives :
    (platform : Platform) (c : Client platform) (connection : Connection platform) (bytes : List ℕ)
    (now : ℕ) (r : Connection platform × List Output)
    → c.is_running ≡ true
    → c.server_connection ≡ some connection
    → process_incoming_raw_packet platform connection bytes now ≡ some r
    → Client.on_raw_data_received platform c bytes now
      ≡ some (record c { server_connection = some r.0 }, map Client.of_output r.1)
unfolding Client.on_raw_data_received receive_on
client_receives platform c connection bytes now r running held read =
    simp (running, held, read) refl

empty_full : (bytes : List ℕ) → bytes ≢ [] → is_empty bytes ≡ false
empty_full [] h = absurd (h refl)
empty_full (x ∷ bytes) h = refl

module _ (platform : Platform) where
  pub client_sends :
      (c : Client platform) (a : Connection platform) (bytes : List ℕ) (reliable : Bool) (now : ℕ)
      (r : Connection platform × List Output)
      → c.is_running ≡ true
      → c.server_connection ≡ some a
      → bytes ≢ []
      → send_application_data platform a bytes reliable now ≡ r
      → Client.send platform c (some bytes) reliable now
        ≡ (record c { server_connection = some r.0 }, RiftResult.success, map Client.of_output r.1)
  unfolding Client.send send_on
  client_sends c a bytes reliable now r running held full sent =
      simp (empty_full bytes full, running, held, sent) refl

  send_to_held :
      (s : Server platform) (id : ℕ) (a : Connection platform) (bytes : List ℕ) (reliable : Bool)
      (now : ℕ) (r : Connection platform × List Output)
      → lookup id s.objects ≡ some a
      → send_application_data platform a bytes reliable now ≡ r
      → send_to platform s id bytes reliable now ≡ (put s id r.0, map (Server.of_output id) r.1)
  unfolding send_to
  send_to_held s id a bytes reliable now r held sent =
      rw (held, send_to)
        (ap
          (λ (r : Connection platform × List Output).
            let after : Server platform × List ServerOutput =
              (put s id r.0, map (Server.of_output id) r.1) in
            after)
          sent)

  pub server_sends :
      (s : Server platform) (id : ℕ) (a : Connection platform) (bytes : List ℕ) (reliable : Bool)
      (now : ℕ) (r : Connection platform × List Output)
      → Registered s id a
      → bytes ≢ []
      → send_application_data platform a bytes reliable now ≡ r
      → send platform s id (some bytes) reliable now
        ≡ (put s id r.0, RiftResult.success, map (Server.of_output id) r.1)
  unfolding send send_found
  server_sends s id a bytes reliable now r entry full sent =
      simp (empty_full bytes full, entry.by_id)
        (ap
          (λ (after : Server platform × List ServerOutput).
            let result : Server platform × RiftResult × List ServerOutput =
              (after.0, RiftResult.success, after.1) in
            result)
          (send_to_held s id a bytes reliable now r entry.object sent))

  pub process_on_held :
      (s : Server platform) (id : ℕ) (b : Connection platform) (bytes : List ℕ) (now : ℕ)
      (r : Connection platform × List Output)
      → lookup id s.objects ≡ some b
      → process_incoming_raw_packet platform b bytes now ≡ some r
      → process_on platform s id bytes now ≡ some (put s id r.0, map (Server.of_output id) r.1)
  unfolding process_on
  process_on_held s id b bytes now r held read = rw (held, process_on) (simp read refl)

  client_found :
      (s : Server platform) (id : ℕ) (b : Connection platform) (w : Fresh platform)
      → Registered s id b
      → find_or_create_connection platform s b.endpoint w ≡ (s, id, [])
  unfolding find_or_create_connection
  client_found s id b w entry = rw (entry.by_endpoint, find_or_create_connection) refl

  pub server_receives :
      (s : Server platform) (id : ℕ) (b : Connection platform) (bytes : List ℕ) (w : Fresh platform)
      (r : Connection platform × List Output)
      → s.is_running ≡ true
      → Registered s id b
      → process_incoming_raw_packet platform b bytes w.now ≡ some r
      → on_raw_data_received platform s b.endpoint bytes w
        ≡ some (put s id r.0, map (Server.of_output id) r.1)
  unfolding append_output
  server_receives s id b bytes w r running entry read =
      running_receives platform s b.endpoint bytes w running
      ∙ ap
          (λ (f : Server platform × ℕ × List ServerOutput).
            process_on platform f.0 f.1 bytes w.now >>= λ r. some (append_output platform f.2 r))
          (client_found s id b w entry)
      ∙ ap (λ p. p >>= λ r. some (append_output platform [] r))
          (process_on_held s id b bytes w.now r entry.object read)
