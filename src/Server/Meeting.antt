-- ===== src/Server/Meeting.antt =====
-- A client connects to a running server that does not know it yet.
use rift_net.Base.{
  ℕ, ◌+◌, ◌%◌, ◌^◌, ◌≡◌, refl, ap, ap₂, ◌∙◌, Bool, true, false, none, some, List, [], ◌∷◌, map,
  length, ◌>>=◌,
}
use rift_net.Base.Dict.{number_key, lookup, insert, lookup-insert_self}
use rift_net.Connection.{
  Platform, Connection, NetworkEndpoint, Output, transmit, new_connection, set_send_callback,
  set_app_data_callback, send_application_data, queue_application_data, flush_pending_sends,
  process_incoming_raw_packet, drop_oldest,
}
use rift_net.Connection.Establish.{begin_handshake_first, public_key_new, handshake_establishes}
use rift_net.Security.Encryptor
use rift_net.Security.Encryptor.{new_encryptor}
use rift_net.Security.Encryptor.Channel.{CryptoLaws, Reads}
use rift_net.Security.Handshake.{build_hello}
use rift_net.Client.{
  Client, ClientOutput, Surroundings, RiftResult, connect, primer, with_callbacks, receive_on,
}
use rift_net.Client
use rift_net.Client.Connecting.{primer_queued}
use rift_net.Server.Endpoint.{endpoint_key}
use rift_net.Server.Messages.Steps.{running_receives, client_receives}
use rift_net.Server.{
  Server, ServerOutput, Fresh, fresh_connection, find_or_create_connection, create_connection,
  process_on, on_raw_data_received, append_output,
}

module _ (platform : Platform) (server_keys client_keys : platform.crypto.KeyPair)
    (server_endpoint client_endpoint : NetworkEndpoint) (ready_server ready_client : Bool) where
  open platform use {crypto}

  -- What the two sides make their connections of.
  abbrev pub client_side : Surroundings platform
  client_side = record {
    init_succeeds = true;
    start_succeeds = true;
    generated = some client_keys;
    compressor_ready = ready_client;
  }

  abbrev pub server_side : ℕ → Fresh platform
  server_side now = record {
    generated = some server_keys;
    compressor_ready = ready_server;
    now = now;
  }

  -- The client's connection with its primer queued, before its handshake.
  abbrev pub primed : ℕ → Connection platform
  primed now =
      record (with_callbacks platform
        (new_connection platform server_endpoint false (some client_keys) ready_client now)) {
          pending_sends = record { bytes = primer; reliable = true } ∷ [];
          pending_bytes = 5;
        }

  primed-sent :
      (now : ℕ)
      → length (crypto.get_public_key client_keys) ≡ 32
      → (send_application_data platform
          (with_callbacks platform
            (new_connection platform server_endpoint false (some client_keys) ready_client now))
          primer
          true
          now).0
        ≡ record (primed now) { handshake_started = true }
  unfolding send_application_data queue_application_data new_connection set_send_callback
      set_app_data_callback new_encryptor drop_oldest
  primed-sent now size =
      simp
        (begin_handshake_first platform
          (with_callbacks platform
            (new_connection platform server_endpoint false (some client_keys) ready_client now))
          (crypto.get_public_key client_keys) refl refl (public_key_new platform client_keys false)
          size)
        refl

  abbrev pub client_key : List ℕ
  client_key = crypto.get_public_key client_keys

  abbrev pub server_key : List ℕ
  server_key = crypto.get_public_key server_keys

  -- The two connections once both keys are known.
  abbrev pub met_server : ℕ → Connection platform
  met_server now = record (fresh_connection platform client_endpoint (server_side now)) {
    encryptor =
        (Encryptor.initialize_session crypto (new_encryptor crypto (some server_keys) true)
          client_key).0;
    handshake_started = true;
  }

  abbrev pub met_client : ℕ → Connection platform
  met_client now = record (primed now) {
    encryptor =
        (Encryptor.initialize_session crypto (new_encryptor crypto (some client_keys) false)
          server_key).0;
    handshake_started = true;
  }

  -- The state of a server that a client has joined, and what it says.
  abbrev pub joined_server : Server platform → ℕ → Server platform
  joined_server s now =
      let id = s.next_client_id in
      record s {
        next_client_id = (id + 1) % 2 ^ 64;
        objects =
            insert id (met_server now)
              (insert id (fresh_connection platform client_endpoint (server_side now)) s.objects);
        clients_by_id = insert id id s.clients_by_id;
        clients_by_endpoint = insert client_endpoint id s.clients_by_endpoint;
      }

  -- The same before the HELLO is handled.
  abbrev entered_server : Server platform → ℕ → Server platform
  entered_server s now =
      let id = s.next_client_id in
      record s {
        next_client_id = (id + 1) % 2 ^ 64;
        objects = insert id (fresh_connection platform client_endpoint (server_side now)) s.objects;
        clients_by_id = insert id id s.clients_by_id;
        clients_by_endpoint = insert client_endpoint id s.clients_by_endpoint;
      }

  client_enters :
      (s : Server platform) (heard : ℕ)
      → lookup client_endpoint s.clients_by_endpoint ≡ none
      → find_or_create_connection platform s client_endpoint (server_side heard) ≡ (
        entered_server s heard,
        s.next_client_id,
        ServerOutput.client_connected s.next_client_id ∷ [],
      )
  unfolding find_or_create_connection create_connection
  client_enters s heard unknown = rw (unknown, find_or_create_connection) refl

  hello_handled :
      (s : Server platform) (heard : ℕ)
      → process_incoming_raw_packet platform
          (fresh_connection platform client_endpoint (server_side heard))
          (build_hello client_key)
          heard
        ≡ some (met_server heard, transmit client_endpoint (build_hello server_key) ∷ [])
      → process_on platform (entered_server s heard) s.next_client_id (build_hello client_key) heard
        ≡ some (
          joined_server s heard,
          ServerOutput.send_data client_endpoint (build_hello server_key) ∷ [],
        )
  unfolding process_on
  hello_handled s heard answer =
      rw
        (
          lookup-insert_self s.next_client_id
              (fresh_connection platform client_endpoint (server_side heard)) s.objects,
          process_on,
        )
        (simp answer refl)

  server_answers :
      (s : Server platform) (heard : ℕ)
      → s.is_running ≡ true
      → lookup client_endpoint s.clients_by_endpoint ≡ none
      → process_incoming_raw_packet platform
          (fresh_connection platform client_endpoint (server_side heard))
          (build_hello client_key)
          heard
        ≡ some (met_server heard, transmit client_endpoint (build_hello server_key) ∷ [])
      → on_raw_data_received platform s client_endpoint (build_hello client_key) (server_side heard)
        ≡ some (
          joined_server s heard,
          ServerOutput.client_connected s.next_client_id
              ∷ ServerOutput.send_data client_endpoint (build_hello server_key)
              ∷ [],
        )
  unfolding on_raw_data_received append_output
  server_answers s heard running unknown answer =
      let Events : Type 0 = List ServerOutput in
      running_receives platform s client_endpoint (build_hello client_key) (server_side heard)
        running
      ∙ ap
          (λ (f : Server platform × ℕ × Events).
            process_on platform f.0 f.1 (build_hello client_key) heard >>= λ r.
            some (append_output platform f.2 r))
          (client_enters s heard unknown)
      ∙ ap
          (λ p. p >>= λ r.
            some (append_output platform (ServerOutput.client_connected s.next_client_id ∷ []) r))
          (hello_handled s heard answer)

  abbrev pub connected_client : ℕ → Client platform
  connected_client now = record {
    server_connection = some (record (primed now) { handshake_started = true });
    is_running = true;
    has_update_thread = true;
    last_keepalive = now;
  }

  client_connects :
      (c : Client platform) (now : ℕ)
      → c.is_running ≡ false
      → c.has_update_thread ≡ false
      → length client_key ≡ 32
      → connect platform c (some server_endpoint.ip_address) server_endpoint.port client_side now
        ≡ (
          connected_client now,
          RiftResult.success,
          ClientOutput.client_connected
              ∷ ClientOutput.send_data server_endpoint (build_hello client_key)
              ∷ [],
        )
  unfolding connect
  client_connects c now idle no_thread size =
      simp (idle, no_thread)
        (ap₂
          (λ (k : Connection platform) (out : List Output).
            let result : Client platform × RiftResult × List ClientOutput = (
              record {
                server_connection = some k;
                is_running = true;
                has_update_thread = true;
                last_keepalive = now;
              },
              RiftResult.success,
              ClientOutput.client_connected ∷ map Client.of_output out,
            ) in
            result)
          (primed-sent now size)
          (primer_queued platform server_endpoint client_keys ready_client now size))

  -- A client that is neither running nor still has an update thread connects to a running server
  -- that has no client at the address that it sees the client at. The client says HELLO; the server
  -- gives the address the next id, reports the client as connected, derives its keys and answers
  -- with its HELLO; and the client, when that arrives, derives its keys and sends what it had
  -- queued, the five bytes that prime the reliable path. Then each side can read what the other
  -- sends. (The platform's laws are those of libsodium, and both network layers start.)
  pub connect_meets :
      (laws : CryptoLaws crypto) (c : Client platform) (s : Server platform)
      (now heard answered : ℕ)
      → c.is_running ≡ false
      → c.has_update_thread ≡ false
      → s.is_running ≡ true
      → lookup client_endpoint s.clients_by_endpoint ≡ none
      → let flushed = flush_pending_sends platform (met_client now) answered in
        (connect platform c (some server_endpoint.ip_address) server_endpoint.port client_side now
          ≡ (
            connected_client now,
            RiftResult.success,
            ClientOutput.client_connected
                ∷ ClientOutput.send_data server_endpoint (build_hello client_key)
                ∷ [],
          ))
        × (on_raw_data_received platform s client_endpoint
              (build_hello client_key)
              (server_side heard)
            ≡ some (
              joined_server s heard,
              ServerOutput.client_connected s.next_client_id
                  ∷ ServerOutput.send_data client_endpoint (build_hello server_key)
                  ∷ [],
            ))
        × (Client.on_raw_data_received platform
              (connected_client now)
              (build_hello server_key)
              answered
            ≡ some (
              record (connected_client now) { server_connection = some flushed.0 },
              map Client.of_output flushed.1,
            ))
        × Reads (met_client now).encryptor (met_server heard).encryptor
        × Reads (met_server heard).encryptor (met_client now).encryptor
  unfolding new_connection set_send_callback set_app_data_callback
  connect_meets laws c s now heard answered idle no_thread running unknown =
      let size = laws.public_key_size client_keys in
      let (_, hears, reads, to_server, to_client) =
        handshake_establishes platform laws server_keys client_keys
          (fresh_connection platform client_endpoint (server_side heard)) (primed now) refl refl
          refl refl refl refl refl heard answered in
      (
        client_connects c now idle no_thread size,
        server_answers s heard running unknown hears,
        client_receives platform (connected_client now)
            (record (primed now) { handshake_started = true }) (build_hello server_key) answered _
            refl refl reads,
        to_server,
        to_client,
      )
