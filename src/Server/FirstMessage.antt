-- ===== src/Server/FirstMessage.antt =====
-- From a new client and a running server to the first message that is delivered.
use rift_net.Base.{
  ℕ, ◌≡◌, ◌≢◌, refl, ap, ◌∙◌, true, false, if◌then◌else◌, ◌>>=◌, Option, none, some, List, [], ◌∷◌,
  ◌++◌, map, arith,
}
use rift_net.Base.Dict.{number_key, lookup, lookup-insert_self}
use rift_net.Client.{Client, ClientOutput, RiftResult, primer, connect}
use rift_net.Client
use rift_net.Compression.{CompressionLaws}
use rift_net.Connection.{
  Platform, Connection, NetworkEndpoint, Output, deliver, flush_pending_sends, send_pending,
  send_application_data, new_connection, set_send_callback, set_app_data_callback,
}
use rift_net.Connection.Pipeline.{Hears, reliable_end_to_end}
use rift_net.Protocol.Packet.{IsHeader}
use rift_net.Protocol.PacketFactory.RoundTrip.{outgoing_header}
use rift_net.Protocol.Reliability.{
  Floats, ReliableConnectionState, initial_state, process_incoming_header, process_acks,
  update_receive_window, is_sequence_more_recent,
}
use rift_net.Security.Encryptor.Channel.{CryptoLaws, Reads}
use rift_net.Security.Handshake.{build_hello}
use rift_net.Server.{Server, ServerOutput, Fresh, on_raw_data_received}
use rift_net.Server.Endpoint.{endpoint_key}
use rift_net.Server.Maps.{Registered, put}
use rift_net.Server.Meeting.{
  client_side, server_side, met_client, met_server, joined_server, connected_client, connect_meets,
}
use rift_net.Server.Messages.Steps.{server_receives}

-- The first packet of a new connection is new to another new connection.
first_is_new :
    (floats : Floats) (now heard received : ℕ)
    → (state : ReliableConnectionState floats.Float) × (process_incoming_header floats
          (initial_state floats heard)
          (outgoing_header (initial_state floats now))
          received
        ≡ some (state, true))
unfolding process_incoming_header process_acks update_receive_window is_sequence_more_recent
    initial_state
first_is_new floats now heard received = (_, refl)

first-IsHeader : (floats : Floats) (now : ℕ) → IsHeader (outgoing_header (initial_state floats now))
unfolding initial_state
first-IsHeader floats now = record {
  sequence_fits = omega arith;
  ack_fits = omega arith;
  bitfield_fits = omega arith;
}

primer_full : primer ≢ []
primer_full e = cc e

module _ (platform : Platform) (crypto_laws : CryptoLaws platform.crypto)
    (codec_laws : CompressionLaws platform.codec)
    (server_keys client_keys : platform.crypto.KeyPair)
    (server_endpoint client_endpoint : NetworkEndpoint) where
  -- The client's side once it has its keys, and the same with nothing queued.
  abbrev keyed : ℕ → Connection platform
  keyed now =
      met_client platform server_keys client_keys server_endpoint client_endpoint true true now

  abbrev emptied : ℕ → Connection platform
  emptied now = record (keyed now) { pending_sends = []; pending_bytes = 0 }

  abbrev opposite : ℕ → Connection platform
  opposite now =
      met_server platform server_keys client_keys server_endpoint client_endpoint true true now

  opposite-Hears :
      (now heard : ℕ)
      → Reads (keyed now).encryptor (opposite heard).encryptor
      → Hears platform crypto_laws codec_laws (emptied now) (opposite heard)
  unfolding new_connection set_send_callback set_app_data_callback
  opposite-Hears now heard reads = record {
    reads = reads;
    a_compresses = refl;
    b_compresses = refl;
    a_sends = refl;
    b_delivers = refl;
    nonce_fits = omega arith;
  }

  flush-primer :
      (now answered : ℕ) (r : Connection platform × List Output)
      → send_application_data platform (emptied now) primer true answered ≡ r
      → flush_pending_sends platform (keyed now) answered ≡ (r.0, r.1 ++ [])
  unfolding flush_pending_sends send_pending
  flush-primer now answered r e = simp e refl

  opposite-Registered :
      (s : Server platform) (heard : ℕ)
      → Registered
          (joined_server platform server_keys client_keys server_endpoint client_endpoint true true
            s heard)
          s.next_client_id
          (opposite heard)
  unfolding new_connection set_send_callback set_app_data_callback
  opposite-Registered s heard = record {
    by_id = lookup-insert_self s.next_client_id s.next_client_id s.clients_by_id;
    object = lookup-insert_self s.next_client_id (opposite heard) _;
    by_endpoint = lookup-insert_self client_endpoint s.next_client_id s.clients_by_endpoint;
  }

  -- A client that is neither running nor still has an update thread connects to a running server
  -- that has no client at the address that it sees the client at. The client says HELLO. The server
  -- gives the address the next id, reports the client as connected, derives its keys and answers
  -- with its HELLO. When the client gets that, it derives its keys and sends exactly one datagram;
  -- and when this arrives, the server's application gets the five bytes that prime the reliable
  -- path, under the client's id. From then on each side can read what the other sends. (Both
  -- network layers start, both compressors work, and the platform keeps the laws of its libraries.)
  pub first_message :
      (c : Client platform) (s : Server platform) (now heard answered : ℕ) (w : Fresh platform)
      → c.is_running ≡ false
      → c.has_update_thread ≡ false
      → s.is_running ≡ true
      → lookup client_endpoint s.clients_by_endpoint ≡ none
      → let client =
          connected_client platform server_keys client_keys server_endpoint client_endpoint true
            true now in
        let server =
          joined_server platform server_keys client_keys server_endpoint client_endpoint true true s
            heard in
        let client_hello = build_hello (platform.crypto.get_public_key client_keys) in
        let server_hello = build_hello (platform.crypto.get_public_key server_keys) in
        (connect platform c
            (some server_endpoint.ip_address)
            server_endpoint.port
            (client_side platform server_keys client_keys server_endpoint client_endpoint true true)
            now
          ≡ (
            client,
            RiftResult.success,
            ClientOutput.client_connected
                ∷ ClientOutput.send_data server_endpoint client_hello
                ∷ [],
          ))
        × (on_raw_data_received platform s client_endpoint client_hello (
              server_side platform server_keys client_keys server_endpoint client_endpoint true true
                heard)
            ≡ some (
              server,
              ServerOutput.client_connected s.next_client_id
                  ∷ ServerOutput.send_data client_endpoint server_hello
                  ∷ [],
            ))
        × (a' : Connection platform) × (b' : Connection platform) × (wire : List ℕ)
        × (Client.on_raw_data_received platform client server_hello answered
            ≡ some (
              record client { server_connection = some a' },
              ClientOutput.send_data server_endpoint wire ∷ [],
            ))
        × (on_raw_data_received platform server client_endpoint wire w
            ≡ some (
              put server s.next_client_id b',
              ServerOutput.packet_received s.next_client_id primer ∷ [],
            ))
        × Reads a'.encryptor b'.encryptor
        × Reads b'.encryptor a'.encryptor
  unfolding new_connection set_send_callback set_app_data_callback
  first_message c s now heard answered w idle no_thread running unknown =
      let (connects, joins, reads, to_server, to_client) =
        connect_meets platform server_keys client_keys server_endpoint client_endpoint true true
          crypto_laws c s now heard answered idle no_thread running unknown in
      let (wire, leaves, arrives) =
        reliable_end_to_end platform crypto_laws codec_laws (emptied now) (opposite heard)
          (opposite-Hears now heard to_server) primer answered w.now primer_full
          (first-IsHeader platform.floats now) in
      let (state, new) = first_is_new platform.floats now heard w.now in
      let client =
        connected_client platform server_keys client_keys server_endpoint client_endpoint true true
          now in
      let b' : Connection platform = record (opposite heard) {
        rx_nonce = 0;
        reliability = state;
      } in
      (
        connects,
        joins,
        _,
        b',
        wire,
        reads
            ∙ ap
                (λ (r : Connection platform × List Output).
                  let after : Option (Client platform × List ClientOutput) =
                    some
                      (record client { server_connection = some r.0 }, map Client.of_output r.1) in
                  after)
                (flush-primer now answered _ leaves),
        server_receives platform _ s.next_client_id (opposite heard) wire w _ running
            (opposite-Registered s heard)
            (arrives
              ∙ ap
                  (λ r. r >>= λ (state, fresh). some (
                    record (opposite heard) { rx_nonce = 0; reliability = state },
                    if fresh then deliver primer ∷ [] else [],
                  ))
                  new),
        to_server,
        to_client,
      )
