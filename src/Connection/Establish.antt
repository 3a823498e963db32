-- ===== src/Connection/Establish.antt =====
-- The cleartext handshake between a client and a server.
use rift_net.Base.{
  ℕ, ◌≡◌, refl, ap, ◌∙◌, Bool, true, false, Bool-cases, inl, inr, some, List, [], ◌∷◌, length,
  is_empty, arith,
}
use rift_net.Security.Handshake.{build_hello}
use rift_net.Security.Handshake.RoundTrip.{try_parse_hello-build_hello}
use rift_net.Security.Encryptor.{Encryptor, new_encryptor, public_key_of}
use rift_net.Security.Encryptor
use rift_net.Security.Encryptor.Channel.{CryptoLaws, Reads, initialize_session-Reads}
use rift_net.Compression.{compress}
use rift_net.Protocol.PacketFactory.{create_reliable_data_packet, create_unreliable_data_packet}
use rift_net.Connection.{
  Platform, Connection, Output, transmit, begin_handshake, flush_pending_sends, initialize_session,
  accept_hello, send_packet, send_made_packet, send_secure_data, queue_application_data,
  send_application_data, send_pending, PendingSend, maybe_handle_cleartext_handshake,
  process_incoming_raw_packet,
}

hello_full : (key : List ℕ) → length key ≡ 32 → is_empty (build_hello key) ≡ false
unfolding build_hello
hello_full key h = ground arith

module _ (platform : Platform) where
  open platform use {crypto}

  abbrev State : Type 0
  State = Connection platform

  -- A HELLO that has not been sent is sent once, if there is a callback and a 32-byte key.
  pub begin_handshake_first :
      (c : State) (key : List ℕ)
      → c.handshake_started ≡ false
      → c.has_send_callback ≡ true
      → public_key_of crypto c.encryptor ≡ key
      → length key ≡ 32
      → begin_handshake platform c
        ≡ (record c { handshake_started = true }, transmit c.endpoint (build_hello key) ∷ [])
  unfolding begin_handshake
  begin_handshake_first c key new callback e size =
      simp (new, callback, e, size, hello_full key size)

  public_key_kept :
      (e : Encryptor crypto.KeyPair crypto.Cipher) (remote : List ℕ)
      → public_key_of crypto (Encryptor.initialize_session crypto e remote).0
        ≡ public_key_of crypto e
  unfolding public_key_of Encryptor.initialize_session
  public_key_kept e remote = ground arith

  pub public_key_new :
      (keys : crypto.KeyPair) (is_server : Bool)
      → public_key_of crypto (new_encryptor crypto (some keys) is_server)
        ≡ crypto.get_public_key keys
  unfolding public_key_of new_encryptor
  public_key_new keys is_server = refl

  parsed_hello :
      (c : State) (key : List ℕ) (now : ℕ)
      → length key ≡ 32
      → maybe_handle_cleartext_handshake platform c (build_hello key) now
        ≡ ((accept_hello platform c key now).0, true, (accept_hello platform c key now).1)
  unfolding maybe_handle_cleartext_handshake
  parsed_hello c key now size = rw (
    (try_parse_hello-build_hello.1 (build_hello key) key).1 (size, refl),
    maybe_handle_cleartext_handshake,
  )

  -- A HELLO that arrives before the channel is secure.
  hello_arrives :
      (c : State) (key : List ℕ) (now : ℕ)
      → c.encryptor.is_initialized ≡ false
      → length key ≡ 32
      → process_incoming_raw_packet platform c (build_hello key) now
        ≡ some (accept_hello platform c key now)
  unfolding process_incoming_raw_packet
  hello_arrives c key now unsecure size = simp (unsecure, parsed_hello c key now size)

  module _ (c : State) where
    begin_handshake_started : c.handshake_started ≡ true → (begin_handshake platform c) ≡ (c, [])
    unfolding begin_handshake
    begin_handshake_started h = simp h

    send_packet_started :
        (packet : List ℕ)
        → (send_packet platform c packet).0.handshake_started ≡ c.handshake_started
    unfolding send_packet
    send_packet_started packet = ground arith

    send_made_packet_started :
        (packet : List ℕ)
        → (send_made_packet platform c packet).0.handshake_started ≡ c.handshake_started
    unfolding send_made_packet
    send_made_packet_started packet = ground (arith, send_packet_started packet)

  send_application_data_started :
      (c : State) (bytes : List ℕ) (reliable : Bool) (now : ℕ)
      → c.handshake_started ≡ true
      → (send_application_data platform c bytes reliable now).0.handshake_started ≡ true
  unfolding send_application_data send_secure_data queue_application_data
  send_application_data_started c bytes reliable now h =
      let (state, packet) =
        create_reliable_data_packet c.reliability (compress platform.codec c.compressor bytes)
          now in
      ground (
        arith,
        begin_handshake_started c,
        send_made_packet_started (record c { reliability = state }) packet,
        send_made_packet_started c
            (create_unreliable_data_packet (compress platform.codec c.compressor bytes)),
      )

  send_pending_started :
      (c : State) (queue : List PendingSend) (now : ℕ)
      → c.handshake_started ≡ true
      → (send_pending platform c queue now).0.handshake_started ≡ true
  unfolding send_pending
  send_pending_started c [] now h = h
  send_pending_started c (p ∷ queue) now h =
      send_pending_started (send_application_data platform c p.bytes p.reliable now).0 queue now
        (send_application_data_started c p.bytes p.reliable now h)

  flush_pending_sends_started :
      (c : State) (now : ℕ)
      → c.handshake_started ≡ true
      → (flush_pending_sends platform c now).0.handshake_started ≡ true
  unfolding flush_pending_sends
  flush_pending_sends_started c now h = elim (Bool-cases (is_empty c.pending_sends)) [
    | inl none_queued ↦ rw none_queued h
    | inr some_queued ↦ rw some_queued (send_pending_started _ c.pending_sends now h)
  ]

  -- A HELLO whose key is accepted.
  module _ (c : State) (key : List ℕ) (now : ℕ)
      (ok : (Encryptor.initialize_session crypto c.encryptor key).1 ≡ true) where
    abbrev keyed : State
    keyed = record c { encryptor = (Encryptor.initialize_session crypto c.encryptor key).0 }

    session_starts : initialize_session platform c key now ≡ (
      (flush_pending_sends platform keyed now).0,
      true,
      (flush_pending_sends platform keyed now).1,
    )
    unfolding initialize_session
    session_starts = simp ok

    accept_started :
        c.handshake_started ≡ true
        → accept_hello platform c key now ≡ flush_pending_sends platform keyed now
    unfolding accept_hello
    accept_started h = simp (session_starts, flush_pending_sends_started keyed now h)

    accept_new :
        c.handshake_started ≡ false
        → c.pending_sends ≡ []
        → accept_hello platform c key now ≡ begin_handshake platform keyed
    unfolding accept_hello flush_pending_sends
    accept_new h nothing = simp (session_starts, nothing, h)

  module _ (laws : CryptoLaws crypto) (server_keys client_keys : crypto.KeyPair)
      (server client : State)
      (server_fresh : server.encryptor ≡ new_encryptor crypto (some server_keys) true)
      (client_fresh : client.encryptor ≡ new_encryptor crypto (some client_keys) false)
      (server_sends : server.has_send_callback ≡ true)
      (client_sends : client.has_send_callback ≡ true)
      (server_new : server.handshake_started ≡ false)
      (client_new : client.handshake_started ≡ false) (nothing : server.pending_sends ≡ []) where
    abbrev pub server_key : List ℕ
    server_key = crypto.get_public_key server_keys

    abbrev pub client_key : List ℕ
    client_key = crypto.get_public_key client_keys

    -- The two sides once they know one another's keys.
    abbrev pub keyed_server : State
    keyed_server = record server {
      encryptor =
          (Encryptor.initialize_session crypto (new_encryptor crypto (some server_keys) true)
            client_key).0;
      handshake_started = true;
    }

    abbrev pub keyed_client : State
    keyed_client = record client {
      encryptor =
          (Encryptor.initialize_session crypto (new_encryptor crypto (some client_keys) false)
            server_key).0;
      handshake_started = true;
    }

    -- The handshake: a client that begins it sends its HELLO; a server with nothing queued that
    -- gets that HELLO derives its keys and answers with its own HELLO, and nothing else; and a
    -- client that gets the answer derives its keys and sends what it had queued. Then each side can
    -- read what the other sends. (Both sides have a key pair, a send callback and no handshake
    -- begun.)
    pub handshake_establishes :
        (sent answered : ℕ)
        → (begin_handshake platform client ≡ (
          record client { handshake_started = true },
          transmit client.endpoint (build_hello client_key) ∷ [],
        ))
          × (process_incoming_raw_packet platform server (build_hello client_key) sent
              ≡ some (keyed_server, transmit server.endpoint (build_hello server_key) ∷ []))
          × (process_incoming_raw_packet platform
                (record client { handshake_started = true })
                (build_hello server_key)
                answered
              ≡ some (flush_pending_sends platform keyed_client answered))
          × Reads keyed_client.encryptor keyed_server.encryptor
          × Reads keyed_server.encryptor keyed_client.encryptor
    handshake_establishes sent answered =
        let (server_ok, client_ok, to_client, to_server) =
          initialize_session-Reads crypto laws server_keys client_keys in
        (
          begin_handshake_first client client_key client_new client_sends
              (rw client_fresh (public_key_new client_keys false))
              (laws.public_key_size client_keys),
          hello_arrives server client_key sent (rw server_fresh (unfold new_encryptor in refl))
                (laws.public_key_size client_keys)
              ∙ ap some (
                  accept_new server client_key sent (rw server_fresh server_ok) server_new nothing
                  ∙ begin_handshake_first (keyed server client_key sent (rw server_fresh server_ok))
                      server_key server_new server_sends
                      (public_key_kept server.encryptor client_key
                        ∙ ap (public_key_of crypto) server_fresh
                        ∙ public_key_new server_keys true)
                      (laws.public_key_size server_keys)
                  ∙ ap
                      (λ (e : Encryptor crypto.KeyPair crypto.Cipher).
                        let paired : State × List Output = (
                          record server {
                            encryptor = (Encryptor.initialize_session crypto e client_key).0;
                            handshake_started = true;
                          },
                          transmit server.endpoint (build_hello server_key) ∷ [],
                        ) in
                        paired)
                      server_fresh),
          hello_arrives (record client { handshake_started = true }) server_key answered
                (rw client_fresh (unfold new_encryptor in refl)) (laws.public_key_size server_keys)
              ∙ ap some (
                  accept_started (record client { handshake_started = true }) server_key answered
                    (rw client_fresh client_ok) refl
                  ∙ ap
                      (λ (e : Encryptor crypto.KeyPair crypto.Cipher).
                        flush_pending_sends platform
                          (record client {
                            encryptor = (Encryptor.initialize_session crypto e server_key).0;
                            handshake_started = true;
                          })
                          answered)
                      client_fresh),
          to_server,
          to_client,
        )
