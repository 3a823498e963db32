-- ===== src/Connection/Emissions/Operations.antt =====
-- Every entry point of a connection, operation by operation.
use rift_net.Base.{
  refl, ℕ, Bool, true, false, not, Bool-cases, Option-cases, inl, inr, ◌==◌, Option, none, some,
  List, [], ◌∷◌, is_empty, take, drop, length, ltb, if◌then◌else◌, ◌>>=◌,
}
use rift_net.Protocol.Packet.{PacketType, to_byte}
use rift_net.Protocol.PacketFactory.{
  ParsedPacket, parse_packet, create_reliable_data_packet, create_unreliable_data_packet,
}
use rift_net.Protocol.Reliability.{process_retransmissions, process_incoming_header}
use rift_net.Security.Encryptor
use rift_net.Security.Encryptor.{decrypt}
use rift_net.Security.Handshake.{try_parse_hello}
use rift_net.Compression.{compress, decompress}
use rift_net.Base.Bytes.{of_le_bytes}
use rift_net.Connection.{
  be64_to_host, Platform, Connection, PendingSend, Output, begin_handshake, send_packet,
  send_made_packet, queue_application_data, send_secure_data, send_application_data, send_pending,
  flush_pending_sends, initialize_session, accept_hello, maybe_handle_cleartext_handshake,
  deliver_payload, handle_parsed_packet, handle_decrypted_packet, process_sealed_frame,
  process_incoming_raw_packet, send_packets, update,
}
use rift_net.Connection.Emissions.{
  done, handed, Does, Does-nothing, Does-append, if-Does, rekeys, begin_handshake-Does,
  send_packet-Does,
}

module _ (platform : Platform) where
  abbrev pub State : Type 0
  State = Connection platform

  send_made_packet-Does :
      (c : State) (packet : List ℕ)
      → Does platform c
          (send_made_packet platform c packet).1
          (send_made_packet platform c packet).0
  unfolding send_made_packet
  send_made_packet-Does c packet =
      if-Does platform c (is_empty packet) _ _ (λ h. Does-nothing platform c)
        (λ h. send_packet-Does platform c packet)

  send_secure_data-Does :
      (c : State) (bytes : List ℕ) (reliable : Bool) (now : ℕ)
      → let after = send_secure_data platform c bytes reliable now in
        Does platform c after.1 after.0
  unfolding send_secure_data
  send_secure_data-Does c bytes reliable now =
      let payload = compress platform.codec c.compressor bytes in
      let (state, packet) = create_reliable_data_packet c.reliability payload now in
      if-Does platform c reliable _ _
        (λ h. send_made_packet-Does (record c { reliability = state }) packet)
        (λ h. send_made_packet-Does c (create_unreliable_data_packet payload))

  pub send_application_data-Does :
      (c : State) (bytes : List ℕ) (reliable : Bool) (now : ℕ)
      → let after = send_application_data platform c bytes reliable now in
        Does platform c after.1 after.0
  unfolding send_application_data queue_application_data
  send_application_data-Does c bytes reliable now =
      if-Does platform c c.encryptor.is_initialized _ _
        (λ h. send_secure_data-Does c bytes reliable now) (λ h. begin_handshake-Does platform c)

  send_pending-Does :
      (c : State) (queue : List PendingSend) (now : ℕ)
      → let after = send_pending platform c queue now in Does platform c after.1 after.0
  unfolding send_pending
  send_pending-Does c [] now = Does-nothing platform c
  send_pending-Does c (p ∷ queue) now =
      let next = (send_application_data platform c p.bytes p.reliable now).0 in
      Does-append platform c next (send_pending platform next queue now).0
        (send_application_data-Does c p.bytes p.reliable now) (send_pending-Does next queue now)

  flush_pending_sends-Does :
      (c : State) (now : ℕ)
      → let after = flush_pending_sends platform c now in Does platform c after.1 after.0
  unfolding flush_pending_sends
  flush_pending_sends-Does c now =
      if-Does platform c (is_empty c.pending_sends) _ _ (λ h. Does-nothing platform c)
        (λ h.
          send_pending-Does (record c { pending_sends = []; pending_bytes = 0 }) c.pending_sends
            now)

  pub initialize_session-Does :
      (c : State) (remote : List ℕ) (now : ℕ)
      → let after = initialize_session platform c remote now in Does platform c after.2 after.0
  unfolding initialize_session
  initialize_session-Does c remote now =
      let e = Encryptor.initialize_session platform.crypto c.encryptor remote in
      let keyed = record c { encryptor = e.0 } in
      elim (Bool-cases e.1) [
        | inl ok ↦ simp ok (
            Does-append platform c keyed (flush_pending_sends platform keyed now).0
              (rekeys platform c remote) (flush_pending_sends-Does keyed now))
        | inr failed ↦ simp failed (rekeys platform c remote)
      ]

  accept_hello-Does :
      (c : State) (key : List ℕ) (now : ℕ)
      → let after = accept_hello platform c key now in Does platform c after.1 after.0
  unfolding accept_hello
  accept_hello-Does c key now =
      let ready = (initialize_session platform c key now).0 in
      let replied = (begin_handshake platform ready).0 in
      let starts = initialize_session-Does c key now in
      if-Does platform c (not (initialize_session platform c key now).1) _ _ (λ h. starts)
        (λ h.
          if-Does platform c (not ready.handshake_started) _ _
            (λ new.
              Does-append platform c ready replied starts (begin_handshake-Does platform ready))
            (λ begun. starts))

  maybe_handle_cleartext_handshake-Does :
      (c : State) (bytes : List ℕ) (now : ℕ)
      → let after = maybe_handle_cleartext_handshake platform c bytes now in
        Does platform c after.2 after.0
  unfolding maybe_handle_cleartext_handshake
  maybe_handle_cleartext_handshake-Does c bytes now =
      elim (Option-cases (try_parse_hello (some bytes))) [
        | inl none_parsed ↦
            rw (none_parsed, maybe_handle_cleartext_handshake) (Does-nothing platform c)
        | inr (key, parsed) ↦
            rw (parsed, maybe_handle_cleartext_handshake) (accept_hello-Does c key now)
      ]

  -- The same of a result that may be undefined behaviour.
  abbrev pub DoesIfDefined : State → Option (State × List Output) → Type 0
  DoesIfDefined c none = Unit
  DoesIfDefined c (some (c', out)) = Does platform c out c'

  if-DoesIfDefined :
      (c : State) (t : Bool) (x y : Option (State × List Output))
      → DoesIfDefined c x
      → DoesIfDefined c y
      → DoesIfDefined c (if t then x else y)
  if-DoesIfDefined c true x y dx dy = dx
  if-DoesIfDefined c false x y dx dy = dy

  bind-DoesIfDefined :
      {A : Type 0} (c : State) (r : Option A) (f : A → Option (State × List Output))
      → ((a : A) → DoesIfDefined c (f a))
      → DoesIfDefined c (r >>= f)
  bind-DoesIfDefined c none f h = tt
  bind-DoesIfDefined c (some a) f h = h a

  deliver_payload-Does :
      (c : State) (payload : List ℕ) → Does platform c (deliver_payload platform c payload) c
  unfolding deliver_payload
  deliver_payload-Does c payload = elim (Bool-cases (is_empty payload)) [
    | inl h ↦ simp h (Does-nothing platform c)
    | inr h ↦ elim (Bool-cases c.has_app_data_callback) [
      | inl set ↦ simp (h, set) (refl, [], handed payload done)
      | inr not_set ↦ simp (h, not_set) (Does-nothing platform c)
    ]
  ]

  deliver_fresh-Does :
      (c : State) (payload : List ℕ) (fresh : Bool)
      → Does platform c (if fresh then deliver_payload platform c payload else []) c
  deliver_fresh-Does c payload true = deliver_payload-Does c payload
  deliver_fresh-Does c payload false = Does-nothing platform c

  handle_parsed_packet-Does :
      (c : State) (packet : ParsedPacket) (now : ℕ)
      → DoesIfDefined c (handle_parsed_packet platform c packet now)
  unfolding handle_parsed_packet
  handle_parsed_packet-Does c packet now =
      let payload = decompress platform.codec c.compressor packet.payload in
      let header = process_incoming_header platform.floats c.reliability packet.reliability now in
      if-DoesIfDefined c (packet.general.packet_type == to_byte PacketType.data_reliable) _ _
        (bind-DoesIfDefined c header _ (λ (state, fresh). deliver_fresh-Does c payload fresh))
        (deliver_payload-Does c payload)

  handle_decrypted_packet-Does :
      (c : State) (plain : List ℕ) (now : ℕ)
      → DoesIfDefined c (handle_decrypted_packet platform c plain now)
  unfolding handle_decrypted_packet
  handle_decrypted_packet-Does c plain now = elim (Option-cases (parse_packet plain)) [
    | inl none_parsed ↦ rw (none_parsed, handle_decrypted_packet) (Does-nothing platform c)
    | inr (packet, parsed) ↦
        rw (parsed, handle_decrypted_packet) (handle_parsed_packet-Does c packet now)
  ]

  process_sealed_frame-Does :
      (c : State) (bytes : List ℕ) (now : ℕ)
      → DoesIfDefined c (process_sealed_frame platform c bytes now)
  unfolding process_sealed_frame
  process_sealed_frame-Does c bytes now =
      let nonce = be64_to_host (of_le_bytes (take 8 bytes)) in
      if-DoesIfDefined c (ltb (length bytes) 8) _ _ (Does-nothing platform c)
        (elim (Option-cases (decrypt platform.crypto c.encryptor (drop 8 bytes) nonce)) [
          | inl refused ↦ simp refused (Does-nothing platform c)
          | inr (plain, opened) ↦
              simp opened (handle_decrypted_packet-Does (record c { rx_nonce = nonce }) plain now)
        ])

  pub process_incoming_raw_packet-Does :
      (c : State) (bytes : List ℕ) (now : ℕ)
      → DoesIfDefined c (process_incoming_raw_packet platform c bytes now)
  unfolding process_incoming_raw_packet
  process_incoming_raw_packet-Does c bytes now =
      if-DoesIfDefined c (not c.encryptor.is_initialized) _ _
        (maybe_handle_cleartext_handshake-Does c bytes now) (process_sealed_frame-Does c bytes now)

  send_packets-Does :
      (c : State) (packets : List (List ℕ))
      → let after = send_packets platform c packets in Does platform c after.1 after.0
  unfolding send_packets
  send_packets-Does c [] = Does-nothing platform c
  send_packets-Does c (packet ∷ packets) =
      let next = (send_packet platform c packet).0 in
      Does-append platform c next (send_packets platform next packets).0
        (send_packet-Does platform c packet) (send_packets-Does next packets)

  pub update-Does :
      (c : State) (now : ℕ) → let after = update platform c now in Does platform c after.1 after.0
  unfolding update
  update-Does c now =
      let (state, packets) = process_retransmissions platform.floats c.reliability now in
      send_packets-Does (record c { reliability = state }) packets
