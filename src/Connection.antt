-- ===== src/Connection.antt =====
-- RiftNet/src/core/connection/Connection: one remote peer. Each function returns the new state and
-- what the code hands to its two callbacks, in order. `none` is undefined behaviour, as in
-- `Protocol.Reliability`. `now` is the time of `steady_clock` during the call.
pub mod Queue
pub mod Pipeline
pub mod Establish
pub mod Emissions
pub mod Race
use rift_net.Base.{
  ℕ, ◌+◌, ◌-◌, ◌*◌, ◌%◌, ◌^◌, Bool, true, false, not, ltb, ◌==◌, if◌then◌else◌, ◌>>=◌, Option, none,
  some, List, [], ◌∷◌, ◌++◌, take, drop, length, is_empty,
}
use rift_net.Base.Bytes.{le_bytes, of_le_bytes, byte_swap}
use rift_net.Protocol.Packet.{PacketType, to_byte}
use rift_net.Protocol.PacketFactory.{
  parse_packet, ParsedPacket, create_reliable_data_packet, create_unreliable_data_packet,
}
use rift_net.Protocol.Reliability.{
  Floats, ReliableConnectionState, initial_state, process_incoming_header, process_retransmissions,
  is_connection_timed_out,
}
use rift_net.Security.Handshake.{build_hello, try_parse_hello}
use rift_net.Security.Encryptor.{CryptoLibrary, Encryptor, host_to_be64, encrypt, decrypt}
use rift_net.Security.Encryptor
use rift_net.Compression.{CompressionLibrary, Compressor, compress, decompress}

-- What the connection is built on.
pub record Platform : Type 1 where
  pub floats : Floats
  pub crypto : CryptoLibrary
  pub codec : CompressionLibrary

-- The address is text, as a list of character codes.
pub record NetworkEndpoint : Type 0 where
  pub ip_address : List ℕ
  pub port : ℕ

pub record PendingSend : Type 0 where
  pub bytes : List ℕ
  pub reliable : Bool

pub record Connection (platform : Platform) : Type 0 where
  pub endpoint : NetworkEndpoint
  pub reliability : ReliableConnectionState platform.floats.Float
  pub encryptor : Encryptor platform.crypto.KeyPair platform.crypto.Cipher
  pub compressor : Compressor
  pub tx_nonce : ℕ
  pub rx_nonce : ℕ
  pub handshake_started : Bool
  pub has_send_callback : Bool
  pub has_app_data_callback : Bool
  pub pending_sends : List PendingSend
  pub pending_bytes : ℕ

-- A call of the send callback, and of the application's.
pub data Output : Type 0 where
  transmit : NetworkEndpoint → List ℕ → Output
  deliver : List ℕ → Output

abbrev pub max_pending_bytes : ℕ
max_pending_bytes = 512 * 1024

-- The loop that drops the oldest payloads while too many bytes are queued; `size_t` has 64 bits.
unfoldable pub drop_oldest : List PendingSend → ℕ → List PendingSend × ℕ
drop_oldest [] total = ([], total)
drop_oldest (first ∷ queue) total =
    let rest = drop_oldest queue ((total + 2 ^ 64 - length first.bytes) % 2 ^ 64) in
    if ltb max_pending_bytes total then rest else (first ∷ queue, total)

unfoldable pub be64_to_host : ℕ → ℕ
be64_to_host x = byte_swap 8 x

module _ (platform : Platform) where
  open platform use {floats, crypto, codec}

  abbrev pub State : Type 0
  State = Connection platform

  -- The constructor; `generated` is what the key generation gave.
  unfoldable pub new_connection : NetworkEndpoint → Bool → Option crypto.KeyPair → Bool → ℕ → State
  new_connection endpoint is_server generated compressor_ready now = record {
    endpoint = endpoint;
    reliability = initial_state floats now;
    encryptor = Encryptor.new_encryptor crypto generated is_server;
    compressor = record { is_ready = compressor_ready };
    tx_nonce = if is_server then 1 else 0;
    rx_nonce = if is_server then 0 else 1;
    handshake_started = false;
    has_send_callback = false;
    has_app_data_callback = false;
    pending_sends = [];
    pending_bytes = 0;
  }

  unfoldable pub set_send_callback : State → State
  set_send_callback c = record c { has_send_callback = true }

  unfoldable pub set_app_data_callback : State → State
  set_app_data_callback c = record c { has_app_data_callback = true }

  unfoldable pub is_secure : State → Bool
  is_secure c = c.encryptor.is_initialized

  unfoldable pub is_timed_out : State → ℕ → ℕ → Bool
  is_timed_out c now timeout = is_connection_timed_out c.reliability now timeout

  unfoldable pub begin_handshake : State → State × List Output
  begin_handshake c =
      let started = record c { handshake_started = true } in
      let public_key = Encryptor.public_key_of crypto c.encryptor in
      let hello = build_hello public_key in
      if c.handshake_started
      then (c, [])
      else (if not c.has_send_callback
          then (started, [])
          else (if not (length public_key == 32)
              then (started, [])
              else (if is_empty hello
                  then (started, [])
                  else (started, transmit c.endpoint hello ∷ []))))

  -- `SendPacket` takes no lock, so its load of the nonce and its `fetch_add` are two steps of the
  -- thread that calls it: `begin_send` loads the nonce and encrypts, `finish_send` advances the nonce
  -- as it is by then and calls the callback.
  abbrev pub begin_send : State → List ℕ → ℕ × List ℕ
  begin_send c packet = (c.tx_nonce, encrypt crypto c.encryptor packet c.tx_nonce)

  abbrev pub finish_send : State → ℕ → List ℕ → State × List Output
  finish_send c nonce sealed =
      let wire = le_bytes 8 (host_to_be64 nonce) ++ sealed in
      if is_empty sealed then (c, []) else (
        record c { tx_nonce = (c.tx_nonce + 2) % 2 ^ 64 },
        if c.has_send_callback then transmit c.endpoint wire ∷ [] else [],
      )

  -- The whole call, when no other thread is in `SendPacket` of this connection.
  unfoldable pub send_packet : State → List ℕ → State × List Output
  send_packet c packet = let (nonce, sealed) = begin_send c packet in finish_send c nonce sealed

  -- The call of `SendPacket` for a packet of the factory.
  unfoldable pub send_made_packet : State → List ℕ → State × List Output
  send_made_packet c packet = if is_empty packet then (c, []) else send_packet c packet

  -- `SendApplicationData` on a channel that is not secure.
  unfoldable pub queue_application_data : State → List ℕ → Bool → State × List Output
  queue_application_data c bytes reliable =
      let (started, out) = begin_handshake c in
      let pending : PendingSend = record { bytes = bytes; reliable = reliable } in
      let (queue, total) =
        drop_oldest (started.pending_sends ++ (pending ∷ []))
          ((started.pending_bytes + length bytes) % 2 ^ 64) in
      (record started { pending_sends = queue; pending_bytes = total }, out)

  -- And on a secure one.
  unfoldable pub send_secure_data : State → List ℕ → Bool → ℕ → State × List Output
  send_secure_data c bytes reliable now =
      let payload = compress codec c.compressor bytes in
      let (state, packet) = create_reliable_data_packet c.reliability payload now in
      if reliable
      then send_made_packet (record c { reliability = state }) packet
      else send_made_packet c (create_unreliable_data_packet payload)

  unfoldable pub send_application_data : State → List ℕ → Bool → ℕ → State × List Output
  send_application_data c bytes reliable now =
      if c.encryptor.is_initialized
      then send_secure_data c bytes reliable now
      else queue_application_data c bytes reliable

  unfoldable pub send_pending : State → List PendingSend → ℕ → State × List Output
  send_pending c [] now = (c, [])
  send_pending c (p ∷ queue) now =
      let (c1, out) = send_application_data c p.bytes p.reliable now in
      let (c2, more) = send_pending c1 queue now in (c2, out ++ more)

  unfoldable pub flush_pending_sends : State → ℕ → State × List Output
  flush_pending_sends c now =
      if is_empty c.pending_sends
      then (c, [])
      else send_pending (record c { pending_sends = []; pending_bytes = 0 }) c.pending_sends now

  -- The Boolean is what `InitializeSession` returns.
  unfoldable pub initialize_session : State → List ℕ → ℕ → State × Bool × List Output
  initialize_session c remote now =
      let (encryptor, ok) = Encryptor.initialize_session crypto c.encryptor remote in
      let keyed = record c { encryptor = encryptor } in
      let (flushed, out) = flush_pending_sends keyed now in
      if ok then (flushed, true, out) else (keyed, false, [])

  -- What follows a HELLO that was parsed.
  unfoldable pub accept_hello : State → List ℕ → ℕ → State × List Output
  accept_hello c key now =
      let (ready, ok, out) = initialize_session c key now in
      let (replied, hello) = begin_handshake ready in
      if not ok
      then (ready, out)
      else (if not ready.handshake_started then (replied, out ++ hello) else (ready, out))

  -- The Boolean is what `MaybeHandleCleartextHandshake` returns.
  unfoldable pub maybe_handle_cleartext_handshake : State → List ℕ → ℕ → State × Bool × List Output
  maybe_handle_cleartext_handshake c bytes now = elim (try_parse_hello (some bytes)) [
    | none ↦ (c, false, [])
    | some key ↦ let (c', out) = accept_hello c key now in (c', true, out)
  ]

  unfoldable pub deliver_payload : State → List ℕ → List Output
  deliver_payload c payload =
      if is_empty payload
      then []
      else (if c.has_app_data_callback then deliver payload ∷ [] else [])

  -- `HandleDecryptedPacket` on a packet that parses.
  unfoldable pub handle_parsed_packet : State → ParsedPacket → ℕ → Option (State × List Output)
  unfolding deliver_payload
  handle_parsed_packet c packet now =
      let payload = decompress codec c.compressor packet.payload in
      if packet.general.packet_type == to_byte PacketType.data_reliable
      then (process_incoming_header floats c.reliability packet.reliability now
          >>= λ (state, fresh).
              some
                (record c { reliability = state }, if fresh then deliver_payload c payload else []))
      else some (c, deliver_payload c payload)

  unfoldable pub handle_decrypted_packet : State → List ℕ → ℕ → Option (State × List Output)
  handle_decrypted_packet c plain now = elim (parse_packet plain) [
    | none ↦ some (c, [])
    | some packet ↦ handle_parsed_packet c packet now
  ]

  -- The secure path of `ProcessIncomingRawPacket`.
  unfoldable pub process_sealed_frame : State → List ℕ → ℕ → Option (State × List Output)
  process_sealed_frame c bytes now =
      let nonce = be64_to_host (of_le_bytes (take 8 bytes)) in
      if ltb (length bytes) 8
      then some (c, [])
      else elim (decrypt crypto c.encryptor (drop 8 bytes) nonce) [
        | none ↦ some (c, [])
        | some plain ↦ handle_decrypted_packet (record c { rx_nonce = nonce }) plain now
      ]

  unfoldable pub process_incoming_raw_packet : State → List ℕ → ℕ → Option (State × List Output)
  process_incoming_raw_packet c bytes now =
      let (c', _, out) = maybe_handle_cleartext_handshake c bytes now in
      if not c.encryptor.is_initialized then some (c', out) else process_sealed_frame c bytes now

  unfoldable pub send_packets : State → List (List ℕ) → State × List Output
  send_packets c [] = (c, [])
  send_packets c (packet ∷ packets) =
      let (c1, out) = send_packet c packet in
      let (c2, more) = send_packets c1 packets in (c2, out ++ more)

  -- `SendPacket` does not touch the reliability state, so the packets of a retransmission pass can
  -- be sent after it.
  unfoldable pub update : State → ℕ → State × List Output
  unfolding send_packets
  update c now =
      let (state, packets) = process_retransmissions floats c.reliability now in
      send_packets (record c { reliability = state }) packets
