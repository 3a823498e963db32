-- ===== src/Connection/Pipeline.antt =====
-- From one application to the other: compress, packetise, encrypt, and back.
use rift_net.Base.{
  ℕ, ◌+◌, ◌%◌, ◌<◌, ◌^◌, ◌≡◌, ◌≢◌, refl, ap, ◌∙◌, true, false, if◌then◌else◌, ◌>>=◌, some, List, [],
  ◌∷◌, ◌++◌, take, length, length-append, take-append, drop-append, arith, ltb,
}
use rift_net.Base.Bytes.{
  le_bytes, of_le_bytes, byte_swap, length-le_bytes, of_le_bytes-le_bytes, byte_swap-lt,
  byte_swap_twice,
}
use rift_net.Protocol.Packet.{general_bytes, IsHeader}
use rift_net.Protocol.PacketFactory.{
  ParsedPacket, parse_packet, create_reliable_data_packet, create_unreliable_data_packet,
}
use rift_net.Protocol.PacketFactory.RoundTrip.{
  outgoing_header, parse_packet-create_reliable_data_packet, parse_packet-create_plain,
}
use rift_net.Protocol.Reliability.{
  ReliableConnectionState, process_incoming_header, prepare_outgoing_packet,
}
use rift_net.Security.Encryptor.{host_to_be64, encrypt}
use rift_net.Security.Encryptor.Channel.{CryptoLaws, Reads, decrypt-encrypt}
use rift_net.Compression.{CompressionLaws, compress, decompress, decompress-compress}
use rift_net.Connection.{
  Platform, Connection, transmit, deliver, be64_to_host, send_packet, send_made_packet,
  send_secure_data, send_application_data, handle_parsed_packet, handle_decrypted_packet,
  process_sealed_frame, process_incoming_raw_packet, deliver_payload,
}

-- The nonce that is read from a frame is the one that was written.
read_nonce :
    (nonce : ℕ) (sealed : List ℕ)
    → nonce < 2 ^ 64
    → be64_to_host (of_le_bytes (take 8 (le_bytes 8 (host_to_be64 nonce) ++ sealed))) ≡ nonce
unfolding be64_to_host host_to_be64
read_nonce nonce sealed h =
    let size = length-le_bytes 8 (byte_swap 8 nonce) in
    ap (λ (bs : List ℕ). byte_swap 8 (of_le_bytes bs))
      (take-append (le_bytes 8 (byte_swap 8 nonce)) sealed 8 size)
    ∙ ap (byte_swap 8) (of_le_bytes-le_bytes 8 (byte_swap 8 nonce) (byte_swap-lt 8 nonce))
    ∙ byte_swap_twice 8 nonce h

unreliable_full : (packed : List ℕ) → create_unreliable_data_packet packed ≢ []
unfolding create_unreliable_data_packet general_bytes
unreliable_full packed e = cc e

reliable_full :
    {Float : Type 0} (state : ReliableConnectionState Float) (packed : List ℕ) (now : ℕ)
    → (create_reliable_data_packet state packed now).1 ≢ []
unfolding create_reliable_data_packet prepare_outgoing_packet general_bytes
reliable_full state packed now e = cc e

module _ (platform : Platform) (crypto_laws : CryptoLaws platform.crypto)
    (codec_laws : CompressionLaws platform.codec) where
  open platform use {floats, crypto, codec}

  abbrev State : Type 0
  State = Connection platform

  -- `b` gets what `a` sends: `b` has the key of `a`, both compressors work, both callbacks are set.
  pub record Hears (a b : State) : Type 0 where
    pub reads : Reads a.encryptor b.encryptor
    pub a_compresses : a.compressor.is_ready ≡ true
    pub b_compresses : b.compressor.is_ready ≡ true
    pub a_sends : a.has_send_callback ≡ true
    pub b_delivers : b.has_app_data_callback ≡ true
    pub nonce_fits : a.tx_nonce < 2 ^ 64

  -- The frame in which `a` seals a packet.
  abbrev pub frame : State → List ℕ → List ℕ
  frame a packet =
      le_bytes 8 (host_to_be64 a.tx_nonce) ++ encrypt crypto a.encryptor packet a.tx_nonce

  module _ (a b : State) (h : Hears a b) where
    send_packet-frame :
        (packet : List ℕ)
        → packet ≢ []
        → send_packet platform a packet ≡ (
          record a { tx_nonce = (a.tx_nonce + 2) % 2 ^ 64 },
          transmit a.endpoint (frame a packet) ∷ [],
        )
    unfolding send_packet
    send_packet-frame packet full = rw (
      (decrypt-encrypt crypto crypto_laws a.encryptor b.encryptor packet a.tx_nonce h.reads full).1,
      h.a_sends,
    )

    -- What `b` makes of a sealed packet is what it makes of the packet.
    receive-frame :
        (packet : List ℕ) (now : ℕ)
        → packet ≢ []
        → process_incoming_raw_packet platform b (frame a packet) now
          ≡ handle_decrypted_packet platform (record b { rx_nonce = a.tx_nonce }) packet now
    unfolding process_incoming_raw_packet process_sealed_frame
    receive-frame packet now full =
        let size = length-le_bytes 8 (host_to_be64 a.tx_nonce) in
        let sealed = encrypt crypto a.encryptor packet a.tx_nonce in
        let long : ltb (length (frame a packet)) 8 ≡ false =
          ground (arith, length-append (le_bytes 8 (host_to_be64 a.tx_nonce)) sealed, size) in
        simp (
          h.reads.receiver_ready,
          long,
          read_nonce a.tx_nonce sealed h.nonce_fits,
          drop-append (le_bytes 8 (host_to_be64 a.tx_nonce)) sealed 8 size,
          (decrypt-encrypt crypto crypto_laws a.encryptor b.encryptor packet a.tx_nonce h.reads
              full).0,
        )

    unpack_payload :
        (payload : List ℕ)
        → decompress codec b.compressor (compress codec a.compressor payload) ≡ payload
    unpack_payload payload =
        decompress-compress codec a.compressor b.compressor payload codec_laws h.a_compresses
          h.b_compresses

    sent_made_packet :
        (packet : List ℕ)
        → packet ≢ []
        → send_made_packet platform a packet ≡ (
          record a { tx_nonce = (a.tx_nonce + 2) % 2 ^ 64 },
          transmit a.endpoint (frame a packet) ∷ [],
        )
    unfolding send_made_packet
    sent_made_packet [] full = absurd (full refl)
    sent_made_packet (x ∷ packet) full = send_packet-frame (x ∷ packet) full

    handled :
        (packet : List ℕ) (parsed : ParsedPacket) (now : ℕ)
        → parse_packet packet ≡ some parsed
        → handle_decrypted_packet platform (record b { rx_nonce = a.tx_nonce }) packet now
          ≡ handle_parsed_packet platform (record b { rx_nonce = a.tx_nonce }) parsed now
    unfolding handle_decrypted_packet
    handled packet parsed now e = rw (e, handle_decrypted_packet)

    delivered :
        (payload : List ℕ)
        → payload ≢ []
        → deliver_payload platform b payload ≡ deliver payload ∷ []
    unfolding deliver_payload
    delivered [] full = absurd (full refl)
    delivered (x ∷ payload) full = rw h.b_delivers

  -- `a` with another reliability state, as far as `b` is concerned.
  Hears-reliability :
      (a b : State) (state : ReliableConnectionState floats.Float)
      → Hears a b
      → Hears (record a { reliability = state }) b
  Hears-reliability a b state h = record {
    reads = h.reads;
    a_compresses = h.a_compresses;
    b_compresses = h.b_compresses;
    a_sends = h.a_sends;
    b_delivers = h.b_delivers;
    nonce_fits = h.nonce_fits;
  }

  module _ (a b : State) (h : Hears a b) where
    -- An unreliable payload that is not empty, sent by `a`, leaves as one frame, and when that frame
    -- arrives at `b` it is delivered as it was; `b` changes only in the nonce that it saw last.
    pub unreliable_end_to_end :
        (payload : List ℕ) (sent received : ℕ)
        → payload ≢ []
        → (wire : List ℕ) × (send_application_data platform a payload false sent
            ≡ (record a { tx_nonce = (a.tx_nonce + 2) % 2 ^ 64 }, transmit a.endpoint wire ∷ []))
          × (process_incoming_raw_packet platform b wire received
              ≡ some (record b { rx_nonce = a.tx_nonce }, deliver payload ∷ []))
    unfolding send_application_data send_secure_data
    unreliable_end_to_end payload sent received full =
        let packed = compress codec a.compressor payload in
        let packet = create_unreliable_data_packet packed in
        (
          frame a packet,
          simp (h.reads.sender_ready, sent_made_packet a b h packet (unreliable_full packed)),
          receive-frame a b h packet received (unreliable_full packed)
              ∙ handled a b h packet _ received (parse_packet-create_plain.0 packed)
              ∙ unfold handle_parsed_packet in
                simp (unpack_payload a b h payload, delivered a b h payload full),
        )

    -- Let `a` and `b` have a secure channel on which `b` opens what `a` seals, both compressors be
    -- ready, the send callback of `a` and the application's of `b` be set, and the next nonce of `a`
    -- be below 2^64 and its header fields in range; let the libraries for sealing and compressing keep
    -- to their laws. Then a reliable payload that is not empty, sent by `a`, leaves as one frame and
    -- is tracked by `a`. When that frame arrives at `b`, `b` processes the header that `a` wrote;
    -- exactly if that finds the packet new, `b` delivers the payload as it was, and otherwise nothing.
    -- (Undefined is what `b` does exactly where it is for that header.)
    pub reliable_end_to_end :
        (payload : List ℕ) (sent received : ℕ)
        → payload ≢ []
        → IsHeader (outgoing_header a.reliability)
        → (wire : List ℕ) × (send_application_data platform a payload true sent ≡ (
          record a {
            tx_nonce = (a.tx_nonce + 2) % 2 ^ 64;
            reliability =
                (create_reliable_data_packet a.reliability
                  (compress codec a.compressor payload)
                  sent).0;
          },
          transmit a.endpoint wire ∷ [],
        ))
          × (process_incoming_raw_packet platform b wire received ≡ (
              process_incoming_header floats b.reliability (outgoing_header a.reliability) received
              >>= λ (state, fresh). some (
                record b { rx_nonce = a.tx_nonce; reliability = state },
                if fresh then deliver payload ∷ [] else [],
              )))
    unfolding send_application_data send_secure_data
    reliable_end_to_end payload sent received full v =
        let packed = compress codec a.compressor payload in
        let state = (create_reliable_data_packet a.reliability packed sent).0 in
        let packet = (create_reliable_data_packet a.reliability packed sent).1 in
        (
          frame a packet,
          simp (
            h.reads.sender_ready,
            sent_made_packet (record a { reliability = state }) b (Hears-reliability a b state h)
                packet (reliable_full a.reliability packed sent),
          ),
          receive-frame a b h packet received (reliable_full a.reliability packed sent)
              ∙ handled a b h packet _ received
                  (parse_packet-create_reliable_data_packet a.reliability packed sent v)
              ∙ unfold handle_parsed_packet in
                simp (unpack_payload a b h payload, delivered a b h payload full),
        )
