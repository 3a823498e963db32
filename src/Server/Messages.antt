-- ===== src/Server/Messages.antt =====
-- A message from the client's application to the server's, and back.
pub mod Steps
use rift_net.Base.{
  ℕ, ◌≡◌, ◌≢◌, refl, sym, ap, ◌∙◌, Bool, true, false, if◌then◌else◌, ◌>>=◌, some, List, [], ◌∷◌,
  map, is_empty,
}
use rift_net.Base.Dict.{number_key, lookup}
use rift_net.Client.{Client, ClientOutput, RiftResult, send_on}
use rift_net.Client
use rift_net.Compression.{CompressionLaws}
use rift_net.Connection.{
  Platform, Connection, Output, transmit, deliver, send_application_data,
  process_incoming_raw_packet,
}
use rift_net.Connection.Pipeline.{Hears, unreliable_end_to_end, reliable_end_to_end}
use rift_net.Protocol.Packet.{IsHeader}
use rift_net.Protocol.PacketFactory.RoundTrip.{outgoing_header}
use rift_net.Protocol.Reliability.{ReliableConnectionState, process_incoming_header}
use rift_net.Security.Encryptor.Channel.{CryptoLaws}
use rift_net.Server.{
  Server, ServerOutput, Fresh, find_or_create_connection, create_connection, process_on, send,
  send_found, send_to, on_raw_data_received, append_output,
}
use rift_net.Server
use rift_net.Server.Endpoint.{endpoint_key}
use rift_net.Server.Maps.{Registered, put}
use rift_net.Server.Messages.Steps.{client_sends, server_sends, server_receives, client_receives}

module _ (platform : Platform) (crypto_laws : CryptoLaws platform.crypto)
    (codec_laws : CompressionLaws platform.codec) where
  -- What `b` finds of the header of the next reliable packet of `a`, where there is one: the packet
  -- is new, with `state` afterwards.
  abbrev pub Finds :
      Bool
      → Connection platform
      → Connection platform
      → ℕ
      → ReliableConnectionState platform.floats.Float
      → Type 0
  Finds true a b now state =
      process_incoming_header platform.floats b.reliability (outgoing_header a.reliability) now
      ≡ some (state, true)
  Finds false a b now state = state ≡ b.reliability

  -- One connection to the other.
  connection_to_connection :
      (a b : Connection platform) (payload : List ℕ) (reliable : Bool) (sent received : ℕ)
      (state : ReliableConnectionState platform.floats.Float)
      → Hears platform crypto_laws codec_laws a b
      → payload ≢ []
      → IsHeader (outgoing_header a.reliability)
      → Finds reliable a b received state
      → (a' : Connection platform) × (wire : List ℕ) × (send_application_data platform a payload
            reliable sent
          ≡ (a', transmit a.endpoint wire ∷ []))
        × (process_incoming_raw_packet platform b wire received
            ≡ some (record b { rx_nonce = a.tx_nonce; reliability = state }, deliver payload ∷ []))
  connection_to_connection a b payload true sent received state h full v new =
      let (wire, leaves, arrives) =
        reliable_end_to_end platform crypto_laws codec_laws a b h payload sent received full v in
      (
        _,
        wire,
        leaves,
        arrives
            ∙ ap
                (λ r. r >>= λ (state, fresh). some (
                  record b { rx_nonce = a.tx_nonce; reliability = state },
                  if fresh then deliver payload ∷ [] else [],
                ))
                new,
      )
  connection_to_connection a b payload false sent received state h full v same =
      let (wire, leaves, arrives) =
        unreliable_end_to_end platform crypto_laws codec_laws a b h payload sent received full in
      (
        _,
        wire,
        leaves,
        arrives
            ∙ ap
                (λ state.
                  some
                    (record b { rx_nonce = a.tx_nonce; reliability = state }, deliver payload ∷ []))
                (sym same),
      )

  -- A message that a client's application sends, reliably or not, leaves the client as one datagram
  -- to the server; when that arrives from the client's address, the server's application gets
  -- exactly the message, under the client's id. (The client is connected, the server runs and has
  -- the client's address under `id`, their channel is secure, the message is not empty, the
  -- header fields are in range, and the server finds a reliable packet new.)
  pub client_to_server :
      (c : Client platform) (s : Server platform) (a b : Connection platform) (id : ℕ)
      (payload : List ℕ) (reliable : Bool) (sent : ℕ) (w : Fresh platform)
      (state : ReliableConnectionState platform.floats.Float)
      → c.is_running ≡ true
      → c.server_connection ≡ some a
      → s.is_running ≡ true
      → Registered s id b
      → Hears platform crypto_laws codec_laws a b
      → payload ≢ []
      → IsHeader (outgoing_header a.reliability)
      → Finds reliable a b w.now state
      → (a' : Connection platform) × (wire : List ℕ) × (Client.send platform c
            (some payload)
            reliable
            sent
          ≡ (
            record c { server_connection = some a' },
            RiftResult.success,
            ClientOutput.send_data a.endpoint wire ∷ [],
          ))
        × (on_raw_data_received platform s b.endpoint wire w
            ≡ some (
              put s id (record b { rx_nonce = a.tx_nonce; reliability = state }),
              ServerOutput.packet_received id payload ∷ [],
            ))
  client_to_server c s a b id payload reliable sent w state c_runs held s_runs entry h full v new =
      let (a', wire, leaves, arrives) =
        connection_to_connection a b payload reliable sent w.now state h full v new in
      (
        a',
        wire,
        client_sends platform c a payload reliable sent _ c_runs held full leaves,
        server_receives platform s id b wire w _ s_runs entry arrives,
      )

  -- A message that the server's application sends to a client, reliably or not, leaves the server as
  -- one datagram to the client's endpoint; when that arrives at the client, its application gets
  -- exactly the message. (The client has the id in the server's maps and is connected, their channel
  -- is secure, the message is not empty, the header fields are in range, and the client finds a
  -- reliable packet new.)
  pub server_to_client :
      (s : Server platform) (c : Client platform) (a b : Connection platform) (id : ℕ)
      (payload : List ℕ) (reliable : Bool) (sent received : ℕ)
      (state : ReliableConnectionState platform.floats.Float)
      → Registered s id a
      → c.is_running ≡ true
      → c.server_connection ≡ some b
      → Hears platform crypto_laws codec_laws a b
      → payload ≢ []
      → IsHeader (outgoing_header a.reliability)
      → Finds reliable a b received state
      → (a' : Connection platform) × (wire : List ℕ) × (send platform s id
            (some payload)
            reliable
            sent
          ≡ (put s id a', RiftResult.success, ServerOutput.send_data a.endpoint wire ∷ []))
        × (Client.on_raw_data_received platform c wire received
            ≡ some (
              record c {
                server_connection = some (record b { rx_nonce = a.tx_nonce; reliability = state });
              },
              ClientOutput.packet_received payload ∷ [],
            ))
  server_to_client s c a b id payload reliable sent received state entry runs held h full v new =
      let (a', wire, leaves, arrives) =
        connection_to_connection a b payload reliable sent received state h full v new in
      (
        a',
        wire,
        server_sends platform s id a payload reliable sent _ entry full leaves,
        client_receives platform c b wire received _ runs held arrives,
      )
