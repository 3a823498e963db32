-- ===== src/Examples/Messages.antt =====
-- A message each way, at a concrete input.
use mathlib.Core.Option.{get_or}
use rift_net.Base.{ℕ, ◌≡◌, ◌≢◌, refl, Bool, true, false, Option, none, some, List, [], ◌∷◌, arith}
use rift_net.Base.Dict.{lookup}
use rift_net.Client.{Client, ClientOutput, RiftResult}
use rift_net.Client
use rift_net.Connection.{
  Connection, transmit, deliver, send_application_data, process_incoming_raw_packet,
}
use rift_net.Connection.Pipeline.{Hears, unreliable_end_to_end}
use rift_net.Protocol.Packet.{IsHeader}
use rift_net.Protocol.PacketFactory.RoundTrip.{outgoing_header}
use rift_net.Protocol.Reliability.{
  ReliableConnectionState, process_incoming_header, process_acks, is_acked, update_receive_window,
  is_sequence_more_recent, sample_acked,
}
use rift_net.Security.Encryptor.Channel.{Reads}
use rift_net.Server.{Server, ServerOutput, send, on_raw_data_received}
use rift_net.Server.Maps.{Registered, put}
use rift_net.Server.Calls.{ServerCall, run_calls}
use rift_net.Server.Late.{without, packet_after_disconnect}
use rift_net.Server.Messages.{client_to_server, server_to_client}
use rift_net.Examples.Toys.{
  toy_platform, toy_crypto_laws, toy_codec_laws, secure_connection, secure_encryptor, secure_Reads,
  an_endpoint,
}

abbrev server_side : Connection toy_platform
server_side = secure_connection true

abbrev client_side : Connection toy_platform
client_side = secure_connection false

abbrev a_client : Client toy_platform
a_client = record {
  server_connection = some client_side;
  is_running = true;
  has_update_thread = true;
  last_keepalive = 0;
}

-- Its client has the id 7.
abbrev a_server : Server toy_platform
a_server = record {
  objects = (7, server_side) ∷ [];
  clients_by_id = (7, 7) ∷ [];
  clients_by_endpoint = (an_endpoint, 7) ∷ [];
  next_client_id = 8;
  is_running = true;
  has_update_thread = true;
  leaving = [];
}

entry : Registered a_server 7 server_side
unfolding lookup
entry = record { by_id = refl; object = refl; by_endpoint = refl }

client_Reads : Reads (secure_encryptor false) (secure_encryptor true)
client_Reads = record {
  cipher = 1;
  sender_ready = refl;
  sender_cipher = refl;
  receiver_ready = refl;
  receiver_cipher = refl;
}

server-Hears : Hears toy_platform toy_crypto_laws toy_codec_laws client_side server_side
server-Hears = record {
  reads = client_Reads;
  a_compresses = refl;
  b_compresses = refl;
  a_sends = refl;
  b_delivers = refl;
  nonce_fits = omega arith;
}

client-Hears : Hears toy_platform toy_crypto_laws toy_codec_laws server_side client_side
client-Hears = record {
  reads = secure_Reads;
  a_compresses = refl;
  b_compresses = refl;
  a_sends = refl;
  b_delivers = refl;
  nonce_fits = omega arith;
}

-- Both sides have the same reliability state, in which 10 and 8 have come and 65535 is next.
side-IsHeader : IsHeader (outgoing_header server_side.reliability)
side-IsHeader = record {
  sequence_fits = omega arith;
  ack_fits = omega arith;
  bitfield_fits = omega arith;
}

abbrev found : Option (ReliableConnectionState ℕ × Bool)
found =
    process_incoming_header toy_platform.floats server_side.reliability
      (outgoing_header client_side.reliability) 6

after : ReliableConnectionState ℕ
after = (get_or found (server_side.reliability, false)).0

finds : found ≡ some (after, true)
unfolding after process_incoming_header process_acks is_acked update_receive_window
    is_sequence_more_recent sample_acked
finds = refl

abbrev words : List ℕ
words = 104 ∷ 105 ∷ []

words_full : words ≢ []
words_full e = cc e

client_to_server_example :
    (a' : Connection toy_platform) × (wire : List ℕ) × (Client.send toy_platform a_client
        (some words)
        true
        5
      ≡ (
        record a_client { server_connection = some a' },
        RiftResult.success,
        ClientOutput.send_data an_endpoint wire ∷ [],
      ))
    × (on_raw_data_received toy_platform a_server an_endpoint wire
          (record { generated = none; compressor_ready = true; now = 6 })
        ≡ some (
          put a_server 7 (record server_side { rx_nonce = 0; reliability = after }),
          ServerOutput.packet_received 7 words ∷ [],
        ))
client_to_server_example =
    client_to_server toy_platform toy_crypto_laws toy_codec_laws a_client a_server client_side
      server_side 7 words true 5 (record { generated = none; compressor_ready = true; now = 6 })
      after refl refl refl entry server-Hears words_full side-IsHeader finds

server_to_client_example :
    (a' : Connection toy_platform) × (wire : List ℕ) × (send toy_platform a_server 7
        (some words)
        false
        5
      ≡ (put a_server 7 a', RiftResult.success, ServerOutput.send_data an_endpoint wire ∷ []))
    × (Client.on_raw_data_received toy_platform a_client wire 6
        ≡ some (
          record a_client { server_connection = some (record client_side { rx_nonce = 1 }) },
          ClientOutput.packet_received words ∷ [],
        ))
server_to_client_example =
    server_to_client toy_platform toy_crypto_laws toy_codec_laws a_server a_client server_side
      client_side 7 words false 5 6 client_side.reliability entry refl refl client-Hears words_full
      side-IsHeader refl

a_frame :
    (wire : List ℕ) × (send_application_data toy_platform client_side words false 5
      ≡ (record client_side { tx_nonce = 2 }, transmit an_endpoint wire ∷ []))
    × (process_incoming_raw_packet toy_platform server_side wire 6
        ≡ some (record server_side { rx_nonce = 0 }, deliver words ∷ []))
a_frame =
    unreliable_end_to_end toy_platform toy_crypto_laws toy_codec_laws client_side server_side
      server-Hears words 5 6 words_full

packet_after_disconnect_example :
    run_calls toy_platform a_server
      (ServerCall.disconnect 7 ∷ ServerCall.report 7 ∷ ServerCall.handle 7 a_frame.0 6 ∷ [])
    ≡ some (
      put (without a_server 7 an_endpoint) 7 (record server_side { rx_nonce = 0 }),
      ServerOutput.client_disconnected 7 ∷ ServerOutput.packet_received 7 words ∷ [],
    )
packet_after_disconnect_example =
    packet_after_disconnect toy_platform a_server 7 server_side
      (record server_side { rx_nonce = 0 }) a_frame.0 words 6 entry a_frame.2
