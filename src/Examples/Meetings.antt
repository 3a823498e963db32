-- ===== src/Examples/Meetings.antt =====
-- A client that connects to a server, at a concrete input.
use rift_net.Base.{ℕ, ◌≡◌, refl, true, none, some, List, [], ◌∷◌}
use rift_net.Base.Dict.{lookup}
use rift_net.Client.{Client, ClientOutput, RiftResult, connect, new_client, primer}
use rift_net.Client
use rift_net.Connection.{NetworkEndpoint, Connection}
use rift_net.Security.Encryptor.Channel.{Reads}
use rift_net.Security.Handshake.{build_hello}
use rift_net.Server.{Server, ServerOutput, Fresh, new_server, on_raw_data_received}
use rift_net.Server.FirstMessage.{first_message}
use rift_net.Server.Maps.{put}
use rift_net.Server.Meeting.{client_side, server_side, connected_client, joined_server}
use rift_net.Examples.Toys.{toy_platform, toy_crypto_laws, toy_codec_laws, an_endpoint}

abbrev server_at : NetworkEndpoint
server_at = record { ip_address = 50 ∷ []; port = 9001 }

abbrev running_server : Server toy_platform
running_server = record (new_server toy_platform) { is_running = true; has_update_thread = true }

abbrev server_hello : List ℕ
server_hello = build_hello (toy_platform.crypto.get_public_key 3)

abbrev client_hello : List ℕ
client_hello = build_hello (toy_platform.crypto.get_public_key 4)

abbrev client_after : Client toy_platform
client_after = connected_client toy_platform 3 4 server_at an_endpoint true true 1

abbrev server_after : Server toy_platform
server_after = joined_server toy_platform 3 4 server_at an_endpoint true true running_server 2

abbrev later : Fresh toy_platform
later = record { generated = none; compressor_ready = true; now = 4 }

first_message_example :
    (connect toy_platform
        (new_client toy_platform)
        (some (50 ∷ []))
        9001
        (client_side toy_platform 3 4 server_at an_endpoint true true)
        1
      ≡ (
        client_after,
        RiftResult.success,
        ClientOutput.client_connected ∷ ClientOutput.send_data server_at client_hello ∷ [],
      ))
    × (on_raw_data_received toy_platform running_server an_endpoint client_hello
          (server_side toy_platform 3 4 server_at an_endpoint true true 2)
        ≡ some (
          server_after,
          ServerOutput.client_connected 1 ∷ ServerOutput.send_data an_endpoint server_hello ∷ [],
        ))
    × (a' : Connection toy_platform) × (b' : Connection toy_platform) × (wire : List ℕ)
    × (Client.on_raw_data_received toy_platform client_after server_hello 3
        ≡ some (
          record client_after { server_connection = some a' },
          ClientOutput.send_data server_at wire ∷ [],
        ))
    × (on_raw_data_received toy_platform server_after an_endpoint wire later
        ≡ some (put server_after 1 b', ServerOutput.packet_received 1 primer ∷ []))
    × Reads a'.encryptor b'.encryptor
    × Reads b'.encryptor a'.encryptor
unfolding new_client new_server lookup
first_message_example =
    first_message toy_platform toy_crypto_laws toy_codec_laws 3 4 server_at an_endpoint
      (new_client toy_platform) running_server 1 2 3 later refl refl refl refl
