-- ===== src/Examples/Servers.antt =====
-- A server at concrete inputs.
use mathlib.Core.Option.{get_or}
use mathlib.Core.List.{Nodup}
use rift_net.Base.Counts.{remove}
use rift_net.Base.{
  ℕ, ◌+◌, ◌<◌, ◌^◌, ◌≡◌, ◌⊎◌, refl, true, false, Option, none, some, List, [], ◌∷◌, length, All,
  arith,
}
use rift_net.Base.Dict.{number_key, lookup, insert, erase}
use rift_net.Connection.{
  Connection, new_connection, set_send_callback, set_app_data_callback, process_incoming_raw_packet,
  begin_handshake, flush_pending_sends, maybe_handle_cleartext_handshake, accept_hello,
  initialize_session,
}
use rift_net.Security.Encryptor
use rift_net.Security.Encryptor.{new_encryptor, derive_ciphers, encrypt}
use rift_net.Security.Handshake.{build_hello, try_parse_hello}
use rift_net.Server.Endpoint.{endpoint_key}
use rift_net.Server.{
  create_connection, disconnect_found, Server, ServerOutput, Fresh, new_server, start, stop,
  find_or_create_connection, process_on, send, broadcast, remove_client, raise_disconnected,
}
use rift_net.Server.Maps.{Sound, Registered}
use rift_net.Server.Calls.{ServerCall, perform_call, run_calls}
use rift_net.Server.Roster.{Roster, empty_roster, follow, connected_ids, disconnected_ids}
use rift_net.Server.Roster.Refinement.{run_calls-follow, run_calls-Sound}
use rift_net.Server.Roster.Ids.{count_up, run_calls-ids}
use rift_net.Server.Senders.{destinations, run_calls-destinations}
use rift_net.Server.Sending.{send_each, keys, holds_bytes, broadcast-send_each, send_lem}
use rift_net.Client.{success, error_invalid_parameter}
use rift_net.Examples.Toys.{toy_platform, an_endpoint}

abbrev fresh : Fresh toy_platform
fresh = record { generated = some 3; compressor_ready = true; now = 5 }

-- A client's HELLO arrives, the server answers, the client is disconnected and comes back before it
-- is reported, a late call disconnects it again, and the server stops.
abbrev server_calls : List (ServerCall toy_platform)
server_calls =
    ServerCall.start_up true true
    ∷ ServerCall.find an_endpoint fresh
    ∷ ServerCall.handle 1 (build_hello (toy_platform.crypto.get_public_key 4)) 5
    ∷ ServerCall.disconnect 1
    ∷ ServerCall.find an_endpoint fresh
    ∷ ServerCall.report 1
    ∷ ServerCall.disconnect 1
    ∷ ServerCall.report 1
    ∷ ServerCall.shut_down false
    ∷ []

ran_server : Option (Server toy_platform × List ServerOutput)
ran_server = run_calls toy_platform (new_server toy_platform) server_calls

final_server : Server toy_platform × List ServerOutput
final_server = get_or ran_server (new_server toy_platform, [])

server_calls-run :
    run_calls toy_platform (new_server toy_platform) server_calls
    ≡ some (final_server.0, final_server.1)
unfolding final_server ran_server run_calls perform_call process_on lookup find_or_create_connection
    start new_server insert process_incoming_raw_packet set_app_data_callback set_send_callback
    new_connection new_encryptor
server_calls-run = refl

few_connect : 1 + length (connected_ids final_server.1) < 2 ^ 64
unfolding final_server ran_server run_calls perform_call process_on lookup find_or_create_connection
    start new_server insert process_incoming_raw_packet set_app_data_callback set_send_callback
    new_connection new_encryptor create_connection maybe_handle_cleartext_handshake try_parse_hello
    build_hello accept_hello initialize_session Encryptor.initialize_session derive_ciphers
    flush_pending_sends begin_handshake Encryptor.public_key_of remove_client raise_disconnected
    remove disconnect_found erase stop
few_connect = omega arith

run_calls-follow_example :
    (r : Roster) × (follow empty_roster final_server.1 ≡ some r)
    × (r.next ≡ final_server.0.next_client_id)
    × ((id pointer : ℕ) → lookup id final_server.0.clients_by_id ≡ some pointer → r.live id ≡ true)
run_calls-follow_example =
    run_calls-follow toy_platform final_server.0 server_calls final_server.1 server_calls-run
      few_connect

run_calls-Sound_example : Sound final_server.0
run_calls-Sound_example =
    run_calls-Sound toy_platform final_server.0 server_calls final_server.1 server_calls-run
      few_connect

run_calls-ids_example :
    (connected_ids final_server.1 ≡ count_up 1 (length (connected_ids final_server.1)))
    × Nodup (disconnected_ids final_server.1)
run_calls-ids_example =
    run_calls-ids toy_platform final_server.0 server_calls final_server.1 server_calls-run
      few_connect

run_calls-destinations_example :
    All (λ endpoint. endpoint ≡ an_endpoint) (destinations final_server.1)
run_calls-destinations_example =
    run_calls-destinations toy_platform (λ endpoint. endpoint ≡ an_endpoint) final_server.0
      server_calls final_server.1 (tt, (refl, (tt, (tt, (refl, (tt, (tt, (tt, (tt, tt)))))))))
      server_calls-run

-- The same server while the client is connected.
abbrev live_calls : List (ServerCall toy_platform)
live_calls =
    ServerCall.start_up true true
    ∷ ServerCall.find an_endpoint fresh
    ∷ ServerCall.handle 1 (build_hello (toy_platform.crypto.get_public_key 4)) 5
    ∷ []

ran_live : Option (Server toy_platform × List ServerOutput)
ran_live = run_calls toy_platform (new_server toy_platform) live_calls

live_server : Server toy_platform × List ServerOutput
live_server = get_or ran_live (new_server toy_platform, [])

live_calls-run :
    run_calls toy_platform (new_server toy_platform) live_calls
    ≡ some (live_server.0, live_server.1)
unfolding live_server ran_live run_calls perform_call process_on lookup find_or_create_connection
    start new_server insert process_incoming_raw_packet set_app_data_callback set_send_callback
    new_connection new_encryptor
live_calls-run = refl

one_connects : 1 + length (connected_ids live_server.1) < 2 ^ 64
unfolding live_server ran_live run_calls perform_call process_on lookup find_or_create_connection
    start new_server insert process_incoming_raw_packet set_app_data_callback set_send_callback
    new_connection new_encryptor create_connection maybe_handle_cleartext_handshake try_parse_hello
    build_hello accept_hello initialize_session Encryptor.initialize_session derive_ciphers
    flush_pending_sends begin_handshake Encryptor.public_key_of
one_connects = omega arith

live_server-Sound : Sound live_server.0
live_server-Sound =
    run_calls-Sound toy_platform live_server.0 live_calls live_server.1 live_calls-run one_connects

broadcast-send_each_example :
    broadcast toy_platform live_server.0 (some (104 ∷ [])) true 6
    ≡ send_each toy_platform live_server.0
        (keys live_server.0.clients_by_id)
        (some (104 ∷ []))
        true
        6
broadcast-send_each_example =
    broadcast-send_each toy_platform live_server.0 (some (104 ∷ [])) true 6
      live_server-Sound.distinct

send_lem_example :
    let (s', result, out) = send toy_platform live_server.0 1 (some (104 ∷ [])) true 6 in
    ((holds_bytes (some (104 ∷ [])) ≡ true)
      × (c : Connection toy_platform) × Registered live_server.0 1 c
      × (result ≡ success)
      × All (λ endpoint. endpoint ≡ c.endpoint) (destinations out))
    ⊎ (((holds_bytes (some (104 ∷ [])) ≡ false) ⊎ (lookup 1 live_server.0.clients_by_id ≡ none))
        × (result ≡ error_invalid_parameter)
        × (s' ≡ live_server.0)
        × (out ≡ []))
send_lem_example = send_lem toy_platform live_server.0 1 (some (104 ∷ [])) true 6 live_server-Sound
