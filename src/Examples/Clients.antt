-- ===== src/Examples/Clients.antt =====
-- A client at a concrete input.
use mathlib.Core.Option.{get_or}
use rift_net.Base.{ℕ, ◌≡◌, refl, true, Option, some, List, [], ◌∷◌}
use rift_net.Client.{
  Client, ClientCall, ClientOutput, Surroundings, run_client, call_client, connect, new_client,
  send,
}
use rift_net.Client.Running.{IsReady, run_client-IsReady}
use rift_net.Examples.Toys.{toy_platform}

abbrev surroundings : Surroundings toy_platform
surroundings = record {
  init_succeeds = true;
  start_succeeds = true;
  generated = some 4;
  compressor_ready = true;
}

-- The client connects and sends two bytes.
abbrev client_calls : List (ClientCall toy_platform × ℕ)
client_calls =
    (ClientCall.connect_to (some (49 ∷ [])) 9000 surroundings, 1)
    ∷ (ClientCall.send_bytes (some (104 ∷ 105 ∷ [])) true, 2)
    ∷ []

ran_client : Option (Client toy_platform × List ClientOutput)
ran_client = run_client toy_platform (new_client toy_platform) client_calls

final_client : Client toy_platform × List ClientOutput
final_client = get_or ran_client (new_client toy_platform, [])

client_calls-run :
    run_client toy_platform (new_client toy_platform) client_calls
    ≡ some (final_client.0, final_client.1)
unfolding final_client ran_client run_client call_client connect send
client_calls-run = refl

runs : final_client.0.is_running ≡ true
unfolding final_client ran_client run_client call_client connect send new_client
runs = refl

run_client-IsReady_example : IsReady toy_platform final_client.0
run_client-IsReady_example =
    run_client-IsReady toy_platform client_calls final_client.0 final_client.1 client_calls-run runs
