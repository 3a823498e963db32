-- ===== src/Examples/Connections.antt =====
-- Connections at concrete inputs.
use mathlib.Core.Option.{get_or}
use rift_net.Base.{
  ℕ, ◌+◌, ◌%◌, ◌^◌, ◌≡◌, ◌≢◌, refl, true, false, if◌then◌else◌, ◌>>=◌, Option, some, List, [], ◌∷◌,
  arith, All,
}
use rift_net.Protocol.Packet.{IsHeader}
use rift_net.Protocol.PacketFactory.{create_reliable_data_packet}
use rift_net.Protocol.PacketFactory.RoundTrip.{outgoing_header}
use rift_net.Protocol.Reliability.{process_incoming_header}
use rift_net.Security.Handshake.{build_hello}
use rift_net.Security.Encryptor.Channel.{Reads}
use rift_net.Security.Encryptor.{new_encryptor, derive_ciphers, encrypt}
use rift_net.Security.Encryptor
use rift_net.Compression.{compress}
use rift_net.Connection.{
  Connection, PendingSend, Output, transmit, deliver, new_connection, begin_handshake,
  flush_pending_sends, send_application_data, process_incoming_raw_packet, drop_oldest,
}
use rift_net.Connection.Queue.{LongestEnd, drop_oldest-LongestEnd, total}
use rift_net.Connection.Pipeline.{Hears, reliable_end_to_end}
use rift_net.Connection.Establish.{handshake_establishes}
use rift_net.Connection.Race.{SendStep, run_sends, frame_under, Sealable, run_sends-same_nonce}
use rift_net.Connection.Emissions.Calls.{Call, run}
use rift_net.Examples.Toys.{
  toy_platform, toy_crypto_laws, toy_codec_laws, secure_Reads, an_endpoint, fresh_connection,
  secure_connection,
}

-- A large payload and a small one.
abbrev queue : List PendingSend
queue =
    record { bytes = 1 ∷ []; reliable = true }
    ∷ record { bytes = 2 ∷ 3 ∷ []; reliable = false }
    ∷ []

queue-total : 3 ≡ total queue
unfolding total
queue-total = refl

drop_oldest-LongestEnd_example : LongestEnd queue (drop_oldest queue 3).0 (drop_oldest queue 3).1
drop_oldest-LongestEnd_example = drop_oldest-LongestEnd queue 3 queue-total (omega arith)

abbrev alice : Connection toy_platform
alice = secure_connection true

abbrev bob : Connection toy_platform
bob = secure_connection false

bob-Hears : Hears toy_platform toy_crypto_laws toy_codec_laws alice bob
bob-Hears = record {
  reads = secure_Reads;
  a_compresses = refl;
  b_compresses = refl;
  a_sends = refl;
  b_delivers = refl;
  nonce_fits = omega arith;
}

abbrev greeting : List ℕ
greeting = 104 ∷ 105 ∷ []

greeting_full : greeting ≢ []
greeting_full e = cc e

alice-IsHeader : IsHeader (outgoing_header alice.reliability)
alice-IsHeader = record {
  sequence_fits = omega arith;
  ack_fits = omega arith;
  bitfield_fits = omega arith;
}

reliable_end_to_end_example :
    (wire : List ℕ) × (send_application_data toy_platform alice greeting true 5 ≡ (
      record alice {
        tx_nonce = (alice.tx_nonce + 2) % 2 ^ 64;
        reliability =
            (create_reliable_data_packet alice.reliability
              (compress toy_platform.codec alice.compressor greeting)
              5).0;
      },
      transmit an_endpoint wire ∷ [],
    ))
    × (process_incoming_raw_packet toy_platform bob wire 6 ≡ (
        process_incoming_header toy_platform.floats bob.reliability
          (outgoing_header alice.reliability)
          6
        >>= λ (state, fresh). some (
          record bob { rx_nonce = alice.tx_nonce; reliability = state },
          if fresh then deliver greeting ∷ [] else [],
        )))
reliable_end_to_end_example =
    reliable_end_to_end toy_platform toy_crypto_laws toy_codec_laws alice bob bob-Hears greeting 5 6
      greeting_full alice-IsHeader

abbrev server : Connection toy_platform
server = fresh_connection true

abbrev client : Connection toy_platform
client = fresh_connection false

handshake_establishes_example :
    (begin_handshake toy_platform client ≡ (
      record client { handshake_started = true },
      transmit an_endpoint (build_hello (toy_platform.crypto.get_public_key 4)) ∷ [],
    ))
    × (process_incoming_raw_packet toy_platform server
          (build_hello (toy_platform.crypto.get_public_key 4))
          5
        ≡ some
            (alice, transmit an_endpoint (build_hello (toy_platform.crypto.get_public_key 3)) ∷ []))
    × (process_incoming_raw_packet toy_platform
          (record client { handshake_started = true })
          (build_hello (toy_platform.crypto.get_public_key 3))
          6
        ≡ some (flush_pending_sends toy_platform bob 6))
    × Reads bob.encryptor alice.encryptor
    × Reads alice.encryptor bob.encryptor
unfolding Encryptor.initialize_session derive_ciphers new_encryptor
handshake_establishes_example =
    handshake_establishes toy_platform toy_crypto_laws 3 4 server client refl refl refl refl refl
      refl refl 5 6

-- A new server whose application sends something before the channel is secure.
abbrev new_server : Connection toy_platform
new_server = new_connection toy_platform an_endpoint true (some 3) true 0

-- The callbacks are set, the application sends, the client's HELLO arrives, time passes.
abbrev calls : List (Call × ℕ)
calls =
    (Call.set_callbacks, 1)
    ∷ (Call.send greeting true, 2)
    ∷ (Call.receive (build_hello (toy_platform.crypto.get_public_key 4)), 3)
    ∷ (Call.tick, 4)
    ∷ []

ran : Option (Connection toy_platform × List Output)
ran = run toy_platform new_server calls

after_calls : Connection toy_platform × List Output
after_calls = get_or ran (new_server, [])

-- Two threads load the nonce of `alice` before the first of them advances it.
abbrev two_packets : List (List ℕ)
two_packets = (104 ∷ []) ∷ (105 ∷ []) ∷ []

two_sealed : All (Sealable toy_platform alice) two_packets
unfolding encrypt
two_sealed = (refl, (refl, tt))

run_sends-same_nonce_example :
    run_sends toy_platform alice [] (
      SendStep.loads (104 ∷ [])
      ∷ SendStep.loads (105 ∷ [])
      ∷ SendStep.finishes
      ∷ SendStep.finishes
      ∷ [])
    ≡ (
      record alice { tx_nonce = 5 },
      [],
      frame_under toy_platform alice 1 (104 ∷ [])
          ∷ frame_under toy_platform alice 1 (105 ∷ [])
          ∷ [],
    )
run_sends-same_nonce_example =
    run_sends-same_nonce toy_platform alice two_packets refl two_sealed (omega arith)
