-- ===== src/Examples/Toys.antt =====
-- Small instances of the libraries that the code uses: whole numbers for `float`, a cipher that marks
-- what it seals with its key, and a codec that packs nothing.
use rift_net.Base.{
  ℕ, ◌+◌, ◌-◌, ◌*◌, ◌/◌, refl, sym, ap, Bool, true, false, ltb, leb, ◌==◌, if◌then◌else◌, ==_self,
  Option, none, some, List, [], ◌∷◌, replicate, arith, ℤ, pos, negsuc,
}
use mathlib.Core.Option.{some-injective}
use rift_net.Protocol.Reliability.{Floats, ReliableConnectionState}
use rift_net.Protocol.Packet.{ReliabilityPacketHeader}
use rift_net.Protocol.Reliability.Timers.{FloatLaws}
use rift_net.Security.Encryptor.{CryptoLibrary, Encryptor}
use rift_net.Security.Encryptor.Channel.{CryptoLaws, Reads}
use rift_net.Compression.{CompressionLibrary, CompressionLaws}
use rift_net.Connection.{Platform, Connection, NetworkEndpoint}

abbrev of_ℤ : ℤ → ℕ
of_ℤ (pos n) = n
of_ℤ (negsuc n) = 0

abbrev pub toy_floats : Floats
toy_floats = record {
  Float = ℕ;
  literal = λ n d. n / d;
  of_integer = of_ℤ;
  add = λ a b. a + b;
  sub = λ a b. a - b;
  mul = λ a b. a * b;
  div = λ a b. a / b;
  abs = λ a. a;
  less = ltb;
  less_equal = leb;
}

pub toy_floats_laws : FloatLaws toy_floats
toy_floats_laws = record {
  literal_order = λ m n hm hn. ground arith;
  irreflexive = λ x. ground arith;
  doubling = λ x h. ground arith;
}

abbrev key_byte : List ℕ → Option ℕ
key_byte [] = none
key_byte (k ∷ rest) = some k

abbrev open_with : ℕ → List ℕ → Option (List ℕ)
open_with key [] = none
open_with key (x ∷ rest) = if x == key then some rest else none

abbrev pub toy_crypto : CryptoLibrary
toy_crypto = record {
  KeyPair = ℕ;
  Cipher = ℕ;
  get_public_key = λ k. replicate 32 k;
  compute_server_session_keys = λ k remote. some (1 ∷ [], 2 ∷ []);
  compute_client_session_keys = λ k remote. some (2 ∷ [], 1 ∷ []);
  make_cipher = key_byte;
  encrypt_with_nonce = λ key plain nonce. some (key ∷ plain);
  decrypt_with_nonce = λ key sealed nonce. open_with key sealed;
}

pub toy_crypto_laws : CryptoLaws toy_crypto
toy_crypto_laws = record {
  keys_agree = λ server client. ((1 ∷ [], 2 ∷ []), refl, refl);
  keys_make_ciphers = λ server client rx tx e. (
    (1, 2),
    ap (λ r. key_byte r.0) (sym (some-injective _ _ e)),
    ap (λ r. key_byte r.1) (sym (some-injective _ _ e)),
  );
  opens_sealed = λ key plain nonce size. (key ∷ plain, refl, refl, rw (==_self key) refl);
  public_key_size = λ keys. refl;
}

abbrev pub toy_codec : CompressionLibrary
toy_codec = record { compress = λ plain. some plain; decompress = λ packed. some packed }

pub toy_codec_laws : CompressionLaws toy_codec
toy_codec_laws = record { round_trip = λ plain. (plain, refl, refl) }

abbrev pub toy_platform : Platform
toy_platform = record { floats = toy_floats; crypto = toy_crypto; codec = toy_codec }

-- A state that has received the packets 8 and 10, and sends the packet 65535 next.
abbrev pub used_state : ReliableConnectionState ℕ
used_state = record {
  next_outgoing_sequence = 65535;
  highest_received_sequence = 10;
  received_sequence_bitfield = 5;
  smoothed_rtt_ms = 20;
  rtt_variance_ms = 5;
  retransmission_timeout_ms = 100;
  is_first_rtt_sample = false;
  unacknowledged_packets =
      record { sequence = 65534; time_sent = 1000; bytes = 6 ∷ []; retries = 1 } ∷ [];
  last_packet_received_time = 2000;
  has_pending_ack_to_send = false;
}

-- A header of sequence `n` that acknowledges 65534.
abbrev pub header_of : ℕ → ReliabilityPacketHeader
header_of n = record { sequence = n; ack = 65534; ack_bitfield = 0 }

-- A server's (or a client's) side of a channel whose keys are agreed.
abbrev pub secure_encryptor : Bool → Encryptor ℕ ℕ
secure_encryptor is_server = record {
  key_exchange = some (if is_server then 3 else 4);
  rx_encryptor = some (if is_server then 1 else 2);
  tx_encryptor = some (if is_server then 2 else 1);
  is_server = is_server;
  is_initialized = true;
}

pub secure_Reads : Reads (secure_encryptor true) (secure_encryptor false)
secure_Reads = record {
  cipher = 2;
  sender_ready = refl;
  sender_cipher = refl;
  receiver_ready = refl;
  receiver_cipher = refl;
}

abbrev pub an_endpoint : NetworkEndpoint
an_endpoint = record { ip_address = 49 ∷ []; port = 9000 }

-- A new connection with both callbacks set.
abbrev pub fresh_connection : Bool → Connection toy_platform
fresh_connection is_server = record {
  endpoint = an_endpoint;
  reliability = record used_state { unacknowledged_packets = [] };
  encryptor = record {
    key_exchange = some (if is_server then 3 else 4);
    rx_encryptor = none;
    tx_encryptor = none;
    is_server = is_server;
    is_initialized = false;
  };
  compressor = record { is_ready = true };
  tx_nonce = if is_server then 1 else 0;
  rx_nonce = if is_server then 0 else 1;
  handshake_started = false;
  has_send_callback = true;
  has_app_data_callback = true;
  pending_sends = [];
  pending_bytes = 0;
}

-- The same once the channel is secure.
abbrev pub secure_connection : Bool → Connection toy_platform
secure_connection is_server = record (fresh_connection is_server) {
  encryptor = secure_encryptor is_server;
  handshake_started = true;
}
