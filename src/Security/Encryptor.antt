-- ===== src/Security/Encryptor.antt =====
-- RiftNet/src/security/Crypto: the key exchange and the two ciphers of a connection, over the
-- functions of the RiftEncrypt library, whose source is not in the repository.
pub mod Channel
pub mod Nonce
pub mod Sealing
use rift_net.Base.{
  ℕ, Bool, true, false, if◌then◌else◌, ◌>>=◌, Option, none, some, List, [], ◌∷◌, ◌++◌, replicate,
  is_empty,
}
use rift_net.Base.Bytes.{le_bytes, byte_swap}

-- `none` is an exception.
pub record CryptoLibrary : Type 1 where
  pub KeyPair : Type 0
  pub Cipher : Type 0
  pub get_public_key : KeyPair → List ℕ
  pub compute_server_session_keys : KeyPair → List ℕ → Option (List ℕ × List ℕ)
  pub compute_client_session_keys : KeyPair → List ℕ → Option (List ℕ × List ℕ)
  pub make_cipher : List ℕ → Option Cipher
  pub encrypt_with_nonce : Cipher → List ℕ → List ℕ → Option (List ℕ)
  pub decrypt_with_nonce : Cipher → List ℕ → List ℕ → Option (List ℕ)

-- Null pointers are `none`.
pub record Encryptor (KeyPair Cipher : Type 0) : Type 0 where
  pub key_exchange : Option KeyPair
  pub rx_encryptor : Option Cipher
  pub tx_encryptor : Option Cipher
  pub is_server : Bool
  pub is_initialized : Bool

-- The host is little-endian: a swap of the bytes, both ways.
unfoldable pub host_to_be64 : ℕ → ℕ
host_to_be64 x = byte_swap 8 x

-- The 12 bytes of a nonce: four zeros, then the 64 bits highest byte first.
unfoldable pub expand_nonce : ℕ → List ℕ
expand_nonce nonce = replicate 4 0 ++ le_bytes 8 (host_to_be64 nonce)

module _ (library : CryptoLibrary) where
  open library use {
    KeyPair, Cipher, get_public_key, compute_server_session_keys, compute_client_session_keys,
    make_cipher, encrypt_with_nonce, decrypt_with_nonce,
  }

  -- The argument is what `generate_keypair` gave.
  unfoldable pub new_encryptor : Option KeyPair → Bool → Encryptor KeyPair Cipher
  new_encryptor generated is_server = record {
    key_exchange = generated;
    rx_encryptor = none;
    tx_encryptor = none;
    is_server = is_server;
    is_initialized = false;
  }

  -- The part of `InitializeSession` that may throw.
  unfoldable pub derive_ciphers : Bool → KeyPair → List ℕ → Option (Cipher × Cipher)
  derive_ciphers is_server keys remote =
      (if is_server
        then compute_server_session_keys keys remote
        else compute_client_session_keys keys remote)
      >>= λ (rx_key, tx_key).
          make_cipher rx_key >>= λ rx. make_cipher tx_key >>= λ tx. some (rx, tx)

  install : Encryptor KeyPair Cipher → Option (Cipher × Cipher) → Encryptor KeyPair Cipher × Bool
  install e none = (record e { is_initialized = false }, false)
  install e (some (rx, tx)) =
      (record e { rx_encryptor = some rx; tx_encryptor = some tx; is_initialized = true }, true)

  unfoldable pub initialize_session :
      Encryptor KeyPair Cipher → List ℕ → Encryptor KeyPair Cipher × Bool
  unfolding install
  initialize_session e remote = elim e.key_exchange [
    | none ↦ (record e { is_initialized = false }, false)
    | some keys ↦ install e (derive_ciphers e.is_server keys remote)
  ]

  unfoldable pub public_key_of : Encryptor KeyPair Cipher → List ℕ
  public_key_of e = elim e.key_exchange [ none ↦ [] | some keys ↦ get_public_key keys ]

  -- The empty vector stands for a failure.
  unfoldable pub encrypt : Encryptor KeyPair Cipher → List ℕ → ℕ → List ℕ
  encrypt e plain nonce =
      if e.is_initialized
      then elim e.tx_encryptor [
        | none ↦ []
        | some cipher ↦ elim (encrypt_with_nonce cipher plain (expand_nonce nonce)) [
          | none ↦ []
          | some out ↦ out
        ]
      ]
      else []

  -- The plain text of a `Decrypt` that returns true.
  unfoldable pub decrypt : Encryptor KeyPair Cipher → List ℕ → ℕ → Option (List ℕ)
  decrypt e sealed nonce =
      if e.is_initialized
      then (e.rx_encryptor >>= λ cipher.
          decrypt_with_nonce cipher sealed (expand_nonce nonce) >>= λ out.
          if is_empty out then none else some out)
      else none
