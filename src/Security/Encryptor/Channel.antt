-- ===== src/Security/Encryptor/Channel.antt =====
-- Two encryptors that were initialised with one another's public keys.
use rift_net.Base.{ℕ, ◌≡◌, ◌≢◌, refl, true, false, some, List, [], ◌∷◌, is_empty, length, arith}
use rift_net.Base.Bytes.{length-le_bytes}
use rift_net.Security.Encryptor.{
  CryptoLibrary, Encryptor, host_to_be64, expand_nonce, new_encryptor, derive_ciphers,
  initialize_session, encrypt, decrypt,
}

-- What the channel rests on: the two sides of a key exchange derive the same two keys, crosswise;
-- a derived key makes a cipher; and a cipher opens what it sealed under the same 12-byte nonce.
pub record CryptoLaws (library : CryptoLibrary) : Type 0 where
  pub keys_agree :
      (server client : library.KeyPair)
      → (keys : List ℕ × List ℕ) × (library.compute_server_session_keys server
            (library.get_public_key client)
          ≡ some (keys.0, keys.1))
        × (library.compute_client_session_keys client (library.get_public_key server)
            ≡ some (keys.1, keys.0))
  pub keys_make_ciphers :
      (server client : library.KeyPair) (rx tx : List ℕ)
      → library.compute_server_session_keys server (library.get_public_key client) ≡ some (rx, tx)
      → (ciphers : library.Cipher × library.Cipher) × (library.make_cipher rx ≡ some ciphers.0)
        × (library.make_cipher tx ≡ some ciphers.1)
  pub opens_sealed :
      (cipher : library.Cipher) (plain nonce : List ℕ)
      → length nonce ≡ 12
      → (sealed : List ℕ) × (library.encrypt_with_nonce cipher plain nonce ≡ some sealed)
        × (is_empty sealed ≡ false)
        × (library.decrypt_with_nonce cipher sealed nonce ≡ some plain)
  pub public_key_size : (keys : library.KeyPair) → length (library.get_public_key keys) ≡ 32

-- `b` can read what `a` sends.
pub record Reads {KeyPair Cipher : Type 0} (a b : Encryptor KeyPair Cipher) : Type 0 where
  pub cipher : Cipher
  pub sender_ready : a.is_initialized ≡ true
  pub sender_cipher : a.tx_encryptor ≡ some cipher
  pub receiver_ready : b.is_initialized ≡ true
  pub receiver_cipher : b.rx_encryptor ≡ some cipher

length-expand_nonce : (nonce : ℕ) → length (expand_nonce nonce) ≡ 12
unfolding expand_nonce
length-expand_nonce nonce = omega (arith, length-le_bytes 8 (host_to_be64 nonce))

module _ (library : CryptoLibrary) (laws : CryptoLaws library) where
  open library use {KeyPair, Cipher, get_public_key}

  -- A server and a client that are given one another's public keys both initialise, and each can
  -- read what the other sends.
  pub initialize_session-Reads :
      (server client : KeyPair)
      → let s =
          initialize_session library
            (new_encryptor library (some server) true)
            (get_public_key client) in
        let c =
          initialize_session library
            (new_encryptor library (some client) false)
            (get_public_key server) in
        (s.1 ≡ true) × (c.1 ≡ true) × Reads s.0 c.0 × Reads c.0 s.0
  unfolding initialize_session new_encryptor derive_ciphers
  initialize_session-Reads server client =
      let ((rx, tx), at_server, at_client) = laws.keys_agree server client in
      let ((rx_cipher, tx_cipher), makes_rx, makes_tx) =
        laws.keys_make_ciphers server client rx tx at_server in
      rw (at_server, at_client, makes_rx, makes_tx)
        (
          refl,
          refl,
          record {
            cipher = tx_cipher;
            sender_ready = refl;
            sender_cipher = refl;
            receiver_ready = refl;
            receiver_cipher = refl;
          },
          record {
            cipher = rx_cipher;
            sender_ready = refl;
            sender_cipher = refl;
            receiver_ready = refl;
            receiver_cipher = refl;
          },
        )

  -- A receiver that can read the sender gets back any plain text that is not empty, under the nonce
  -- with which it was sealed; what was sealed is never empty.
  pub decrypt-encrypt :
      (a b : Encryptor KeyPair Cipher) (plain : List ℕ) (nonce : ℕ)
      → Reads a b
      → plain ≢ []
      → (decrypt library b (encrypt library a plain nonce) nonce ≡ some plain)
        × (is_empty (encrypt library a plain nonce) ≡ false)
  unfolding encrypt decrypt
  decrypt-encrypt a b [] nonce r h = absurd (h refl)
  decrypt-encrypt a b (x ∷ plain) nonce r h =
      let (sealed, seals, full, opens) =
        laws.opens_sealed r.cipher (x ∷ plain) (expand_nonce nonce) (length-expand_nonce nonce) in
      rw (r.sender_ready, r.sender_cipher, r.receiver_ready, r.receiver_cipher, seals, opens)
        (refl, full)
