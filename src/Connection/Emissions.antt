-- ===== src/Connection/Emissions.antt =====
-- What a connection can put on the wire, and under which nonces.
pub mod Operations
pub mod Calls
pub mod Nonces
use mathlib.Core.Path.{subst}
use rift_net.Base.{
  ◌∙◌, ℕ, suc, ◌+◌, ◌*◌, ◌%◌, ◌<◌, ◌≤◌, ◌^◌, ◌≡◌, ◌≢◌, refl, sym, ap, ◌∙◌, Bool, true, false, not,
  ◌==◌, if◌then◌else◌, Bool-cases, inl, inr, List, [], ◌∷◌, ◌++◌, length, is_empty, arith,
}
use rift_net.Base.Bytes.{le_bytes}
use rift_net.Security.Handshake.{build_hello}
use rift_net.Security.Encryptor.{
  Encryptor, host_to_be64, public_key_of, encrypt, initialize_session,
}
use rift_net.Security.Encryptor.Sealing.{SealedBy, encrypt-SealedBy}
use rift_net.Connection.{
  Platform, Connection, NetworkEndpoint, Output, transmit, deliver, begin_handshake, send_packet,
}

-- From a state with the encryptor `e`, in which the handshake was (or was not) begun and `nonce` is
-- the next one, the calls `out` were made, packets were sealed under `nonces`, and the state is now
-- `e'`, `begun'` and `nonce'`. A transmission goes to `endpoint`. It is the HELLO of the
-- encryptor's own public key, or a frame: the next nonce, and a packet sealed under it with the
-- encryptor's sending cipher at that moment. The encryptor only changes by a session set up with a
-- remote key.
pub data Emits (platform : Platform) (endpoint : NetworkEndpoint)
    : Encryptor platform.crypto.KeyPair platform.crypto.Cipher
      → Bool
      → ℕ
      → List Output
      → List ℕ
      → Encryptor platform.crypto.KeyPair platform.crypto.Cipher
      → Bool
      → ℕ
      → Type 0 where
  done :
      {e : Encryptor platform.crypto.KeyPair platform.crypto.Cipher} {begun : Bool} {nonce : ℕ}
      → Emits platform endpoint e begun nonce [] [] e begun nonce
  handed :
      {e e' : Encryptor platform.crypto.KeyPair platform.crypto.Cipher} {begun begun' : Bool}
      {nonce nonce' : ℕ} {out : List Output} {nonces : List ℕ} (payload : List ℕ)
      → Emits platform endpoint e begun nonce out nonces e' begun' nonce'
      → Emits platform endpoint e begun nonce (deliver payload ∷ out) nonces e' begun' nonce'
  silent :
      {e e' : Encryptor platform.crypto.KeyPair platform.crypto.Cipher} {begun begun' : Bool}
      {nonce nonce' : ℕ} {out : List Output} {nonces : List ℕ}
      → Emits platform endpoint e true nonce out nonces e' begun' nonce'
      → Emits platform endpoint e begun nonce out nonces e' begun' nonce'
  rekeyed :
      {e e' : Encryptor platform.crypto.KeyPair platform.crypto.Cipher} {begun begun' : Bool}
      {nonce nonce' : ℕ} {out : List Output} {nonces : List ℕ} (remote : List ℕ)
      → Emits platform endpoint
          (initialize_session platform.crypto e remote).0
          begun
          nonce
          out
          nonces
          e'
          begun'
          nonce'
      → Emits platform endpoint e begun nonce out nonces e' begun' nonce'
  hello :
      {e e' : Encryptor platform.crypto.KeyPair platform.crypto.Cipher} {begun begun' : Bool}
      {nonce nonce' : ℕ} {out : List Output} {nonces : List ℕ}
      → begun ≡ false
      → length (public_key_of platform.crypto e) ≡ 32
      → Emits platform endpoint e true nonce out nonces e' begun' nonce'
      → Emits platform endpoint e begun nonce
          (transmit endpoint (build_hello (public_key_of platform.crypto e)) ∷ out)
          nonces
          e'
          begun'
          nonce'
  frame :
      {e e' : Encryptor platform.crypto.KeyPair platform.crypto.Cipher} {begun begun' : Bool}
      {nonce nonce' : ℕ} {out : List Output} {nonces : List ℕ} {bytes : List ℕ} (packet : List ℕ)
      → SealedBy platform.crypto e packet nonce bytes
      → Emits platform endpoint e begun ((nonce + 2) % 2 ^ 64) out nonces e' begun' nonce'
      → Emits platform endpoint e begun nonce
          (transmit endpoint (le_bytes 8 (host_to_be64 nonce) ++ bytes) ∷ out)
          (nonce ∷ nonces)
          e'
          begun'
          nonce'
  unsent :
      {e e' : Encryptor platform.crypto.KeyPair platform.crypto.Cipher} {begun begun' : Bool}
      {nonce nonce' : ℕ} {out : List Output} {nonces : List ℕ}
      → Emits platform endpoint e begun ((nonce + 2) % 2 ^ 64) out nonces e' begun' nonce'
      → Emits platform endpoint e begun nonce out (nonce ∷ nonces) e' begun' nonce'

-- One stretch after another.
pub Emits-append :
    {platform : Platform} {endpoint : NetworkEndpoint}
    {e1 e2 e3 : Encryptor platform.crypto.KeyPair platform.crypto.Cipher} {b1 b2 b3 : Bool}
    {n1 n2 n3 : ℕ} {out more : List Output} {nonces later : List ℕ}
    → Emits platform endpoint e1 b1 n1 out nonces e2 b2 n2
    → Emits platform endpoint e2 b2 n2 more later e3 b3 n3
    → Emits platform endpoint e1 b1 n1 (out ++ more) (nonces ++ later) e3 b3 n3
Emits-append done next = next
Emits-append (handed payload rest) next = handed payload (Emits-append rest next)
Emits-append (silent rest) next = silent (Emits-append rest next)
Emits-append (hello new size rest) next = hello new size (Emits-append rest next)
Emits-append (frame packet sealed rest) next = frame packet sealed (Emits-append rest next)
Emits-append (rekeyed remote rest) next = rekeyed remote (Emits-append rest next)
Emits-append (unsent rest) next = unsent (Emits-append rest next)

module _ (platform : Platform) where
  abbrev State : Type 0
  State = Connection platform

  -- An operation that takes `c` to `c'` with the calls `out` does only such things, and leaves the
  -- address of the peer.
  abbrev pub Does : State → List Output → State → Type 0
  Does c out c' =
      (c'.endpoint ≡ c.endpoint)
      × (nonces : List ℕ) × Emits platform c.endpoint c.encryptor c.handshake_started c.tx_nonce out
          nonces c'.encryptor c'.handshake_started c'.tx_nonce

  pub Does-nothing : (c : State) → Does c [] c
  Does-nothing c = (refl, [], done)

  pub Does-append :
      (c1 c2 c3 : State) {out more : List Output}
      → Does c1 out c2
      → Does c2 more c3
      → Does c1 (out ++ more) c3
  Does-append c1 c2 c3 {more = more} (same, nonces, first) (same', later, next) = (
    same' ∙ same,
    nonces ++ later,
    Emits-append first (
        subst
          (λ endpoint.
            Emits platform endpoint c2.encryptor c2.handshake_started c2.tx_nonce more later
              c3.encryptor c3.handshake_started c3.tx_nonce)
          same next),
  )

  -- A test, whichever way it goes.
  pub if-Does :
      (c : State) (t : Bool) (x y : State × List Output)
      → (t ≡ true → Does c x.1 x.0)
      → (t ≡ false → Does c y.1 y.0)
      → Does c (if t then x else y).1 (if t then x else y).0
  if-Does c true x y dx dy = dx refl
  if-Does c false x y dx dy = dy refl

  -- With the flag set and nothing said.
  marks : (c : State) → Does c [] (record c { handshake_started = true })
  marks c = (refl, [], silent done)

  greets :
      (c : State)
      → c.handshake_started ≡ false
      → length (public_key_of platform.crypto c.encryptor) ≡ 32
      → Does c
          (transmit c.endpoint (build_hello (public_key_of platform.crypto c.encryptor)) ∷ [])
          (record c { handshake_started = true })
  greets c new size = (refl, [], hello new size done)

  -- A session is set up, well or not.
  pub rekeys :
      (c : State) (remote : List ℕ)
      → Does c []
          (record c { encryptor = (initialize_session platform.crypto c.encryptor remote).0 })
  rekeys c remote = (refl, [], rekeyed remote done)

  pub begin_handshake-Does :
      (c : State) → Does c (begin_handshake platform c).1 (begin_handshake platform c).0
  unfolding begin_handshake
  begin_handshake-Does c =
      let key = public_key_of platform.crypto c.encryptor in
      if-Does c c.handshake_started _ _ (λ begun. Does-nothing c)
        (λ new.
          if-Does c (not c.has_send_callback) _ _ (λ not_set. marks c)
            (λ sends.
              if-Does c (not (length key == 32)) _ _ (λ other. marks c)
                (λ size.
                  if-Does c (is_empty (build_hello key)) _ _ (λ none_built. marks c)
                    (λ built. greets c new (ground arith)))))

  sealed_frame :
      (c : State) (packet : List ℕ) (sends : Bool)
      → is_empty (encrypt platform.crypto c.encryptor packet c.tx_nonce) ≡ false
      → Does c
          (if sends
            then transmit c.endpoint (
                le_bytes 8 (host_to_be64 c.tx_nonce)
                ++ encrypt platform.crypto c.encryptor packet c.tx_nonce)
              ∷ []
            else [])
          (record c { tx_nonce = (c.tx_nonce + 2) % 2 ^ 64 })
  sealed_frame c packet true sealed = (
    refl,
    c.tx_nonce ∷ [],
    frame packet (encrypt-SealedBy platform.crypto c.encryptor packet c.tx_nonce sealed) done,
  )
  sealed_frame c packet false sealed = (refl, c.tx_nonce ∷ [], unsent done)

  pub send_packet-Does :
      (c : State) (packet : List ℕ)
      → Does c (send_packet platform c packet).1 (send_packet platform c packet).0
  unfolding send_packet
  send_packet-Does c packet =
      if-Does c (is_empty (encrypt platform.crypto c.encryptor packet c.tx_nonce)) _ _
        (λ failed. Does-nothing c) (λ sealed. sealed_frame c packet c.has_send_callback sealed)
