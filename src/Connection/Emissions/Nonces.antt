-- ===== src/Connection/Emissions/Nonces.antt =====
-- The nonces of a connection's frames, over any sequence of calls.
use rift_net.Base.{ℕ, zero, suc, ◌+◌, ◌%◌, ◌^◌, Bool, List, [], ◌∷◌}
use mathlib.Core.Logic.Or
use rift_net.Security.Encryptor
use rift_net.Security.Encryptor.{Encryptor}
use rift_net.Connection.{Platform, NetworkEndpoint, Connection, Output}
use rift_net.Connection.Emissions.{Emits, done, handed, silent, rekeyed, hello, frame, unsent}

-- The numbers `nonce`, `nonce + 2` and so on, modulo 2^64.
abbrev nonces_from : ℕ → ℕ → List ℕ
nonces_from nonce zero = []
nonces_from nonce (suc n) = nonce ∷ nonces_from ((nonce + 2) % 2 ^ 64) n

module _ {platform : Platform} {endpoint : NetworkEndpoint} where
  -- How many of the calls are HELLOs.
  abbrev pub hellos :
      {k k' : Encryptor platform.crypto.KeyPair platform.crypto.Cipher} {b b' : Bool} {n n' : ℕ}
      {out : List Output} {nonces : List ℕ}
      → Emits platform endpoint k b n out nonces k' b' n'
      → ℕ
  hellos done = 0
  hellos (handed payload rest) = hellos rest
  hellos (silent rest) = hellos rest
  hellos (rekeyed remote rest) = hellos rest
  hellos (hello new size rest) = 1 + hellos rest
  hellos (frame packet sealed rest) = hellos rest
  hellos (unsent rest) = hellos rest
