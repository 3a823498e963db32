-- ===== src/Security/Handshake.antt =====
-- RiftNet/src/security/Handshake: the cleartext HELLO frame, four bytes of magic, a version, a
-- type and a 32-byte public key.
pub mod RoundTrip
use rift_net.Base.{
  ℕ, zero, suc, Bool, not, ◌==◌, if◌then◌else◌, Option, none, some, List, [], ◌∷◌, ◌++◌, take, drop,
  length, bytes_eq,
}

-- 'R', 'F', 'N', 'T'.
abbrev pub magic : List ℕ
magic = 82 ∷ 70 ∷ 78 ∷ 84 ∷ []

abbrev pub hello_version : ℕ
hello_version = 1

abbrev pub hello_type : ℕ
hello_type = 1

abbrev pub hello_size : ℕ
hello_size = 38

-- `data[i]`, read in range only.
abbrev pub byte_at : List ℕ → ℕ → ℕ
byte_at [] i = 0
byte_at (x ∷ xs) zero = x
byte_at (x ∷ xs) (suc i) = byte_at xs i

unfoldable pub build_hello : List ℕ → List ℕ
build_hello public_key =
    if not (length public_key == 32) then [] else magic ++ (hello_version ∷ hello_type ∷ public_key)

-- The pointer may be null. The result is the key that is written to `outPubKey`, if any.
unfoldable pub try_parse_hello : Option (List ℕ) → Option (List ℕ)
try_parse_hello none = none
try_parse_hello (some bytes) =
    if not (length bytes == hello_size)
    then none
    else (if not (bytes_eq magic (take 4 bytes))
        then none
        else (if not (byte_at bytes 4 == hello_version)
            then none
            else (if not (byte_at bytes 5 == hello_type)
                then none
                else some (take 32 (drop 6 bytes)))))
