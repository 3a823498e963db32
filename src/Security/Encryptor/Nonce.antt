-- ===== src/Security/Encryptor/Nonce.antt =====
-- Nonces on the wire and in the cipher.
use rift_net.Base.{ℕ, ◌<◌, ◌≡◌, ◌^◌, sym, ap, ◌∙◌, List, drop}
use rift_net.Base.Bytes.{
  of_le_bytes, byte_swap, byte_swap_twice, byte_swap-lt, of_le_bytes-le_bytes,
}
use rift_net.Security.Encryptor.{host_to_be64, expand_nonce}

-- Two 64-bit nonces that expand to the same 12 bytes are the same nonce.
pub expand_nonce_injective :
    (a b : ℕ) → a < 2 ^ 64 → b < 2 ^ 64 → expand_nonce a ≡ expand_nonce b → a ≡ b
unfolding expand_nonce host_to_be64
expand_nonce_injective a b ha hb e =
    let same : byte_swap 8 a ≡ byte_swap 8 b =
      sym (of_le_bytes-le_bytes 8 (byte_swap 8 a) (byte_swap-lt 8 a))
      ∙ ap (λ (bs : List ℕ). of_le_bytes (drop 4 bs)) e
      ∙ of_le_bytes-le_bytes 8 (byte_swap 8 b) (byte_swap-lt 8 b) in
    sym (byte_swap_twice 8 a ha) ∙ ap (byte_swap 8) same ∙ byte_swap_twice 8 b hb
