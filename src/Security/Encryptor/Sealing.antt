-- ===== src/Security/Encryptor/Sealing.antt =====
-- RiftNet/src/security/Crypto: what a result of Encrypt that is not empty is.
use rift_net.Base.{
  ℕ, ◌≡◌, ◌⊎◌, refl, sym, ap, ◌∙◌, true, false, Bool-cases, Option-cases, inl, inr, some, List, [],
  is_empty,
}
use rift_net.Security.Encryptor.{CryptoLibrary, Encryptor, encrypt, expand_nonce}

module _ (crypto : CryptoLibrary) where
  -- `bytes` is what the library makes of `plain` with the encryptor's sending cipher, under the 12
  -- bytes of the nonce, and the encryptor has a session.
  pub record SealedBy (e : Encryptor crypto.KeyPair crypto.Cipher) (plain : List ℕ) (nonce : ℕ)
      (bytes : List ℕ) : Type 0 where
    pub cipher : crypto.Cipher
    pub has_session : e.is_initialized ≡ true
    pub sends_with : e.tx_encryptor ≡ some cipher
    pub made : crypto.encrypt_with_nonce cipher plain (expand_nonce nonce) ≡ some bytes

  -- The three ways to fail give nothing, and otherwise it is what the library made.
  encrypt_result :
      (e : Encryptor crypto.KeyPair crypto.Cipher) (plain : List ℕ) (nonce : ℕ)
      → (encrypt crypto e plain nonce ≡ []) ⊎ SealedBy e plain nonce (encrypt crypto e plain nonce)
  unfolding encrypt
  encrypt_result e plain nonce = elim (Bool-cases e.is_initialized) [
    | inr no_session ↦ inl (simp no_session refl)
    | inl session ↦ elim (Option-cases e.tx_encryptor) [
      | inl no_cipher ↦ inl (simp (session, no_cipher) refl)
      | inr (cipher, has) ↦
          elim (Option-cases (crypto.encrypt_with_nonce cipher plain (expand_nonce nonce))) [
            | inl refused ↦ inl (simp (session, has, refused) refl)
            | inr (bytes, made) ↦
                let same : encrypt crypto e plain nonce ≡ bytes = simp (session, has, made) refl in
                inr (record {
                  cipher = cipher;
                  has_session = session;
                  sends_with = has;
                  made = made ∙ ap some (sym same);
                })
          ]
    ]
  ]

  pub encrypt-SealedBy :
      (e : Encryptor crypto.KeyPair crypto.Cipher) (plain : List ℕ) (nonce : ℕ)
      → is_empty (encrypt crypto e plain nonce) ≡ false
      → SealedBy e plain nonce (encrypt crypto e plain nonce)
  encrypt-SealedBy e plain nonce full = elim (encrypt_result e plain nonce) [
    | inl nothing ↦ let same : true ≡ false = sym (ap is_empty nothing) ∙ full in absurd (cc same)
    | inr sealed ↦ sealed
  ]
