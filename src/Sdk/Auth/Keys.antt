-- ===== src/Sdk/Auth/Keys.antt =====
-- `deriveKeys` and `deriveResponseNonce` of onvm-sdk/src/auth.ts.
use onvm.Base.{
  ℕ, zero, suc, ◌≡◌, ◌≢◌, refl, ap, ◌∙◌, inl, inr, String, none, List, [], ◌∷◌, ◌++◌, length, take,
  length-take, length-drop, take-append-drop, arith, ◌==◌, Bool-cases, ◌≤◌,
}
use onvm.Sdk.Errors.{new_auth_error, Detail}
use onvm.Sdk.Auth.{DerivedKeys, hkdf, derive_keys, derive_response_nonce}
use onvm.Sdk.Auth.Hkdf.{rfc_okm, hkdf-eq-rfc_okm, length-hkdf}
use onvm.Js.Result.{Result, ok, throw}
use onvm.Js.Platform.{Platform, Bytes}

take_all {ℓ} : {A : Type ℓ} (n : ℕ) (xs : List A) → length xs ≤ n → take n xs ≡ xs
take_all zero [] h = refl
take_all zero (x ∷ xs) h = absurd (omega arith)
take_all (suc n) [] h = refl
take_all (suc n) (x ∷ xs) h = ap (λ t. x ∷ t) (take_all n xs (omega arith))

module _ (p : Platform) where
  open p use {utf8_encode, hex_decode, hmac_sha256}

  -- The keys of a secret: the two halves of 64 octets that RFC 5869 derives from it.
  abbrev pub IsKeysOf : String → Result DerivedKeys → Type 0
  IsKeysOf secret (ok keys) =
      (length (hex_decode secret) ≡ 32)
      × (length keys.signing_key ≡ 32)
      × (length keys.response_key ≡ 32)
      × (keys.signing_key ++ keys.response_key
          ≡ rfc_okm p (hex_decode secret) none (utf8_encode "onvm-rpc-auth") 64)
  IsKeysOf secret (throw e) =
      (length (hex_decode secret) ≢ 32)
      × (e ≡ new_auth_error "Project secret must be 32 bytes (64 hex chars)" Detail.omitted)

  module _ (digest_length : (k m : Bytes) → length (hmac_sha256 k m) ≡ 32) where
    -- If digests have 32 bytes, a secret of 32 bytes gives two keys of 32 bytes, the halves of the RFC's output; any other
    -- is refused as an authentication error.
    pub derive_keys-IsKeysOf : (secret : String) → IsKeysOf secret (derive_keys p secret)
    unfolding derive_keys
    derive_keys-IsKeysOf secret = elim (Bool-cases (length (hex_decode secret) == 32)) [
      | inr other ↦ rw other (ground arith, refl)
      | inl good ↦
          let okm = hkdf p (hex_decode secret) none (utf8_encode "onvm-rpc-auth") 64 in
          let size : length okm ≡ 64 =
            length-hkdf p digest_length (hex_decode secret) none (utf8_encode "onvm-rpc-auth") 64
              (omega arith) in
          let whole : take 64 okm ≡ okm = take_all 64 okm (omega arith) in
          rw good (
            ground arith,
            length-take 32 okm ∙ omega arith,
            rw whole (length-drop 32 okm ∙ omega arith),
            rw whole (
                take-append-drop 32 okm
                ∙ hkdf-eq-rfc_okm p (hex_decode secret) none (utf8_encode "onvm-rpc-auth") 64
                    (omega arith)),
          )
    ]

    -- If digests have 32 bytes, a derived response nonce has the size that the cipher wants.
    pub length-derive_response_nonce :
        (key : Bytes) (nonce : String) (t : ℕ) → length (derive_response_nonce p key nonce t) ≡ 24
    unfolding derive_response_nonce
    length-derive_response_nonce key nonce t = length-hkdf p digest_length _ _ _ 24 (omega arith)
