-- ===== src/Sdk/Auth/Decryption.antt =====
-- `decryptResponseToBuffer` of onvm-sdk/src/auth.ts, against what the node seals.
use onvm.Base.{ℕ, ◌≡◌, refl, String, Option, none, some, true, length, arith}
use onvm.Sdk.Errors.{is_auth_error}
use onvm.Sdk.Auth.{response_nonce, derive_response_nonce, decrypt_response_to_buffer}
use onvm.Sdk.Auth.Keys.{length-derive_response_nonce}
use onvm.Js.Result.{Result, ok, throw}
use onvm.Js.Platform.{Platform, Bytes, IsLawful}

-- The nonce that the node puts in the header, or leaves to be derived.
pub data Announced (p : Platform) (nonce : Bytes) : Option String → Type 0 where
  in_header : Announced p nonce (some (p.hex_encode nonce))
  derived : Announced p nonce none

module _ (p : Platform) (seal : (key nonce plaintext associated : Bytes) → Bytes)
    (laws : IsLawful p seal) where
  response_nonce-Announced :
      (key : Bytes) (request_nonce : String) (t : ℕ) (hex : Option String)
      → Announced p (derive_response_nonce p key request_nonce t) hex
      → response_nonce p key request_nonce t hex ≡ derive_response_nonce p key request_nonce t
  response_nonce-Announced key request_nonce t hex in_header =
      let nonce = derive_response_nonce p key request_nonce t in
      let size : length nonce ≡ 24 =
        length-derive_response_nonce p laws.digest_length key request_nonce t in
      rw (laws.hex_encode_present nonce (omega arith), response_nonce)
        (laws.hex_decode-hex_encode nonce)
  response_nonce-Announced key request_nonce t hex derived = refl

  -- On a lawful platform, what the node has sealed for a request under a key of 32 bytes comes back,
  -- whether it announces the nonce or not.
  pub decrypt-seal :
      (key : Bytes) (request_nonce : String) (t : ℕ) (aad : String) (hex : Option String)
      (plaintext : Bytes)
      → length key ≡ 32
      → Announced p (derive_response_nonce p key request_nonce t) hex
      → decrypt_response_to_buffer p
          (p.base64_encode
            (seal key (derive_response_nonce p key request_nonce t) plaintext (p.utf8_encode aad)))
          key
          request_nonce
          t
          aad
          hex
        ≡ ok plaintext
  unfolding decrypt_response_to_buffer
  decrypt-seal key request_nonce t aad hex plaintext key_size announced =
      rw
        (
          response_nonce-Announced key request_nonce t hex announced,
          length-derive_response_nonce p laws.digest_length key request_nonce t,
          laws.base64_decode-base64_encode,
          laws.aead_open-seal key (derive_response_nonce p key request_nonce t) plaintext
              (p.utf8_encode aad) key_size
              (length-derive_response_nonce p laws.digest_length key request_nonce t),
        )
        refl

-- What is returned was authenticated: the cipher opened it under the response key, with the signed
-- text as associated data and a nonce of 24 bytes. Whatever else happens is an authentication error.
abbrev pub IsOpened :
    Platform
    → (text : String) (key : Bytes) (request_nonce : String) (t : ℕ) (aad : String)
      (hex : Option String)
    → Result Bytes
    → Type 0
IsOpened p text key request_nonce t aad hex (ok plaintext) =
    let nonce = response_nonce p key request_nonce t hex in
    (length nonce ≡ 24)
    × (p.aead_open key nonce (p.base64_decode text) (p.utf8_encode aad) ≡ ok (some plaintext))
IsOpened p text key request_nonce t aad hex (throw e) = is_auth_error e ≡ true

-- Decryption returns what the cipher opened under the response key, or throws an authentication
-- error.
pub decrypt-IsOpened :
    (p : Platform) (text : String) (key : Bytes) (request_nonce : String) (t : ℕ) (aad : String)
    (hex : Option String)
    → IsOpened p text key request_nonce t aad hex
        (decrypt_response_to_buffer p text key request_nonce t aad hex)
unfolding decrypt_response_to_buffer is_auth_error
decrypt-IsOpened p text key request_nonce t aad hex = ground arith
