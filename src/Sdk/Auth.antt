-- ===== src/Sdk/Auth.antt =====
-- Request signing and response decryption (onvm-sdk/src/auth.ts).
pub mod Hkdf
pub mod Keys
pub mod Canonical
pub mod Decryption
use mathlib.Core.List.{flatten}
use onvm.Base.{
  ℕ, zero, suc, ◌+◌, ◌/◌, ◌%◌, String, Option, none, some, List, [], ◌∷◌, ◌++◌, length, take, drop,
  if◌then◌else◌, ◌==◌, not,
}
use onvm.Base.Texts.{concat, present}
use onvm.Base.Decimal.{to_string}
use onvm.Sdk.Errors.{builtin, new_auth_error, Detail, show_fault}
use onvm.Js.Result.{Result, ok, throw, rethrow, ◌>>=◌}
use onvm.Js.Platform.{Platform, Bytes, Headers, Trace}

pub record DerivedKeys : Type 0 where
  pub signing_key : Bytes
  pub response_key : Bytes

-- `Buffer.alloc(n, 0)`
abbrev pub zeros : ℕ → Bytes
zeros zero = []
zeros (suc n) = 0 ∷ zeros n

-- The text that is signed, and that a response is bound to.
pub canonical : (method path : String) (timestamp : ℕ) (nonce body : String) → String
canonical method path timestamp nonce body =
    concat (method ∷ " " ∷ path ∷ "\n" ∷ to_string timestamp ∷ "\n" ∷ nonce ∷ "\n" ∷ body ∷ [])

module _ (p : Platform) where
  open p use {
    now, random_bytes, utf8_encode, utf8_decode, hex_encode, hex_decode, base64_decode, hmac_sha256,
    aead_open,
  }

  -- The expand loop of `hkdf`, with the rounds left, the counter, the last block and the blocks.
  expand : Bytes → Bytes → (rounds i : ℕ) → Bytes → List Bytes → List Bytes
  expand prk info zero i t blocks = blocks
  expand prk info (suc rounds) i t blocks =
      let t' = hmac_sha256 prk (t ++ (info ++ (i % 256 ∷ []))) in
      expand prk info rounds (i + 1) t' (blocks ++ (t' ∷ []))

  abbrev salt_or_zeros : Option Bytes → Bytes
  salt_or_zeros none = zeros 32
  salt_or_zeros (some salt) = salt

  pub hkdf : (ikm : Bytes) (salt : Option Bytes) (info : Bytes) (size : ℕ) → Bytes
  unfolding expand
  hkdf ikm salt info size =
      let prk = hmac_sha256 (salt_or_zeros salt) ikm in
      take size (flatten (expand prk info ((size + 31) / 32) 1 [] []))

  pub derive_keys : String → Result DerivedKeys
  derive_keys project_secret =
      let secret = hex_decode project_secret in
      if length secret == 32
      then (let okm = hkdf secret none (utf8_encode "onvm-rpc-auth") 64 in
          ok (record { signing_key = take 32 okm; response_key = drop 32 (take 64 okm) }))
      else throw (new_auth_error "Project secret must be 32 bytes (64 hex chars)" Detail.omitted)

  unfoldable pub generate_nonce : Trace → String
  generate_nonce sent = hex_encode (random_bytes sent 16)

  unfoldable pub sign_request :
      (method path body : String) (timestamp : ℕ) (nonce : String) (signing_key : Bytes) → String
  unfolding canonical
  sign_request method path body timestamp nonce signing_key =
      hex_encode
        (hmac_sha256 signing_key (utf8_encode (canonical method path timestamp nonce body)))

  unfoldable pub build_auth_headers :
      (sent : Trace) (method path body project_id : String) (signing_key : Bytes) → Headers
  build_auth_headers sent method path body project_id signing_key =
      let timestamp = now sent in
      let nonce = generate_nonce sent in
      ("x-project-id", project_id)
      ∷ ("x-timestamp", to_string timestamp)
      ∷ ("x-nonce", nonce)
      ∷ ("x-signature", sign_request method path body timestamp nonce signing_key)
      ∷ []

  unfoldable pub derive_response_nonce :
      (response_key : Bytes) (request_nonce : String) (timestamp : ℕ) → Bytes
  derive_response_nonce response_key request_nonce timestamp =
      hkdf (utf8_encode request_nonce) (some response_key)
        (utf8_encode (concat ("resp-" ∷ to_string timestamp ∷ []))) 24

  abbrev pub response_nonce : Bytes → String → ℕ → Option String → Bytes
  response_nonce response_key request_nonce timestamp response_nonce_hex =
      elim (present response_nonce_hex) [
        | some hex ↦ hex_decode hex
        | none ↦ derive_response_nonce response_key request_nonce timestamp
      ]

  -- `aead.open` answers null when the tag does not fit.
  abbrev or_mismatch : Option Bytes → Result Bytes
  or_mismatch none = throw (builtin "Error" "Decryption failed: authentication tag mismatch")
  or_mismatch (some plaintext) = ok plaintext

  unfoldable pub decrypt_response_to_buffer :
      (ciphertext_base64 : String) (response_key : Bytes) (request_nonce : String) (timestamp : ℕ)
      (aad : String) (response_nonce_hex : Option String)
      → Result Bytes
  decrypt_response_to_buffer ciphertext_base64 response_key request_nonce timestamp aad hex =
      let ciphertext = base64_decode ciphertext_base64 in
      let nonce = response_nonce response_key request_nonce timestamp hex in
      if length nonce == 24
      then rethrow
          (λ e.
            new_auth_error (concat ("Response decryption failed: " ∷ show_fault e ∷ []))
              Detail.omitted)
          (aead_open response_key nonce ciphertext (utf8_encode aad) >>= or_mismatch)
      else throw (new_auth_error "Invalid response nonce length: expected 24 bytes" Detail.omitted)

  unfoldable pub decrypt_response :
      (ciphertext_base64 : String) (response_key : Bytes) (request_nonce : String) (timestamp : ℕ)
      (aad : String) (response_nonce_hex : Option String)
      → Result String
  decrypt_response ciphertext_base64 response_key request_nonce timestamp aad hex =
      decrypt_response_to_buffer ciphertext_base64 response_key request_nonce timestamp aad hex
      >>= λ plaintext. ok (utf8_decode plaintext)
