-- ===== src/Js/Platform.antt =====
-- The platform, which is not part of the repository: the network, the clock, randomness, JSON,
-- text encodings and cryptography. Every definition that uses it takes it as a parameter.
use onvm.Base.{ℕ, ◌≡◌, ◌<◌, String, Option, some, List, ◌&&◌, Bool, leb, length}
use onvm.Base.Texts.{present}
use onvm.Js.Value.{Value}
use onvm.Js.Result.{Result, ok, ◌>>=◌}

abbrev pub Bytes : Type 0
Bytes = List ℕ

abbrev pub Headers : Type 0
Headers = List (String × String)

-- What a request carries: no body, a text, or bytes.
pub data Payload : Type 0 where
  absent : Payload
  text : String → Payload
  bytes : Bytes → Payload

-- The arguments of `fetch`. `abort_after` is the delay of an AbortController, if there is one.
pub record HttpRequest : Type 0 where
  pub url : String
  pub method : String
  pub headers : Headers
  pub body : Payload
  pub abort_after : Option ℕ

-- `body` is what reading the body gives: its bytes, or a rejection.
pub record HttpResponse : Type 0 where
  pub status : ℕ
  pub status_text : String
  pub header : String → Option String
  pub body : Result Bytes

-- The requests that were sent, the last one first.
abbrev pub Trace : Type 0
Trace = List HttpRequest

-- The network, the clock and the source of randomness may answer differently after each request.
pub record Platform : Type 0 where
  pub fetch : Trace → HttpRequest → Result HttpResponse
  pub now : Trace → ℕ
  pub random_bytes : Trace → ℕ → Bytes
  pub json_parse : String → Result Value
  pub json_stringify : Value → String
  pub utf8_encode : String → Bytes
  pub utf8_decode : Bytes → String
  pub hex_encode : Bytes → String
  pub hex_decode : String → Bytes
  pub base64_encode : Bytes → String
  pub base64_decode : String → Bytes
  pub atob : String → Result String
  pub hmac_sha256 : (key message : Bytes) → Bytes
  pub aead_open : (key nonce ciphertext associated : Bytes) → Result (Option Bytes)

-- `response.ok`
abbrev pub is_ok : HttpResponse → Bool
is_ok r = leb 200 r.status && leb r.status 299

module _ (p : Platform) where
  open p use {utf8_decode, json_parse}

  -- `response.text()`
  abbrev pub text_of : HttpResponse → Result String
  text_of r = r.body >>= λ b. ok (utf8_decode b)

  -- `response.json()`
  abbrev pub json_of : HttpResponse → Result Value
  json_of r = text_of r >>= json_parse

-- What the code relies on of the primitives, for an encryption that the node makes with `seal`:
-- the size of a SHA-256 digest, that hexadecimal and base64 texts decode to what was encoded, that
-- the text of a buffer that is not empty is not empty, and that what was sealed under a key of 32 bytes
-- and a nonce of 24, the sizes of XChaCha20-Poly1305, can be opened.
pub record IsLawful (p : Platform) (seal : (key nonce plaintext associated : Bytes) → Bytes)
    : Type 0 where
  pub digest_length : (k m : Bytes) → length (p.hmac_sha256 k m) ≡ 32
  pub hex_decode-hex_encode : (b : Bytes) → p.hex_decode (p.hex_encode b) ≡ b
  pub hex_encode_present :
      (b : Bytes) → 0 < length b → present (some (p.hex_encode b)) ≡ some (p.hex_encode b)
  pub base64_decode-base64_encode : (b : Bytes) → p.base64_decode (p.base64_encode b) ≡ b
  pub aead_open-seal :
      (k n m a : Bytes)
      → length k ≡ 32
      → length n ≡ 24
      → p.aead_open k n (seal k n m a) a ≡ ok (some m)
