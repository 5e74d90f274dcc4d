-- ===== src/Sdk/Client/Reply.antt =====
-- What the client does with a response: refusals by status, and decryption in prod mode
-- (`request`, `uploadBlob` and `downloadBlob` of onvm-sdk/src/client.ts).
use text.Mathlib.Text.{◌==◌}
use Prim.Native.Char.{Char, code}
use onvm.Base.{
  ℕ, String, Bool, true, false, ◌&&◌, ◌||◌, leb, Option, none, some, [], ◌∷◌, if◌then◌else◌,
  ◌==◌ as nat_eq,
}
use onvm.Base.Texts.{is_space, concat, present}
use onvm.Base.Decimal.{to_string}
use onvm.Sdk.Errors.{Fault, Detail, new_onvm_error}
use onvm.Sdk.Auth.{DerivedKeys, canonical, decrypt_response}
use onvm.Sdk.Client.{OnvmClient, NodeMode, dev, prod}
use onvm.Js.Value.{Value, obj, end}
use onvm.Js.Result.{Result, ok, throw, rethrow, ◌>>=◌}
use onvm.Js.Platform.{Platform, HttpResponse, is_ok, text_of}

-- `authTimestamp` and `authNonce`: undefined (or NaN) unless the request was signed.
pub record Stamp : Type 0 where
  pub timestamp : Option ℕ
  pub nonce : Option String

-- A number that is undefined, NaN or 0 is falsy.
abbrev present_number : Option ℕ → Option ℕ
present_number none = none
present_number (some n) = if nat_eq n 0 then none else some n

-- `nodeMode === 'prod' && this.derivedKeys && authTimestamp && authNonce`
abbrev pub sealed_by :
    NodeMode
    → OnvmClient
    → Stamp
    → Option (record { keys : DerivedKeys; timestamp : ℕ; nonce : String })
sealed_by dev c stamp = none
sealed_by prod c stamp = elim (c.derived_keys) [
  | none ↦ none
  | some k ↦ elim (present_number stamp.timestamp) [
    | none ↦ none
    | some t ↦ elim (present stamp.nonce) [
      | none ↦ none
      | some n ↦ some (record { keys = k; timestamp = t; nonce = n })
    ]
  ]
]

-- The error of a response whose status is not in 200 to 299.
unfoldable pub refusal : NodeMode → ℕ → String → Fault
refusal mode status error_text =
    if nat_eq status 401
    then elim mode [
      | prod ↦
          new_onvm_error
            "Authentication failed. Please check your projectId and projectSecret credentials."
            (some 401) (Detail.text error_text)
      | dev ↦ new_onvm_error "Unauthorized access." (some 401) (Detail.text error_text)
    ]
    else if nat_eq status 403
    then new_onvm_error
        "Access forbidden. Your credentials may not have permission for this operation." (some 403)
        (Detail.text error_text)
    else if nat_eq status 429
    then new_onvm_error "Rate limit exceeded. Please slow down your requests." (some 429)
        (Detail.text error_text)
    else new_onvm_error (concat ("HTTP " ∷ to_string status ∷ ": " ∷ error_text ∷ [])) (some status)
        (Detail.text error_text)

-- The characters of `[A-Za-z0-9+/=\s]`.
abbrev is_base64_char : Char → Bool
is_base64_char ch =
    let c = code ch in
    (leb b'A' c && leb c b'Z')
    || (leb b'a' c && leb c b'z')
    || (leb b'0' c && leb c b'9')
    || nat_eq c b'+'
    || nat_eq c b'/'
    || nat_eq c b'='
    || is_space ch

all_base64 : String → Bool
all_base64 String.[] = true
all_base64 (String.◌∷◌ c s) = is_base64_char c && all_base64 s

-- `text.match(/^[A-Za-z0-9+/=\s]+$/)`
pub looks_base64 : String → Bool
unfolding all_base64
looks_base64 String.[] = false
looks_base64 (String.◌∷◌ c s) = all_base64 (String.◌∷◌ c s)

abbrev pub is_aead : Option String → Bool
is_aead none = false
is_aead (some t) = t == "XChaCha20Poly1305"

abbrev pub is_present : Option String → Bool
is_present o = elim (present o) [ none ↦ false | some t ↦ true ]

abbrev not_decrypted : Fault → Fault
not_decrypted e =
    new_onvm_error
      "Failed to decrypt response. Your credentials may be incorrect or the response format is invalid."
      (some 500) (Detail.cause e)

module _ (p : Platform) where
  open p use {json_parse}

  -- `text ? JSON.parse(text) : {}`
  abbrev pub parse_or_empty : String → Result Value
  parse_or_empty response_text = elim (present (some response_text)) [
    | none ↦ ok (obj end)
    | some t ↦ json_parse t
  ]

  -- The reply to a signed request: decrypted where the response says so, or looks so.
  unfoldable pub open_sealed :
      DerivedKeys
      → (timestamp : ℕ) → (nonce method path body : String) → HttpResponse
      → String
      → Result Value
  open_sealed keys timestamp nonce method path body response response_text =
      let hex = response.header "x-response-nonce" in
      let aad = canonical method path timestamp nonce body in
      let decrypted =
        decrypt_response p response_text keys.response_key nonce timestamp aad hex >>= json_parse in
      if is_aead (response.header "x-response-aead") && is_present hex
      then decrypted
      else if looks_base64 response_text
      then rethrow not_decrypted decrypted
      else parse_or_empty response_text

  -- The body of a response that `request` accepts, with the signed text of the request.
  unfoldable pub open_reply :
      NodeMode
      → OnvmClient
      → Stamp
      → (method path body : String) → HttpResponse
      → String
      → Result Value
  open_reply mode c stamp method path body response response_text = elim (sealed_by mode c stamp) [
    | none ↦ parse_or_empty response_text
    | some by ↦ open_sealed by.keys by.timestamp by.nonce method path body response response_text
  ]

  -- The `try` block of `request` after the response has arrived.
  unfoldable pub receive :
      NodeMode → OnvmClient → Stamp → (method path body : String) → HttpResponse → Result Value
  receive mode c stamp method path body response = text_of p response >>= λ t.
      if is_ok response
      then open_reply mode c stamp method path body response t
      else throw (refusal mode response.status t)
