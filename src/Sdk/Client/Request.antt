-- ===== src/Sdk/Client/Request.antt =====
-- `request` (onvm-sdk/src/client.ts): detect the mode, sign, send, read the response.
use text.Mathlib.Text.{◌==◌}
use onvm.Base.{ℕ, String, Option, none, some, [], ◌∷◌, if◌then◌else◌}
use onvm.Base.Texts.{concat, present}
use onvm.Base.Decimal.{parse_int}
use onvm.Sdk.Errors.{Fault, builtin, sdk_error, Detail, new_network_error}
use onvm.Sdk.Auth.{DerivedKeys, build_auth_headers}
use onvm.Sdk.Client.{OnvmClient, NodeMode, dev, prod, Session, send}
use onvm.Sdk.Client.Mode.{detect_node_mode}
use onvm.Sdk.Client.Reply.{Stamp, receive}
use onvm.Js.Value.{Value, truthy}
use onvm.Js.Io.{Io, fail, lift, catch, ◌>>=◌}
use onvm.Js.Platform.{Platform, Headers, Trace, HttpRequest, Payload}

-- `headers[name]`
unfoldable pub lookup : String → Headers → Option String
lookup name [] = none
lookup name ((key, value) ∷ headers) = if key == name then some value else lookup name headers

-- `headers[name] = value`
unfoldable pub insert : String → String → Headers → Headers
insert name value [] = (name, value) ∷ []
insert name value ((key, old) ∷ headers) =
    if key == name then (name, value) ∷ headers else (key, old) ∷ insert name value headers

-- `Object.assign(headers, more)`
unfoldable pub assign : Headers → Headers → Headers
assign headers [] = headers
assign headers ((name, value) ∷ more) = assign (insert name value headers) more

abbrev parse_some : Option String → Option ℕ
parse_some none = none
parse_some (some t) = parse_int t

abbrev pub unsigned : Stamp
unsigned = record { timestamp = none; nonce = none }

-- `nodeMode === 'prod' && this.derivedKeys && this.projectId`
abbrev pub signer : NodeMode → OnvmClient → Option (DerivedKeys × String)
signer dev c = none
signer prod c = elim (c.derived_keys) [
  | none ↦ none
  | some k ↦ elim (present c.project_id) [ none ↦ none | some id ↦ some (k, id) ]
]

-- `bodyStr || undefined`
abbrev pub text_payload : String → Payload
text_payload body = elim (present (some body)) [ none ↦ Payload.absent | some t ↦ Payload.text t ]

-- `${this.rpcUrl}${path}`
abbrev pub endpoint_of : OnvmClient → String → String
endpoint_of c path = concat (c.rpc_url ∷ path ∷ [])

-- The `catch` block: every error leaves as an error of the SDK.
unfoldable pub recast : String → Fault → Fault
recast endpoint (builtin name message) =
    if name == "AbortError"
    then new_network_error (concat ("Request timeout while calling " ∷ endpoint ∷ []))
        Detail.omitted
    else new_network_error (concat ("Network error calling " ∷ endpoint ∷ ": " ∷ message ∷ []))
        (Detail.cause (builtin name message))
recast endpoint (sdk_error class message status_code details) =
    sdk_error class message status_code details

module _ (p : Platform) where
  -- The headers of a request and what its response is bound to.
  unfoldable pub sign :
      Trace → NodeMode → OnvmClient → (method path body : String) → Headers → Headers × Stamp
  sign sent mode c method path body headers = elim (signer mode c) [
    | none ↦ (headers, unsigned)
    | some (k, id) ↦
        let auth_headers = build_auth_headers p sent method path body id k.signing_key in
        (
          assign headers auth_headers,
          record {
            timestamp = parse_some (lookup "x-timestamp" auth_headers);
            nonce = lookup "x-nonce" auth_headers;
          },
        )
  ]

  pub body_text : Value → String
  body_text body = if truthy body then p.json_stringify body else ""

  -- The `try` block of `request`.
  unfoldable pub exchange :
      NodeMode → OnvmClient → Stamp → (method path body : String) → HttpRequest → Io Session Value
  exchange mode c stamp method path body req = do
    response ← send p req
    lift (receive p mode c stamp method path body response)

  -- `{ 'Content-Type': 'application/json', ...customHeaders }`, signed where the mode asks for it.
  abbrev pub signed_headers :
      (method path : String) (body : Value) (custom_headers : Headers)
      → NodeMode
      → Session
      → Headers × Stamp
  signed_headers method path body custom_headers mode s =
      sign s.sent mode s.client method path (body_text body)
        (assign (("Content-Type", "application/json") ∷ []) custom_headers)

  -- The arguments of `fetch`.
  abbrev pub http_request :
      (method path : String) (body : Value) (custom_headers : Headers)
      → NodeMode
      → Session
      → HttpRequest
  http_request method path body custom_headers mode s = record {
    url = endpoint_of s.client path;
    method = method;
    headers = (signed_headers method path body custom_headers mode s).0;
    body = text_payload (body_text body);
    abort_after = some s.client.timeout;
  }

  -- The `try` block of `request` in a known mode.
  abbrev pub attempt :
      (method path : String) (body : Value) (custom_headers : Headers) → NodeMode → Io Session Value
  attempt method path body custom_headers mode s =
      exchange mode s.client (signed_headers method path body custom_headers mode s).1 method path
        (body_text body) (http_request method path body custom_headers mode s) s

  -- `request` in a known mode.
  unfoldable pub request_in :
      (method path : String) (body : Value) (custom_headers : Headers) → NodeMode → Io Session Value
  unfolding exchange body_text sign
  request_in method path body custom_headers mode s =
      catch (attempt method path body custom_headers mode)
        (λ e. fail (recast (endpoint_of s.client path) e)) s

  unfoldable pub request :
      (method path : String) (body : Value) (custom_headers : Headers) → Io Session Value
  unfolding request_in
  request method path body custom_headers = do
    mode ← detect_node_mode p
    request_in method path body custom_headers mode
