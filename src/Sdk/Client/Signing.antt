-- ===== src/Sdk/Client/Signing.antt =====
-- What the client signs, against what the node checks (src/rpc/auth.rs, verify_signed_request).
use text.Mathlib.Text.{◌==◌}
use onvm.Base.{
  ℕ, ◌≡◌, ap, ◌∙◌, String, Option, none, some, List, [], ◌∷◌, arith, if◌then◌else◌, Bool, true,
  false, not, ◌&&◌, ◌||◌, ltb, leb, ◌-◌, ◌^◌, ◌==◌ as nat_eq,
}
use onvm.Base.Decimal.{parse_int}
use onvm.Sdk.Auth.{canonical}
use onvm.Sdk.Client.{OnvmClient, NodeMode, Session}
use onvm.Sdk.Client.Reply.{Stamp}
use onvm.Sdk.Client.Request.{lookup, body_text, http_request, signed_headers}
use onvm.Sdk.Client.Request.{request_in, exchange, attempt, endpoint_of, recast, request}
use onvm.Js.Value.{Value}
use onvm.Js.Result.{Result}
use onvm.Js.Io.{resume}
use onvm.Sdk.Client.Detection.{detect_node_mode_known}
use onvm.Js.Io.Laws.{catch-fail_state}
use onvm.Js.Platform.{Platform, Bytes, Headers, HttpRequest, Payload}

-- The body as the node reads it: its bytes, decoded.
abbrev body_of : Platform → Payload → String
body_of p Payload.absent = ""
body_of p (Payload.text t) = t
body_of p (Payload.bytes b) = p.utf8_decode b

-- The headers name a project, a time, a nonce and a signature, and the signature is the HMAC of the
-- signed text of what was received.
record IsSigned (p : Platform) (signing_key : Bytes) (project path : String) (timestamp : ℕ)
    (nonce : String) (req : HttpRequest) : Type 0 where
  pub stamp_text : String
  pub signature : String
  pub owner : lookup "x-project-id" req.headers ≡ some project
  pub stamped : lookup "x-timestamp" req.headers ≡ some stamp_text
  pub stamp_read : parse_int stamp_text ≡ some timestamp
  pub numbered : lookup "x-nonce" req.headers ≡ some nonce
  pub signed : lookup "x-signature" req.headers ≡ some signature
  pub verified :
      p.hex_decode signature
      ≡ p.hmac_sha256 signing_key
          (p.utf8_encode (canonical req.method path timestamp nonce (body_of p req.body)))

exchange_state :
    (p : Platform) (mode : NodeMode) (c : OnvmClient) (stamp : Stamp) (method path body : String)
    (req : HttpRequest) (s : Session)
    → (exchange p mode c stamp method path body req s).1 ≡ record s { sent = req ∷ s.sent }
unfolding exchange
exchange_state p mode c stamp method path body req s = ground arith

-- What the node's check depends on (AuthState): the methods that are allowed, all of them if the list is
-- empty; the keys of the projects; the clock and the skew in milliseconds; whether a nonce is in the
-- replay cache, without the entries that are too old; and whether the rate limiter has a token.
pub record NodeState : Type 0 where
  pub upper : String → String
  pub allowed_methods : List String
  pub signing_key_of : (project : String) → Option Bytes
  pub clock : ℕ
  pub skew : ℕ
  pub was_seen : (nonce : String) → Bool
  pub has_token : Bool

pub data Verdict : Type 0 where
  passed : Verdict
  refused : (status : ℕ) → Verdict

abbrev among : String → List String → Bool
among m [] = false
among m (a ∷ l) = a == m || among m l

abbrev allows : NodeState → (method : String) → Bool
allows node method = elim node.allowed_methods [
  | [] ↦ true
  | a ∷ l ↦ among (node.upper method) (a ∷ l)
]

-- The time is an `i64` within the skew.
abbrev is_timely : NodeState → ℕ → Bool
is_timely node t =
    ltb t (2 ^ 63) && (leb (t - node.clock) node.skew && leb (node.clock - t) node.skew)

-- What the node decides of a request with a good signature.
abbrev pub admission : NodeState → (method : String) → (timestamp : ℕ) → (nonce : String) → Verdict
admission node method timestamp nonce =
    if not (allows node method)
    then Verdict.refused 405
    else if not (is_timely node timestamp)
    then Verdict.refused 401
    else if node.was_seen nonce
    then Verdict.refused 401
    else if node.has_token
    then Verdict.passed
    else Verdict.refused 429

abbrev bytes_eq : Bytes → Bytes → Bool
bytes_eq [] [] = true
bytes_eq (a ∷ s) (b ∷ t) = nat_eq a b && bytes_eq s t
bytes_eq _ _ = false

-- A header, or status 401 without it.
abbrev required : {A : Type 0} → Option A → (A → Verdict) → Verdict
required none k = Verdict.refused 401
required (some a) k = k a

-- `verify_signed_request`, up to the call of the handler.
pub verify_signed_request :
    Platform → NodeState → (read_path : String → String) → HttpRequest → Verdict
verify_signed_request p node read_path req =
    if not (allows node req.method)
    then Verdict.refused 405
    else required (lookup "x-project-id" req.headers) (λ project.
      required (node.signing_key_of project) (λ key.
        required (lookup "x-timestamp" req.headers) (λ stamp_text.
          required (parse_int stamp_text) (λ timestamp.
            required (lookup "x-nonce" req.headers) (λ nonce.
              required (lookup "x-signature" req.headers) (λ signature.
                if not (is_timely node timestamp)
                then Verdict.refused 401
                else if node.was_seen nonce
                then Verdict.refused 401
                else if not (
                    bytes_eq
                      (p.hmac_sha256 key (
                        p.utf8_encode (
                          canonical req.method (read_path req.url) timestamp nonce
                            (body_of p req.body))))
                      (p.hex_decode signature))
                then Verdict.refused 401
                else if node.has_token
                then Verdict.passed
                else Verdict.refused 429))))))

module _ (p : Platform) (method path : String) (body : Value) (custom : Headers) where
  send_state :
      (mode : NodeMode) (s : Session)
      → (request_in p method path body custom mode s).1
        ≡ record s { sent = http_request p method path body custom mode s ∷ s.sent }
  unfolding request_in
  send_state mode s =
      catch-fail_state (attempt p method path body custom mode) (recast (endpoint_of s.client path))
        s
      ∙ exchange_state p mode s.client (signed_headers p method path body custom mode s).1 method
          path (body_text p body) (http_request p method path body custom mode s) s

  -- In a known mode `request` calls `fetch` exactly once, whatever becomes of it, and changes nothing
  -- of the client.
  request_sends_once :
      (mode : NodeMode) (s : Session)
      → s.client.detected_node_mode ≡ some mode
      → (request p method path body custom s).1
        ≡ record s { sent = http_request p method path body custom mode s ∷ s.sent }
  unfolding request
  request_sends_once mode s known =
      ap
        (λ (r : Result NodeMode × Session).
          (resume r.0 (request_in p method path body custom) r.1).1)
        (detect_node_mode_known p s mode known)
      ∙ send_state mode s
