-- ===== src/Sdk/Client/Mode.antt =====
-- `detectNodeMode` (onvm-sdk/src/client.ts): asks the node once, and keeps the answer.
use onvm.Base.{String, Bool, true, false, ◌&&◌, Option, none, some, [], ◌∷◌, if◌then◌else◌}
use onvm.Base.Texts.{concat, or_text}
use onvm.Base.Decimal.{to_string}
use onvm.Sdk.Errors.{Fault, Detail, new_onvm_error, new_network_error, is_onvm_error, message_of}
use onvm.Sdk.Client.{NodeMode, dev, prod, Session, lacks_credentials, send}
use onvm.Js.Value.{Value, is_text}
use onvm.Js.Result.{rethrow, member}
use onvm.Js.Io.{Io, pure, fail, lift, gets, modify, fail_if, catch, ◌>>=◌, ◌>>◌}
use onvm.Js.Platform.{Platform, HttpRequest, HttpResponse, Payload, is_ok, text_of, json_of}

abbrev pub liveness_request : String → HttpRequest
liveness_request rpc_url = record {
  url = concat (rpc_url ∷ "/health/liveness" ∷ []);
  method = "GET";
  headers = ("Content-Type", "application/json") ∷ [];
  body = Payload.absent;
  abort_after = none;
}

abbrev mode_not_detected : String → HttpResponse → String → Fault
mode_not_detected health_url response error_text =
    new_onvm_error
      (concat (
        "Failed to detect node mode: HTTP "
        ∷ to_string response.status
        ∷ " from "
        ∷ health_url
        ∷ []))
      (some response.status) (Detail.text (or_text (some error_text) response.status_text))

abbrev mode_not_parsed : String → HttpResponse → Fault → Fault
mode_not_parsed health_url response e =
    new_onvm_error (concat ("Failed to parse node liveness response from " ∷ health_url ∷ []))
      (some response.status) (Detail.text (message_of e))

abbrev pub missing_credentials : Fault
missing_credentials =
    new_onvm_error
      "Node is running in prod mode but projectId or projectSecret is missing. Please provide valid credentials."
      (some 401) Detail.omitted

abbrev pub unreachable : String → Fault → Fault
unreachable rpc_url e =
    if is_onvm_error e
    then e
    else new_network_error
        (concat ("Unable to reach RPC endpoint at " ∷ rpc_url ∷ ": " ∷ message_of e ∷ []))
        (Detail.text (message_of e))

abbrev is_prod : NodeMode → Bool
is_prod dev = false
is_prod prod = true

abbrev mode_of : Value → NodeMode
mode_of v = if is_text v "dev" then dev else prod

abbrev remember : NodeMode → Session → Session
remember mode s = record s { client = record (s.client) { detected_node_mode = some mode } }

module _ (p : Platform) where
  abbrev refuse_unless_ok : String → HttpResponse → Io Session (Unit {0})
  refuse_unless_ok health_url response =
      if is_ok response
      then pure tt
      else (lift (text_of p response) >>= λ t. fail (mode_not_detected health_url response t))

  -- The body of the `try` block. The mode is remembered before the credentials are checked.
  unfoldable pub probe : Io Session NodeMode
  probe = do
    c ← gets (λ s. s.client)
    let health_url = concat (c.rpc_url ∷ "/health/liveness" ∷ [])
    response ← send p (liveness_request c.rpc_url)
    refuse_unless_ok health_url response
    live ← lift (rethrow (mode_not_parsed health_url response) (json_of p response))
    mode_value ← lift (member live "mode")
    let mode = mode_of mode_value
    modify (remember mode)
    fail_if (is_prod mode && lacks_credentials c) missing_credentials
    pure mode

  -- The `try` block with its `catch`, unless the mode is known.
  unfoldable pub detect_from : Option NodeMode → Io Session NodeMode
  detect_from (some mode) s = pure mode s
  detect_from none s = catch probe (λ e. fail (unreachable s.client.rpc_url e)) s

  unfoldable pub detect_node_mode : Io Session NodeMode
  unfolding detect_from
  detect_node_mode s = detect_from s.client.detected_node_mode s
