-- ===== src/Nbook/Proxy.antt =====
-- The API routes of the site (wasm_programs/nbook/ui/app/api/onvm/route.ts and
-- wasm_programs/nbook/ui/app/api/onvm/blob/[id]/route.ts), which reach the node through the SDK.
pub mod Answers
pub mod Execution
use text.Mathlib.Text.{◌==◌, find?}
use Prim.Native.Nat.{ℕ}
use onvm.Base.{String, Bool, true, false, not, Option, none, some, List, [], ◌∷◌, if◌then◌else◌}
use onvm.Base.Texts.{present}
use onvm.Sdk.Errors.{Fault, message_of}
use onvm.Sdk.Client.{OnvmClient, OnvmClientConfig, Session, new_client}
use onvm.Sdk.Client.Request.{request as sdk_request}
use onvm.Sdk.Client.Blobs.{upload_blob, download_blob}
use onvm.Nbook.Sniff.{sniff_blob}
use onvm.Js.Value.{Value, undefined, str, obj, end, field, is_text, show_value}
use onvm.Js.Result.{Result, ok, throw, member}
use onvm.Js.Io.{Io, pure, lift, modify, catch, ◌>>=◌, ◌>>◌}
use onvm.Js.Platform.{Platform, Bytes, Headers, Trace}

-- What a route answers: JSON or bytes, with a status and headers of its own.
pub data Content : Type 0 where
  json : Value → Content
  bytes : Bytes → Content

pub record Reply : Type 0 where
  pub status : ℕ
  pub headers : Headers
  pub content : Content

-- A request of a page, with its body read as bytes or as JSON.
pub record Incoming : Type 0 where
  pub content_type : Option String
  pub raw : Result Bytes
  pub body : Result Value

-- A route's module: the client that it has made, and what was sent with it.
pub record Server : Type 0 where
  pub client_instance : Option OnvmClient
  pub sent : Trace

abbrev pub error_reply : ℕ → String → Reply
error_reply status message = record {
  status = status;
  headers = [];
  content = json (obj (field "error" (str message) end));
}

abbrev pub json_reply : Value → Reply
json_reply v = record { status = 200; headers = []; content = json v }

-- `text.includes(piece)`
abbrev includes : String → String → Bool
includes text piece = elim (find? text piece) [ none ↦ false | some i ↦ true ]

-- Runs an action of the SDK with the route's client.
abbrev with_client : {A : Type 0} → OnvmClient → Io Session A → Io Server A
with_client c m s =
    let (r, after) = m (record { client = c; sent = s.sent }) in
    (r, record { client_instance = some after.client; sent = after.sent })

module _ (p : Platform) (config : OnvmClientConfig) where
  -- `getClient`: made once, kept for later requests.
  abbrev client_or : Option OnvmClient → Io Server OnvmClient
  client_or (some c) = pure c
  client_or none = do
    c ← lift (new_client p config)
    modify (λ s. record s { client_instance = some c })
    pure c

  pub get_client : Io Server OnvmClient
  get_client s = client_or s.client_instance s

  -- The branch for a body that is no JSON.
  abbrev upload_route : OnvmClient → Incoming → Io Server Reply
  upload_route c request = do
    content ← lift request.raw
    result ← with_client c (upload_blob p content none)
    pure (json_reply result)

  -- A member that a caller leaves out is sent as undefined, and an id becomes text in the path.
  abbrev run_operation : OnvmClient → (operation : Value) → (params : Value) → Io Server Reply
  run_operation c operation params =
      if is_text operation "executeProgram"
      then (do
        program_id ← lift (member params "program_id")
        input_base64 ← lift (member params "input_base64")
        result ← with_client c (
            sdk_request p "POST" "/execute"
              (obj (field "program_id" program_id (field "input_base64" input_base64 end))) [])
        pure (json_reply result))
      else if is_text operation "downloadBlob"
      then (do
        id ← lift (member params "id")
        buffer ← with_client c (download_blob p (show_value id))
        pure (record {
          status = 200;
          headers = ("Content-Type", "application/octet-stream") ∷ [];
          content = bytes buffer;
        }))
      else pure (error_reply 400 "Invalid operation")

  abbrev json_route : OnvmClient → Incoming → Io Server Reply
  json_route c request = do
    body ← lift request.body
    operation ← lift (member body "operation")
    run_operation c operation body

  -- `POST` of route.ts. The client is made outside of the `try` blocks.
  pub post : Incoming → Io Server Reply
  unfolding get_client
  post request = do
    c ← get_client
    let is_json =
        includes (elim (present request.content_type) [ none ↦ "" | some t ↦ t ]) "application/json"
    let route = if is_json then json_route c request else upload_route c request
    catch route (λ e. pure (error_reply 500 (message_of e)))

  -- `GET` of blob/[id]/route.ts. Here the client is made inside of the `try` block.
  pub get_blob : (blob_id : String) → Io Server Reply
  unfolding get_client
  get_blob blob_id = elim (present (some blob_id)) [
    | none ↦ pure (error_reply 400 "missing blob id")
    | some id ↦
        catch
          (do
            c ← get_client
            buffer ← with_client c (download_blob p id)
            pure (record {
              status = 200;
              headers =
                  ("Content-Type", sniff_blob p.utf8_decode buffer)
                  ∷ ("Cache-Control", "public, max-age=60")
                  ∷ [];
              content = bytes buffer;
            }))
          (λ e. pure (error_reply 500 (message_of e)))
  ]
