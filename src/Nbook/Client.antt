-- ===== src/Nbook/Client.antt =====
-- `NbookONVMClient` (wasm_programs/nbook/ui/lib/onvm-client.ts): requests to the program through the
-- API route of the site, and blobs.
pub mod Sending
pub mod Answers
pub mod Refusals
pub mod Settling
use text.Mathlib.Text.{◌==◌}
use Prim.Native.Char.{code}
use onvm.Base.{
  ℕ, String, Bool, true, false, not, ◌&&◌, Option, none, some, List, [], ◌∷◌, ltb, if◌then◌else◌,
}
use onvm.Base.Texts.{present, or_text}
use onvm.Sdk.Errors.{Fault, builtin}
use onvm.Sdk.Client.Methods.{texts, optional_text}
use onvm.Nbook.Ops.{Op, op_value, fallback, text_field}
use onvm.Nbook.Sniff.{sniff_content_type}
use onvm.Nbook.Normalize.{normalize_post, normalize_profile, normalize_users, map_value}
use onvm.Js.Value.{
  Value, undefined, num, bool, str, arr, obj, Fields, end, field, truthy, or_value, is_text,
  show_value,
}
use onvm.Js.Result.{Result, ok, throw, member}
use onvm.Js.Result
use onvm.Js.Io.{Io, pure, fail, lift, fail_if, ◌>>=◌, ◌>>◌}
use onvm.Js.Platform.{Platform, Bytes, Trace, HttpRequest, HttpResponse, Payload, is_ok, json_of}

-- What the page shares: whether there is a window, the entry "nbook_session" of its local storage,
-- and the requests that it has sent.
pub record Browser : Type 0 where
  pub has_window : Bool
  pub stored : Option String
  pub sent : Trace

-- Every character is in Latin-1.
unfoldable pub all_latin1 : String → Bool
all_latin1 String.[] = true
all_latin1 (String.◌∷◌ c s) = ltb (code c) 256 && all_latin1 s

abbrev pub codes : String → List ℕ
codes String.[] = []
codes (String.◌∷◌ c s) = code c ∷ codes s

-- `throw new Error(v.message || fallback)`
abbrev error_of : Value → String → Fault
error_of message t = builtin "Error" (show_value (or_value message (str t)))

-- `throw new Error(error.error || fallback)` with the JSON of an error reply; a body that cannot be
-- read stands for one whose `error` is the fallback.
abbrev reply_error : Result Value → String → Result Fault
reply_error (ok body) t = elim (member body "error") [
  | ok e ↦ ok (error_of e t)
  | throw f ↦ throw f
]
reply_error (throw f) t = ok (builtin "Error" t)

module _ (p : Platform) (program_id : String) where
  open p use {json_parse, json_stringify, base64_encode, atob}

  -- `btoa(t)`
  unfoldable pub btoa : String → Result String
  unfolding all_latin1
  btoa t =
      if all_latin1 t
      then ok (base64_encode (codes t))
      else throw (
          builtin "InvalidCharacterError"
            "The string contains characters outside of the Latin1 range.")

  abbrev send : HttpRequest → Io Browser HttpResponse
  send req s = (p.fetch s.sent req, record s { sent = req ∷ s.sent })

  abbrev api_request : (content_type : String) → Payload → HttpRequest
  api_request content_type body = record {
    url = "/api/onvm";
    method = "POST";
    headers = ("Content-Type", content_type) ∷ [];
    body = body;
    abort_after = none;
  }

  abbrev pub json_request : Value → HttpRequest
  json_request v = api_request "application/json" (Payload.text (json_stringify v))

  -- `if (!response.ok) throw …`
  abbrev pub refuse_unless_ok : HttpResponse → String → Io Browser (Unit {0})
  refuse_unless_ok response t =
      if is_ok response
      then pure tt
      else (lift (reply_error (json_of p response) t) >>= λ f. fail f)

  unfoldable pub execute_program : Value → Io Browser Value
  unfolding btoa
  execute_program request = do
    input_base64 ← lift (btoa (json_stringify request))
    response ← send (
        json_request (
          obj (
            text_field "operation" "executeProgram"
              (text_field "program_id" program_id (text_field "input_base64" input_base64 end)))))
    refuse_unless_ok response "Failed to execute program"
    result ← lift (json_of p response)
    encoded ← lift (member result "return_base64")
    return_data ← lift (atob (show_value encoded))
    parsed ← lift (json_parse return_data)
    status ← lift (member parsed "status")
    fail_if (not (truthy status)) (builtin "Error" "invalid response from program")
    pure parsed

  -- The request of a method, and its check of the status.
  unfoldable pub call : Op → Io Browser Value
  unfolding execute_program
  call op = do
    response ← execute_program (op_value op)
    status ← lift (member response "status")
    message ← lift (member response "message")
    fail_if (is_text status "error") (error_of message (fallback op))
    pure response

  -- The session and its expiry; any status but "login_ok" is an error.
  pub login_user : (username password : String) → Io Browser (Value × Value)
  unfolding execute_program
  login_user username password = do
    response ← execute_program (op_value (Op.login username password))
    status ← lift (member response "status")
    message ← lift (member response "message")
    fail_if (not (is_text status "login_ok"))
        (error_of message (fallback (Op.login username password)))
    session ← lift (member response "session")
    expires_ms ← lift (member response "expires_ms")
    pure (session, expires_ms)

  -- What a method returns of the program's reply.
  unfoldable pub result_of : Op → Value → Result Value
  result_of (Op.register u q) r = ok r
  result_of (Op.login u q) r = Result.◌>>=◌ (member r "status") (λ status.
      Result.◌>>=◌ (member r "message") (λ message. Result.◌>>=◌ (member r "session") (λ session.
        Result.◌>>=◌ (member r "expires_ms") (λ expires_ms.
          if is_text status "login_ok"
          then ok (obj (field "session" session (field "expiresMs" expires_ms end)))
          else throw (error_of message (fallback (Op.login u q)))))))
  result_of (Op.create_post s t a) r = Result.◌>>=◌ (member r "post") normalize_post
  result_of (Op.get_post id) r = Result.◌>>=◌ (member r "post") normalize_post
  result_of (Op.like s id) r = Result.◌>>=◌ (member r "post") normalize_post
  result_of (Op.comment s id t) r = Result.◌>>=◌ (member r "post") normalize_post
  result_of (Op.feed s limit discover) r =
      Result.◌>>=◌ (member r "posts") (map_value normalize_post)
  result_of (Op.profile u) r = Result.◌>>=◌ (member r "profile") normalize_profile
  result_of (Op.search_users s q limit) r = Result.◌>>=◌ (member r "users") normalize_users
  result_of (Op.suggestions s limit) r = Result.◌>>=◌ (member r "users") normalize_users
  result_of (Op.followers s u limit) r = Result.◌>>=◌ (member r "users") normalize_users
  result_of (Op.following s u limit) r = Result.◌>>=◌ (member r "users") normalize_users
  result_of _ r = ok undefined

  -- A method of the client but `uploadBlob` and `fetchBlob`; `login_user` is `login` with a pair for its
  -- result.
  unfoldable pub perform : Op → Io Browser Value
  unfolding call result_of
  perform op = call op >>= λ r. lift (result_of op r)

  abbrev pub upload_blob : Bytes → Io Browser Value
  upload_blob buffer = do
    response ← send (api_request "application/octet-stream" (Payload.bytes buffer))
    refuse_unless_ok response "Failed to upload blob"
    result ← lift (json_of p response)
    lift (member result "id")

  -- The bytes of the blob and the type that is sniffed for them.
  abbrev pub fetch_blob : (id : String) → Io Browser (Bytes × String)
  fetch_blob id = do
    response ←
        send (json_request (obj (text_field "operation" "downloadBlob" (text_field "id" id end))))
    refuse_unless_ok response "Failed to download blob"
    buffer ← lift response.body
    let header_ct = or_text (response.header "content-type") ""
    pure (buffer, sniff_content_type buffer header_ct)
