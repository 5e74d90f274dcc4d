-- ===== src/Sdk/Client/Blobs.antt =====
-- `uploadBlob` and `downloadBlob` (onvm-sdk/src/client.ts), which do not go through `request`.
use onvm.Base.{String, Option, none, some, [], ◌∷◌, if◌then◌else◌}
use onvm.Base.Texts.{concat, present}
use onvm.Sdk.Errors.{Fault, Detail, new_onvm_error, new_network_error, message_of}
use onvm.Sdk.Auth.{canonical, decrypt_response, decrypt_response_to_buffer}
use onvm.Sdk.Client.{OnvmClient, NodeMode, Session, send}
use onvm.Sdk.Client.Mode.{detect_node_mode}
use onvm.Sdk.Client.Reply.{Stamp, sealed_by, is_aead, parse_or_empty}
use onvm.Sdk.Client.Request.{sign}
use onvm.Js.Value.{Value}
use onvm.Js.Result.{Result, throw, ◌>>=◌ as bind}
use onvm.Js.Io.{Io, fail, lift, catch, ◌>>=◌}
use onvm.Js.Platform.{Platform, Bytes, Headers, HttpRequest, HttpResponse, Payload, is_ok, text_of}

abbrev pub mime_headers : Option String → Headers
mime_headers mime_type = elim (present mime_type) [ none ↦ [] | some mime ↦ ("x-mime", mime) ∷ [] ]

abbrev network_error : (what endpoint : String) → Fault → Fault
network_error what endpoint e =
    new_network_error (concat (what ∷ endpoint ∷ ": " ∷ message_of e ∷ [])) (Detail.cause e)

module _ (p : Platform) where
  open p use {json_parse, utf8_decode}

  -- `uploadBlob` after the response has arrived.
  unfoldable pub read_upload :
      NodeMode → OnvmClient → Stamp → (body : String) → HttpResponse → Result Value
  read_upload mode c stamp body response = bind (text_of p response) λ t.
      if is_ok response
      then elim (sealed_by mode c stamp) [
        | none ↦ parse_or_empty p t
        | some by ↦
            if is_aead (response.header "x-response-aead")
            then bind
                (decrypt_response p t by.keys.response_key by.nonce by.timestamp
                  (canonical "POST" "/blobs" by.timestamp by.nonce body)
                  (response.header "x-response-nonce"))
                json_parse
            else parse_or_empty p t
      ]
      else throw (
          new_onvm_error (concat ("Upload failed: " ∷ response.status_text ∷ []))
            (some response.status) (Detail.text t))

  abbrev signed_upload :
      (content : Bytes) (mime_type : Option String) → NodeMode → Session → Headers × Stamp
  signed_upload content mime_type mode s =
      sign p s.sent mode s.client "POST" "/blobs" (utf8_decode content) (mime_headers mime_type)

  -- The arguments of `fetch`; there is no timeout.
  abbrev pub upload_request :
      (content : Bytes) (mime_type : Option String) → NodeMode → Session → HttpRequest
  upload_request content mime_type mode s = record {
    url = concat (s.client.rpc_url ∷ "/blobs" ∷ []);
    method = "POST";
    headers = (signed_upload content mime_type mode s).0;
    body = Payload.bytes content;
    abort_after = none;
  }

  -- `uploadBlob` in a known mode.
  unfoldable upload_in : (content : Bytes) (mime_type : Option String) → NodeMode → Io Session Value
  unfolding read_upload sign
  upload_in content mime_type mode s =
      (catch (send p (upload_request content mime_type mode s)) (λ e. fail (
            network_error "Network error uploading blob to "
              (concat (s.client.rpc_url ∷ "/blobs" ∷ [])) e))
          >>= λ response. lift (
              read_upload mode s.client (signed_upload content mime_type mode s).1
                (utf8_decode content) response))
        s

  pub upload_blob : (content : Bytes) (mime_type : Option String) → Io Session Value
  unfolding upload_in
  upload_blob content mime_type = do mode ← detect_node_mode p; upload_in content mime_type mode

  -- `downloadBlob` after the response has arrived.
  unfoldable pub read_download :
      NodeMode → OnvmClient → Stamp → (path : String) → HttpResponse → Result Bytes
  read_download mode c stamp path response =
      if is_ok response
      then elim (sealed_by mode c stamp) [
        | none ↦ response.body
        | some by ↦
            if is_aead (response.header "x-response-aead")
            then bind (text_of p response) (λ t.
              decrypt_response_to_buffer p t by.keys.response_key by.nonce by.timestamp
                (canonical "GET" path by.timestamp by.nonce "")
                (response.header "x-response-nonce"))
            else response.body
      ]
      else throw (
          new_onvm_error (concat ("Download failed: " ∷ response.status_text ∷ []))
            (some response.status) Detail.omitted)

  abbrev signed_download : (blob_id : String) → NodeMode → Session → Headers × Stamp
  signed_download blob_id mode s =
      sign p s.sent mode s.client "GET" (concat ("/blobs/" ∷ blob_id ∷ [])) "" []

  -- The arguments of `fetch`; there is no timeout.
  abbrev pub download_request : (blob_id : String) → NodeMode → Session → HttpRequest
  download_request blob_id mode s = record {
    url = concat (s.client.rpc_url ∷ "/blobs/" ∷ blob_id ∷ []);
    method = "GET";
    headers = (signed_download blob_id mode s).0;
    body = Payload.absent;
    abort_after = none;
  }

  -- `downloadBlob` in a known mode.
  unfoldable download_in : (blob_id : String) → NodeMode → Io Session Bytes
  unfolding read_download sign
  download_in blob_id mode s =
      (catch (send p (download_request blob_id mode s)) (λ e. fail (
            network_error "Network error downloading blob from "
              (concat (s.client.rpc_url ∷ "/blobs/" ∷ blob_id ∷ [])) e))
          >>= λ response. lift (
              read_download mode s.client (signed_download blob_id mode s).1
                (concat ("/blobs/" ∷ blob_id ∷ [])) response))
        s

  pub download_blob : (blob_id : String) → Io Session Bytes
  unfolding download_in
  download_blob blob_id = do mode ← detect_node_mode p; download_in blob_id mode
