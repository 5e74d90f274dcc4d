-- ===== src/Gateway/Explorer.antt =====
-- The page of the blob explorer (src/blob_gateway/ui/src/pages/Index.tsx) and the page of a shared blob
-- (pages/SharePage.tsx).
pub mod Disposition
pub mod Fetching
pub mod Sharing
pub mod Serving
use onvm.Base.{String, Bool, true, false, not, Option, none, some, List, [], ◌∷◌, if◌then◌else◌}
use onvm.Base.Texts.{concat, trim, or_text}
use onvm.Sdk.Errors.{Fault, builtin, message_of}
use onvm.Gateway.Explorer.Disposition.{file_name}
use onvm.Js.Value.{Value, null, str, truthy, peek, or_value, show_value}
use onvm.Js.Result.{Result, ok, throw, member}
use onvm.Js.Result
use onvm.Js.Io.{Io, pure, fail, lift, catch, ◌>>=◌, ◌>>◌}
use onvm.Js.Platform.{
  Platform, Bytes, Trace, HttpRequest, HttpResponse, Payload, is_ok, text_of, json_of,
}

pub data Note : Type 0 where
  success error : (text : String) → Note

pub record Explorer : Type 0 where
  pub blob_id : String
  pub loading : Bool
  pub blob_info : Value
  pub preview_url : Option String

-- What the page has done besides: messages, addresses, copied texts and files that were saved.
pub record Page (V : Type 0) : Type 0 where
  pub sent : Trace
  pub view : V
  pub notes : List Note
  pub visited : List String
  pub copied : List String
  pub saved : List (String × Bytes)

module _ {V : Type 0} where
  abbrev pub set : (V → V) → Io (Page V) (Unit {0})
  set f s = (ok tt, record s { view = f s.view })

  abbrev pub note : Note → Io (Page V) (Unit {0})
  note n s = (ok tt, record s { notes = n ∷ s.notes })

  abbrev visit : String → Io (Page V) (Unit {0})
  visit address s = (ok tt, record s { visited = address ∷ s.visited })

  abbrev pub copy : String → Io (Page V) (Unit {0})
  copy t s = (ok tt, record s { copied = t ∷ s.copied })

  abbrev save : String → Bytes → Io (Page V) (Unit {0})
  save name content s = (ok tt, record s { saved = (name, content) ∷ s.saved })

  -- `toast.error(`Error: ${error.message}`)`
  abbrev report : Fault → Io (Page V) (Unit {0})
  report e = note (Note.error (concat ("Error: " ∷ message_of e ∷ [])))

  -- `try { m } catch (error) { toast.error } finally { set(done) }`
  abbrev pub attempt : (V → V) → Io (Page V) (Unit {0}) → Io (Page V) (Unit {0})
  attempt done m s =
      ((catch m report s).0, record (catch m report s).1 { view = done (catch m report s).1.view })

-- `blobInfo?.detected_mime_type || blobInfo?.mime_type || "application/octet-stream"`
unfoldable pub preview_type : (blob_info : Value) → Value
preview_type info =
    or_value (or_value (peek info "detected_mime_type") (peek info "mime_type"))
      (str "application/octet-stream")

abbrev pub start_fetch : Explorer → Explorer
start_fetch v = record v { loading = true; blob_info = null; preview_url = none }

abbrev pub stop_loading : Explorer → Explorer
stop_loading v = record v { loading = false }

abbrev pub download_url : (id : String) → String
download_url id = concat ("/explorer/api/blob/" ∷ id ∷ "?download=true" ∷ [])

abbrev pub cdn_url : (id : Value) → String
cdn_url id = concat ("/explorer/api/cdn/" ∷ show_value id ∷ [])

abbrev pub info_url : (id : String) → String
info_url id = concat ("/explorer/api/blob/" ∷ id ∷ "/info" ∷ [])

module _ (p : Platform) where
  abbrev pub get : {V : Type 0} → (url : String) → Io (Page V) HttpResponse
  get url s =
      let req : HttpRequest = record {
        url = url;
        method = "GET";
        headers = [];
        body = Payload.absent;
        abort_after = none;
      } in
      (p.fetch s.sent req, record s { sent = req ∷ s.sent })

  -- `throw new Error(await response.text())`
  abbrev refusal : {A : Type 0} → HttpResponse → Result A
  refusal response = Result.◌>>=◌ (text_of p response) (λ t. throw (builtin "Error" t))

  -- The information on a blob, from a reply.
  abbrev pub read_info : HttpResponse → Result Value
  read_info response = if is_ok response then json_of p response else refusal response

  abbrev pub info_request : {V : Type 0} → (id : String) → Io (Page V) Value
  info_request id = get (info_url id) >>= λ response. lift (read_info response)

  -- The `try` block of `fetchBlobInfo`.
  abbrev explore_request : (id : String) → Io (Page Explorer) (Unit {0})
  explore_request id = info_request id >>= λ info.
      set (λ v. record v { blob_info = info })
      >> note (Note.success "Blob info loaded successfully")

  -- The id is asked for as it was typed; only its emptiness is tested without white space.
  abbrev fetch_typed : (trimmed typed : String) → Io (Page Explorer) (Unit {0})
  fetch_typed String.[] typed = note (Note.error "Please enter a Blob ID")
  fetch_typed (String.◌∷◌ c t) typed =
      set start_fetch >> attempt stop_loading (explore_request typed)

  pub fetch_blob_info : Io (Page Explorer) (Unit {0})
  fetch_blob_info s = fetch_typed (trim s.view.blob_id) s.view.blob_id s

  unfoldable view_blob : Io (Page Explorer) (Unit {0})
  view_blob s =
      if truthy s.view.blob_info
      then (set (λ v. record v { loading = true })
            >> attempt stop_loading (
                set (λ v. record v { preview_url = some (cdn_url (peek s.view.blob_info "id")) })
                >> note (Note.success "Blob loaded successfully")))
          s
      else pure tt s

  -- The `try` block of `downloadBlob`: the file is saved under the name that the reply gives it.
  abbrev download_request : (id : String) → Io (Page Explorer) (Unit {0})
  download_request id = do
    response ← get (download_url id)
    content ← lift (if is_ok response then response.body else refusal response)
    save (or_text (file_name (or_text (response.header "content-disposition") "")) "download")
        content
    note (Note.success "Download started")

  unfoldable download_blob : Io (Page Explorer) (Unit {0})
  download_blob s =
      if truthy s.view.blob_info
      then (set (λ v. record v { loading = true })
            >> attempt stop_loading (download_request (show_value (peek s.view.blob_info "id"))))
          s
      else pure tt s

unfoldable share_blob : Io (Page Explorer) (Unit {0})
share_blob s =
    if truthy s.view.blob_info
    then visit (concat ("/share/" ∷ show_value (peek s.view.blob_info "id") ∷ [])) s
    else note (Note.error "Please fetch blob info first") s

-- `origin` is that of the window.
unfoldable copy_direct_link : (origin : String) → Io (Page Explorer) (Unit {0})
copy_direct_link origin s =
    if truthy s.view.blob_info
    then (copy (concat (origin ∷ cdn_url (peek s.view.blob_info "id") ∷ []))
          >> note (Note.success "CDN link copied to clipboard!"))
        s
    else note (Note.error "Please fetch blob info first") s

pub record Share : Type 0 where
  pub loading : Bool
  pub blob_info : Value

abbrev pub stop_share : Share → Share
stop_share v = record v { loading = false }

module _ (p : Platform) where
  -- The effect of the page of a shared blob; without an id nothing is asked for.
  abbrev pub load_share : (content_id : String) → Io (Page Share) (Unit {0})
  load_share String.[] = pure tt
  load_share (String.◌∷◌ c t) =
      attempt stop_share
        (info_request p (String.◌∷◌ c t) >>= λ info. set (λ v. record v { blob_info = info }))

unfoldable pub direct_link : (origin content_id : String) → String
direct_link origin content_id = concat (origin ∷ "/explorer/api/cdn/" ∷ content_id ∷ [])

unfoldable pub embed_code : (origin content_id : String) → String
unfolding direct_link
embed_code origin content_id =
    concat ("<img src=\"" ∷ direct_link origin content_id ∷ "\" alt=\"ONVM Content\">" ∷ [])
