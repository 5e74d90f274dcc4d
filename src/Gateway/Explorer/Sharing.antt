-- ===== src/Gateway/Explorer/Sharing.antt =====
-- The page of a shared blob (src/blob_gateway/ui/src/pages/SharePage.tsx): what it shows, and its
-- buttons that copy, with the field of a link (components/ShareLinkInput.tsx).
use onvm.Base.{◌≡◌, refl, ap, ◌∙◌, ℕ, suc, ◌-◌, String, Bool, true, false, if◌then◌else◌}
use onvm.Gateway.Explorer.{
  Page, Note, Share, preview_type, direct_link, embed_code, load_share, stop_share, info_request,
  set, note, copy, attempt,
}
use onvm.Gateway.Explorer.Fetching.{info_request_view}
use onvm.Js.Value.{Value, null, truthy}
use onvm.Js.Result.{Result, ok, throw}
use onvm.Js.Io.{Io, resume, ◌>>◌}
use onvm.Js.Platform.{Platform}
use Prim.Native.Char.{Char}

-- What the page shows.
data Screen : Type 0 where
  spinner not_found : Screen
  details : (mime_type : Value) → Screen

abbrev screen : Share → Screen
screen v =
    if v.loading
    then Screen.spinner
    else if truthy v.blob_info
    then Screen.details (preview_type v.blob_info)
    else Screen.not_found

unfoldable handle_copy_direct_link : (origin content_id : String) → Io (Page Share) (Unit {0})
handle_copy_direct_link origin content_id =
    copy (direct_link origin content_id) >> note (Note.success "Direct link copied to clipboard!")

unfoldable handle_copy_embed_code : (origin content_id : String) → Io (Page Share) (Unit {0})
handle_copy_embed_code origin content_id =
    copy (embed_code origin content_id) >> note (Note.success "Embed code copied to clipboard!")

-- The field of a link, with the number of timers that are running.
record LinkInput : Type 0 where
  pub copied : Bool
  pub timers : ℕ

abbrev handle_copy : (value : String) → Io (Page LinkInput) (Unit {0})
handle_copy value =
    copy value
    >> set (λ v. record v { copied = true })
    >> note (Note.success "Copied to clipboard!")
    >> set (λ v. record v { timers = suc v.timers })

-- A timer ends after two seconds, whatever was copied since.
abbrev end_of_timer : LinkInput → LinkInput
end_of_timer v = record v { copied = false; timers = v.timers - 1 }

-- The page after the reply on the blob.
abbrev informed : Result Value → Share → Share
informed (ok info) v = record v { loading = false; blob_info = info }
informed (throw e) v = record v { loading = false }

informed_reply :
    (r : Result Value) (s : Page Share)
    → let t =
        attempt stop_share (λ u. resume r (λ info. set (λ v. record v { blob_info = info })) u) s in
      (t.0 ≡ ok tt) × (t.1.view ≡ informed r s.view)
informed_reply (ok info) s = (refl, refl)
informed_reply (throw e) s = (refl, refl)

-- What is shown by the reply.
abbrev shown_screen : Result Value → Screen
shown_screen (ok info) =
    if truthy info then Screen.details (preview_type info) else Screen.not_found
shown_screen (throw e) = Screen.not_found

informed-screen :
    (r : Result Value) (v : Share) → v.blob_info ≡ null → screen (informed r v) ≡ shown_screen r
informed-screen (ok info) v empty = refl
informed-screen (throw e) v empty = rw empty refl

module _ (p : Platform) where
  -- The effect of a page with an id ends, and the spinner with it: the page shows what is known of the
  -- blob if the request succeeded, and what it showed before if not.
  load_share_lem :
      (c : Char) (t : String) (s : Page Share)
      → let id = String.◌∷◌ c t in
        ((load_share p id s).0 ≡ ok tt)
        × ((load_share p id s).1.view ≡ informed (info_request p id s).0 s.view)
  load_share_lem c t s =
      let id = String.◌∷◌ c t in
      let (ends, shown) = informed_reply (info_request p id s).0 (info_request p id s).1 in
      (ends, shown ∙ ap (informed (info_request p id s).0) (info_request_view p id s))

-- A page with an id shows, after its request, the type of the blob if there is information on it, and
-- that there is no blob if the request failed.
load_share-screen :
    (p : Platform) (c : Char) (t : String) (s : Page Share)
    → s.view.blob_info ≡ null
    → let id = String.◌∷◌ c t in
      screen (load_share p id s).1.view ≡ shown_screen (info_request p id s).0
load_share-screen p c t s empty =
    ap screen (load_share_lem p c t s).1
    ∙ informed-screen (info_request p (String.◌∷◌ c t) s).0 s.view empty
