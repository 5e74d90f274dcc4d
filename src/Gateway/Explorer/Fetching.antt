-- ===== src/Gateway/Explorer/Fetching.antt =====
-- The request for the information on a blob, from the explorer's page.
use Prim.Native.Char.{Char}
use onvm.Base.{◌≡◌, refl, ap, String, false, none}
use onvm.Base.Texts.{trim}
use onvm.Gateway.Explorer.{
  Page, Note, Explorer, info_request, get, info_url, read_info, fetch_blob_info, start_fetch,
  stop_loading, set, note, attempt,
}
use onvm.Js.Value.{Value, null}
use onvm.Js.Result.{Result, ok, throw}
use onvm.Js.Io.{resume, lift, ◌>>◌}
use onvm.Js.Io.Laws.{resume_state}
use onvm.Js.Platform.{Platform}

-- What is shown of a blob after its request.
abbrev shown_info : Result Value → Value
shown_info (ok info) = info
shown_info (throw e) = null

module _ (p : Platform) where
  -- The page after an attempt, by its request's reply.
  after_info :
      (r : Result Value) (s : Page Explorer)
      → s.view.blob_info ≡ null
      → s.view.preview_url ≡ none
      → let t =
          attempt stop_loading
            (λ u.
              resume r
                (λ info.
                  set (λ v. record v { blob_info = info })
                  >> note (Note.success "Blob info loaded successfully"))
                u)
            s in
        (t.0 ≡ ok tt)
        × (t.1.view.loading ≡ false)
        × (t.1.view.blob_info ≡ shown_info r)
        × (t.1.view.preview_url ≡ none)
  after_info (ok info) s h k = (refl, refl, refl, k)
  after_info (throw e) s h k = (refl, refl, h, k)

  pub info_request_view :
      {V : Type 0} (id : String) (s : Page V) → (info_request p id s).1.view ≡ s.view
  info_request_view {V} id s =
      ap (λ (t : Page V). t.view)
        (resume_state (get p {V = V} (info_url id) s).0 (λ response. lift (read_info p response))
          (get p {V = V} (info_url id) s).1 (λ response. refl))

  -- A click with an id ends, and the page shows the blob's information if it came, and nothing of
  -- an earlier blob.
  fetch_blob_info_lem :
      (c : Char) (t : String) (s : Page Explorer)
      → trim s.view.blob_id ≡ String.◌∷◌ c t
      → let started : Page Explorer = record s { view = start_fetch s.view } in
        ((fetch_blob_info p s).0 ≡ ok tt)
        × ((fetch_blob_info p s).1.view.loading ≡ false)
        × ((fetch_blob_info p s).1.view.blob_info
            ≡ shown_info (info_request p s.view.blob_id started).0)
        × ((fetch_blob_info p s).1.view.preview_url ≡ none)
  unfolding fetch_blob_info
  fetch_blob_info_lem c t s full =
      let started : Page Explorer = record s { view = start_fetch s.view } in
      let kept = info_request_view s.view.blob_id started in
      rw full (
        after_info (info_request p s.view.blob_id started).0
          (info_request p s.view.blob_id started).1 (ap (λ v. v.blob_info) kept)
          (ap (λ v. v.preview_url) kept))
