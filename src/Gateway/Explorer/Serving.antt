-- ===== src/Gateway/Explorer/Serving.antt =====
-- The addresses of the explorer (src/blob_gateway/ui/src/pages) and the routes of the gateway
-- (src/blob_gateway/server.rs), which lie under /explorer.
use text.Mathlib.TextLemmas.{nil-append, append-nil}
use Prim.Native.String
use onvm.Base.{refl, String, List, [], ◌∷◌}
use onvm.Sdk.Client.Endpoints.{Endpoint, get, dispatch, pieces}
use onvm.Sdk.Client.Endpoints.Serving.{IsPiece, Reaches, pieces-append}
use onvm.Gateway.Explorer.{info_url, download_url, cdn_url}
use onvm.Js.Shape.{Has}
use onvm.Js.Value.{undefined, str, show_value}

-- The routes but for those of the pages themselves, which take what no other route takes.
abbrev pub gateway_routes : List Endpoint
gateway_routes =
    get "/explorer/api/blob/:id" "get_blob_handler"
    ∷ get "/explorer/api/blob/:id/info" "get_blob_info"
    ∷ get "/explorer/api/health" "health_check"
    ∷ get "/explorer/api/cdn/:id" "cdn_serve_handler"
    ∷ []

-- A request for this address reaches the handler.
abbrev pub Serves : (address handler : String) → Type 0
Serves address handler = Reaches (dispatch gateway_routes "GET" (pieces address)) handler undefined

-- The addresses that the pages make of an id that is not empty and made of letters, digits, hyphens and
-- underscores reach the handlers for the information on a blob, its download and its content.
pub links_served :
    (id : String)
    → IsPiece id
    → Serves (info_url id) "get_blob_info"
      × Serves (download_url id) "get_blob_handler"
      × Serves (cdn_url (str id)) "cdn_serve_handler"
unfolding Has show_value
links_served id h = (
  rw
      (
        pieces-append "/explorer/api/blob/" id (String.◌++◌ "/info" "") refl h,
        nil-append,
        append-nil,
        h.1,
      )
      (refl, tt),
  rw
      (
        pieces-append "/explorer/api/blob/" id (String.◌++◌ "?download=true" "") refl h,
        nil-append,
        append-nil,
        h.1,
      )
      (refl, tt),
  rw (pieces-append "/explorer/api/cdn/" id "" refl h, nil-append, append-nil, h.1) (refl, tt),
)
