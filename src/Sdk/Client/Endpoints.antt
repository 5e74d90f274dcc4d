-- ===== src/Sdk/Client/Endpoints.antt =====
-- What the node serves (src/rpc/mod.rs, src/rpc/jobs.rs and src/rpc/health.rs).
use package.text.Mathlib.Text.{◌==◌ as str_eq}
pub mod Serving
use Prim.Native.Char.{code}
use onvm.Base.{
  ◌^◌, ℕ, ◌≡◌, ◌≢◌, refl, ◌∙◌, ap, String, Bool, true, false, not, ◌&&◌, Option, none, some, List,
  [], ◌∷◌, ◌++◌, ◌==◌, if◌then◌else◌,
}
use onvm.Base.Texts.{concat, before}
use onvm.Base.Pieces.{split, splice, split-append, split-lacks, lacks, before-append}
use onvm.Js.Shape.{
  Shape, any, text, below, nullable, array, table, object, done, ◌⨾◌, ◌∶◌, ◌∶?◌, Has,
}
use onvm.Js.Value.{Value}

-- A route of the node: its handler, and what the handler reads of the body.
pub record Endpoint : Type 0 where
  pub method : String
  pub pattern : String
  pub handler : String
  pub body : Shape

abbrev pub get : (pattern handler : String) → Endpoint
get pattern handler = record { method = "GET"; pattern = pattern; handler = handler; body = any }

abbrev post : (pattern handler : String) → Shape → Endpoint
post pattern handler body = record {
  method = "POST";
  pattern = pattern;
  handler = handler;
  body = body;
}

-- The structures that the node reads; an `Option` may be missing or null.
abbrev create_project_body : Shape
create_project_body = object (
    "identity_passphrase" ∶ text
    ⨾ "project_id" ∶? nullable text
    ⨾ "project_secret" ∶? nullable text
    ⨾ done)

abbrev deploy_program_body : Shape
deploy_program_body =
    object ("wasm_base64" ∶ text ⨾ "entrypoint" ∶ text ⨾ "blob_refs" ∶ array text ⨾ done)

abbrev execute_body : Shape
execute_body = object ("program_id" ∶ text ⨾ "input_base64" ∶ text ⨾ done)

abbrev estimate_fuel_body : Shape
estimate_fuel_body = object ("program_id" ∶ text ⨾ "input_base64" ∶ text ⨾ done)

abbrev submit_job_body : Shape
submit_job_body = object (
    "request_id" ∶ text
    ⨾ "program_id" ∶ text
    ⨾ "input_base64" ∶? nullable text
    ⨾ "input_blob_id" ∶? nullable text
    ⨾ "max_retries" ∶? nullable (below (2 ^ 32))
    ⨾ "metadata" ∶? table text
    ⨾ done)

abbrev health_routes : List Endpoint
health_routes =
    get "/health/liveness" "liveness"
    ∷ get "/health/readiness" "readiness"
    ∷ get "/health/metrics" "metrics"
    ∷ []

abbrev job_routes : List Endpoint
job_routes =
    post "/jobs" "submit_job" submit_job_body
    ∷ get "/jobs/:id" "get_job_status"
    ∷ post "/jobs/:id/cancel" "cancel_job" any
    ∷ get "/jobs/:id/logs" "get_job_logs"
    ∷ get "/jobs/:id/output" "get_job_output"
    ∷ get "/jobs" "list_jobs"
    ∷ []

abbrev pub endpoints : List Endpoint
endpoints =
    post "/rpc-auth/projects" "create_project" create_project_body ∷ health_routes
    ++ get "/health" "health"
      ∷ post "/blobs" "upload_blob" any
      ∷ get "/blobs/:id" "fetch_blob"
      ∷ post "/programs" "deploy_program" deploy_program_body
      ∷ get "/programs/:id" "program_info"
      ∷ get "/programs/:id/receipts" "program_receipts"
      ∷ get "/programs/:id/committee" "program_committee"
      ∷ get "/programs/:id/state-root" "program_state_root"
      ∷ get "/program-catalog" "list_program_catalog"
      ∷ post "/execute" "execute_program" execute_body
      ∷ post "/estimate-fuel" "estimate_fuel" estimate_fuel_body
      ∷ get "/fuel-profile/:program_id" "get_fuel_profile"
      ∷ job_routes

-- A piece of a pattern that starts with a colon stands for any piece that is not empty.
abbrev is_parameter : String → Bool
is_parameter String.[] = false
is_parameter (String.◌∷◌ c s) = code c == code ":"

abbrev matches : (pattern path : List String) → Bool
matches [] [] = true
matches (p ∷ ps) (s ∷ ss) =
    (if is_parameter p then not (str_eq s "") else str_eq p s) && matches ps ss
matches _ _ = false

-- The pieces of a path, without its query.
abbrev pub pieces : String → List String
pieces path = split "/" (before "?" path)

-- The handler of a request. The patterns of one method and one length differ in a fixed piece, so the
-- order does not matter.
abbrev pub dispatch : List Endpoint → (method : String) → (path : List String) → Option Endpoint
dispatch [] method path = none
dispatch (e ∷ es) method path =
    if str_eq e.method method && matches (split "/" e.pattern) path
    then some e
    else dispatch es method path
