-- ===== src/Sdk/Client/Methods.antt =====
-- The methods of `OnvmClient` that go through `request` (onvm-sdk/src/client.ts), and the requests
-- of onvm-sdk/src/types.ts that they send as JSON.
pub mod Shapes
pub mod Typing
use onvm.Base.{ℕ, String, Option, none, some, List, [], ◌∷◌}
use onvm.Base.Texts.{concat, present}
use onvm.Sdk.Client.{Session}
use onvm.Sdk.Client.Request.{request}
use onvm.Js.Value.{Value, undefined, num, str, arr, obj, Items, nil, cons, Fields, end, field}
use onvm.Js.Io.{Io, pure, ◌>>=◌}
use onvm.Js.Platform.{Platform}

abbrev pub texts : List String → Items
texts [] = nil
texts (s ∷ ss) = cons (str s) (texts ss)

abbrev pub optional_text : Option String → Value
optional_text none = undefined
optional_text (some t) = str t

abbrev pub optional_number : Option ℕ → Value
optional_number none = undefined
optional_number (some n) = num n

abbrev pub text_fields : List (String × String) → Fields
text_fields [] = end
text_fields ((k, v) ∷ more) = field k (str v) (text_fields more)

abbrev pub optional_texts : Option (List (String × String)) → Value
optional_texts none = undefined
optional_texts (some m) = obj (text_fields m)

pub record CreateProjectRequest : Type 0 where
  pub identity_passphrase : String
  pub project_id : Option String

pub record DeployProgramRequest : Type 0 where
  pub wasm_base64 : String
  pub entrypoint : String
  pub blob_refs : List String

pub record ExecuteRequest : Type 0 where
  pub program_id : String
  pub input_base64 : String

pub record EstimateFuelRequest : Type 0 where
  pub program_id : String
  pub input_base64 : String

pub record SubmitJobRequest : Type 0 where
  pub request_id : String
  pub program_id : String
  pub input_base64 : Option String
  pub input_blob_id : Option String
  pub max_retries : Option ℕ
  pub metadata : Option (List (String × String))

-- One constructor for each method: what a caller may ask for.
pub data Call : Type 0 where
  health liveness readiness metrics : Call
  create_project : CreateProjectRequest → Call
  deploy_program : DeployProgramRequest → Call
  get_program_info : (program_id : String) → Call
  execute_program : ExecuteRequest → Call
  estimate_fuel : EstimateFuelRequest → Call
  get_fuel_profile : (program_id : String) → Call
  get_program_receipts : (program_id : String) → Call
  get_program_committee : (program_id : String) → Call
  get_program_state_root : (program_id : String) → (key : Option String) → Call
  list_program_catalog : Call
  submit_job : SubmitJobRequest → Call
  get_job_status get_job_logs get_job_output cancel_job : (job_id : String) → Call
  list_jobs : Call

abbrev create_project_value : CreateProjectRequest → Value
create_project_value r = obj (
    field "identity_passphrase" (str r.identity_passphrase)
      (field "project_id" (optional_text r.project_id) end))

abbrev deploy_program_value : DeployProgramRequest → Value
deploy_program_value r = obj (
    field "wasm_base64" (str r.wasm_base64)
      (field "entrypoint" (str r.entrypoint) (field "blob_refs" (arr (texts r.blob_refs)) end)))

abbrev execute_value : ExecuteRequest → Value
execute_value r =
    obj (field "program_id" (str r.program_id) (field "input_base64" (str r.input_base64) end))

abbrev estimate_fuel_value : EstimateFuelRequest → Value
estimate_fuel_value r =
    obj (field "program_id" (str r.program_id) (field "input_base64" (str r.input_base64) end))

abbrev submit_job_value : SubmitJobRequest → Value
submit_job_value r = obj (
    field "request_id" (str r.request_id) (
      field "program_id" (str r.program_id) (
        field "input_base64" (optional_text r.input_base64) (
          field "input_blob_id" (optional_text r.input_blob_id) (
            field "max_retries" (optional_number r.max_retries)
              (field "metadata" (optional_texts r.metadata) end))))))

abbrev post : String
post = "POST"

abbrev get : String
get = "GET"

-- `get_program_state_root` escapes the key with `encodeURIComponent`, which is a parameter.
module _ (encode_uri : String → String) where
  abbrev state_root_path : String → Option String → String
  state_root_path program_id key = elim (present key) [
    | some k ↦ concat ("/programs/" ∷ program_id ∷ "/state-root?key=" ∷ encode_uri k ∷ [])
    | none ↦ concat ("/programs/" ∷ program_id ∷ "/state-root" ∷ [])
  ]

  -- The method, path and body that each method of the client passes to `request`.
  unfoldable pub route : Call → record { method : String; path : String; body : Value }
  route Call.health = record { method = get; path = "/health"; body = undefined }
  route Call.liveness = record { method = get; path = "/health/liveness"; body = undefined }
  route Call.readiness = record { method = get; path = "/health/readiness"; body = undefined }
  route Call.metrics = record { method = get; path = "/health/metrics"; body = undefined }
  route (Call.create_project r) = record {
    method = post;
    path = "/rpc-auth/projects";
    body = create_project_value r;
  }
  route (Call.deploy_program r) = record {
    method = post;
    path = "/programs";
    body = deploy_program_value r;
  }
  route (Call.get_program_info id) = record {
    method = get;
    path = concat ("/programs/" ∷ id ∷ []);
    body = undefined;
  }
  route (Call.execute_program r) = record {
    method = post;
    path = "/execute";
    body = execute_value r;
  }
  route (Call.estimate_fuel r) = record {
    method = post;
    path = "/estimate-fuel";
    body = estimate_fuel_value r;
  }
  route (Call.get_fuel_profile id) = record {
    method = get;
    path = concat ("/fuel-profile/" ∷ id ∷ []);
    body = undefined;
  }
  route (Call.get_program_receipts id) = record {
    method = get;
    path = concat ("/programs/" ∷ id ∷ "/receipts" ∷ []);
    body = undefined;
  }
  route (Call.get_program_committee id) = record {
    method = get;
    path = concat ("/programs/" ∷ id ∷ "/committee" ∷ []);
    body = undefined;
  }
  route (Call.get_program_state_root id key) = record {
    method = get;
    path = state_root_path id key;
    body = undefined;
  }
  route Call.list_program_catalog = record {
    method = get;
    path = "/program-catalog";
    body = undefined;
  }
  route (Call.submit_job r) = record { method = post; path = "/jobs"; body = submit_job_value r }
  route (Call.get_job_status id) = record {
    method = get;
    path = concat ("/jobs/" ∷ id ∷ []);
    body = undefined;
  }
  route (Call.get_job_logs id) = record {
    method = get;
    path = concat ("/jobs/" ∷ id ∷ "/logs" ∷ []);
    body = undefined;
  }
  route (Call.get_job_output id) = record {
    method = get;
    path = concat ("/jobs/" ∷ id ∷ "/output" ∷ []);
    body = undefined;
  }
  route (Call.cancel_job id) = record {
    method = post;
    path = concat ("/jobs/" ∷ id ∷ "/cancel" ∷ []);
    body = undefined;
  }
  route Call.list_jobs = record { method = get; path = "/jobs"; body = undefined }

  -- What the method makes of the parsed reply.
  abbrev pub wrap : Call → Value → Value
  wrap (Call.get_program_receipts id) receipts = obj (field "receipts" receipts end)
  wrap Call.list_program_catalog catalog = obj (field "catalog" catalog end)
  wrap (Call.cancel_job id) reply = undefined
  wrap _ reply = reply

  -- A method of `OnvmClient`.
  unfoldable pub perform : Platform → Call → Io Session Value
  unfolding route
  perform p call = do
    let r = route call
    reply ← request p r.method r.path r.body []
    pure (wrap call reply)
