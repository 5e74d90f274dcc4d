-- ===== src/Sdk/Client/Methods/Typing.antt =====
-- The methods of the client send what their types say, and return what their types say of replies that
-- have the declared types (onvm-sdk/src/client.ts).
use onvm.Base.{◌≡◌, refl, String, []}
use onvm.Sdk.Client.{Session}
use onvm.Sdk.Client.Request.{request}
use onvm.Sdk.Client.Methods.{Call, route, wrap, perform}
use onvm.Sdk.Client.Methods.Shapes.{
  texts-AllItems, optional_text-Has, optional_number-Has, optional_texts-Has,
}
use onvm.Sdk.Client.Types.{
  health_response, liveness_response, readiness_response, metrics_response, create_project_request,
  create_project_response, deploy_program_request, deploy_program_response, program_info,
  execute_request, execute_response, estimate_fuel_request, estimate_fuel_response,
  fuel_profile_response, submit_job_request, submit_job_response, job_status_response,
  job_logs_response, job_output_response, job_list_response, aggregated_receipt,
  program_receipts_response, program_committee_response, program_state_root_response, catalog_entry,
  program_catalog_response,
}
use onvm.Js.Shape.{Shape, any, absent, array, Has}
use onvm.Js.Value.{Value}
use onvm.Js.Result.{ok}
use onvm.Js.Platform.{Platform}

-- The type of the argument that is sent as the body.
abbrev pub body_type : Call → Shape
body_type (Call.create_project r) = create_project_request
body_type (Call.deploy_program r) = deploy_program_request
body_type (Call.execute_program r) = execute_request
body_type (Call.estimate_fuel r) = estimate_fuel_request
body_type (Call.submit_job r) = submit_job_request
body_type _ = absent

-- The type that a method returns.
abbrev pub result_type : Call → Shape
result_type Call.health = health_response
result_type Call.liveness = liveness_response
result_type Call.readiness = readiness_response
result_type Call.metrics = metrics_response
result_type (Call.create_project r) = create_project_response
result_type (Call.deploy_program r) = deploy_program_response
result_type (Call.get_program_info id) = program_info
result_type (Call.execute_program r) = execute_response
result_type (Call.estimate_fuel r) = estimate_fuel_response
result_type (Call.get_fuel_profile id) = fuel_profile_response
result_type (Call.get_program_receipts id) = program_receipts_response
result_type (Call.get_program_committee id) = program_committee_response
result_type (Call.get_program_state_root id key) = program_state_root_response
result_type Call.list_program_catalog = program_catalog_response
result_type (Call.submit_job r) = submit_job_response
result_type (Call.get_job_status id) = job_status_response
result_type (Call.get_job_logs id) = job_logs_response
result_type (Call.get_job_output id) = job_output_response
result_type (Call.cancel_job id) = absent
result_type Call.list_jobs = job_list_response

-- The type of reply that a method reads. Two methods wrap an array, of which the code says `any[]`.
abbrev pub reply_type : Call → Shape
reply_type (Call.get_program_receipts id) = array aggregated_receipt
reply_type Call.list_program_catalog = array catalog_entry
reply_type (Call.cancel_job id) = any
reply_type call = result_type call

wrap-Has :
    (encode_uri : String → String) (call : Call) (r : Value)
    → Has (reply_type call) r
    → Has (result_type call) (wrap encode_uri call r)
unfolding Has
wrap-Has encode_uri Call.health r h = h
wrap-Has encode_uri Call.liveness r h = h
wrap-Has encode_uri Call.readiness r h = h
wrap-Has encode_uri Call.metrics r h = h
wrap-Has encode_uri (Call.get_program_receipts id) r h = (_, refl, (h, tt))
wrap-Has encode_uri Call.list_program_catalog r h = (_, refl, (h, tt))
wrap-Has encode_uri (Call.cancel_job id) r h = refl
wrap-Has encode_uri call r h = h

route-Has :
    (encode_uri : String → String) (call : Call) → Has (body_type call) (route encode_uri call).body
unfolding Has route
route-Has encode_uri (Call.create_project r) =
    (_, refl, ((_, refl), (optional_text-Has r.project_id, tt)))
route-Has encode_uri (Call.deploy_program r) =
    (_, refl, ((_, refl), ((_, refl), ((_, refl, texts-AllItems r.blob_refs), tt))))
route-Has encode_uri (Call.execute_program r) = (_, refl, ((_, refl), ((_, refl), tt)))
route-Has encode_uri (Call.estimate_fuel r) = (_, refl, ((_, refl), ((_, refl), tt)))
route-Has encode_uri (Call.submit_job r) = (
  _,
  refl,
  (
    (_, refl),
    (
      (_, refl),
      (
        optional_text-Has r.input_base64,
        (
          optional_text-Has r.input_blob_id,
          (optional_number-Has r.max_retries, (optional_texts-Has r.metadata, tt)),
        ),
      ),
    ),
  ),
)
route-Has encode_uri call = refl

module _ (encode_uri : String → String) (p : Platform) where
  -- A method sends a body of the declared type; and of a reply of the declared type it returns a value of
  -- the type that it promises, and does not throw.
  pub perform-result_type :
      (call : Call) (r : Value) (s s' : Session)
      → request p
          (route encode_uri call).method
          (route encode_uri call).path
          (route encode_uri call).body
          []
          s
        ≡ (ok r, s')
      → Has (reply_type call) r
      → Has (body_type call) (route encode_uri call).body
        × ((v : Value) × (perform encode_uri p call s ≡ (ok v, s')) × Has (result_type call) v)
  unfolding perform
  perform-result_type call r s s' e h =
      (route-Has encode_uri call, (wrap encode_uri call r, rw e refl, wrap-Has encode_uri call r h))
