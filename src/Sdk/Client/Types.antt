-- ===== src/Sdk/Client/Types.antt =====
-- The types of requests and replies (onvm-sdk/src/types.ts).
use onvm.Js.Shape.{Shape, text, number, boolean, array, table, object, done, ◌⨾◌, ◌∶◌, ◌∶?◌}

abbrev pub health_response : Shape
health_response = object ("alive" ∶ boolean ⨾ done)

abbrev pub liveness_response : Shape
liveness_response = object ("alive" ∶ boolean ⨾ "mode" ∶ text ⨾ done)

abbrev pub readiness_response : Shape
readiness_response = object (
    "status" ∶ text
    ⨾ "queue_depth" ∶ number
    ⨾ "running_count" ∶ number
    ⨾ "capacity" ∶ number
    ⨾ "available_slots" ∶ number
    ⨾ done)

abbrev pub metrics_response : Shape
metrics_response = object (
    "total_jobs" ∶ number
    ⨾ "completed_jobs" ∶ number
    ⨾ "failed_jobs" ∶ number
    ⨾ "average_execution_time_ms" ∶ number
    ⨾ "total_fuel_consumed" ∶ number
    ⨾ done)

abbrev pub create_project_request : Shape
create_project_request = object ("identity_passphrase" ∶ text ⨾ "project_id" ∶? text ⨾ done)

abbrev pub create_project_response : Shape
create_project_response = object ("project_id" ∶ text ⨾ "project_secret" ∶ text ⨾ done)

abbrev pub deploy_program_request : Shape
deploy_program_request =
    object ("wasm_base64" ∶ text ⨾ "entrypoint" ∶ text ⨾ "blob_refs" ∶ array text ⨾ done)

abbrev pub deploy_program_response : Shape
deploy_program_response = object ("id" ∶ text ⨾ done)

abbrev pub program_info : Shape
program_info = object (
    "id" ∶ text
    ⨾ "publisher" ∶ text
    ⨾ "size" ∶ number
    ⨾ "entrypoint" ∶ text
    ⨾ "blob_refs" ∶ array text
    ⨾ done)

abbrev pub execute_request : Shape
execute_request = object ("program_id" ∶ text ⨾ "input_base64" ∶ text ⨾ done)

abbrev pub execute_response : Shape
execute_response = object ("return_base64" ∶ text ⨾ "fuel" ∶ number ⨾ done)

abbrev pub estimate_fuel_request : Shape
estimate_fuel_request = object ("program_id" ∶ text ⨾ "input_base64" ∶ text ⨾ done)

abbrev pub estimate_fuel_response : Shape
estimate_fuel_response = object (
    "estimated_fuel" ∶ number
    ⨾ "confidence" ∶ number
    ⨾ "based_on_samples" ∶ number
    ⨾ "input_size_bytes" ∶ number
    ⨾ "estimated_execution_time_ms" ∶ number
    ⨾ done)

abbrev pub fuel_sample : Shape
fuel_sample = object (
    "input_size" ∶ number
    ⨾ "fuel_consumed" ∶ number
    ⨾ "execution_time_ms" ∶ number
    ⨾ "timestamp" ∶ number
    ⨾ done)

abbrev pub fuel_profile_response : Shape
fuel_profile_response = object (
    "program_id" ∶ text
    ⨾ "samples" ∶ array fuel_sample
    ⨾ "average_fuel_per_byte" ∶ number
    ⨾ "base_fuel_cost" ∶ number
    ⨾ done)

abbrev pub submit_job_request : Shape
submit_job_request = object (
    "request_id" ∶ text
    ⨾ "program_id" ∶ text
    ⨾ "input_base64" ∶? text
    ⨾ "input_blob_id" ∶? text
    ⨾ "max_retries" ∶? number
    ⨾ "metadata" ∶? table text
    ⨾ done)

abbrev pub submit_job_response : Shape
submit_job_response = object ("job_id" ∶ text ⨾ "status" ∶ text ⨾ done)

abbrev pub job_status_response : Shape
job_status_response = object (
    "job_id" ∶ text
    ⨾ "request_id" ∶ text
    ⨾ "program_id" ∶ text
    ⨾ "status" ∶ text
    ⨾ "fuel_consumed" ∶ number
    ⨾ "created_at" ∶ number
    ⨾ "started_at" ∶? number
    ⨾ "completed_at" ∶? number
    ⨾ "duration_ms" ∶? number
    ⨾ "retry_count" ∶ number
    ⨾ "error_message" ∶? text
    ⨾ "metadata" ∶? table text
    ⨾ done)

abbrev pub log_entry : Shape
log_entry = object ("timestamp" ∶ number ⨾ "level" ∶ text ⨾ "message" ∶ text ⨾ done)

abbrev pub job_logs_response : Shape
job_logs_response = object ("logs" ∶ array log_entry ⨾ done)

abbrev pub job_output_response : Shape
job_output_response = object ("job_id" ∶ text ⨾ "output_base64" ∶ text ⨾ "size" ∶ number ⨾ done)

abbrev pub job_summary : Shape
job_summary = object (
    "job_id" ∶ text
    ⨾ "request_id" ∶ text
    ⨾ "program_id" ∶ text
    ⨾ "status" ∶ text
    ⨾ "created_at" ∶ number
    ⨾ "completed_at" ∶? number
    ⨾ done)

abbrev pub job_list_response : Shape
job_list_response = object ("jobs" ∶ array job_summary ⨾ "total" ∶ number ⨾ done)

abbrev pub aggregated_receipt : Shape
aggregated_receipt = object (
    "program_id" ∶ text
    ⨾ "state_root_in" ∶ text
    ⨾ "state_root_out" ∶ text
    ⨾ "write_digest" ∶ text
    ⨾ "gas_used" ∶ number
    ⨾ "signer_bitmap" ∶ text
    ⨾ "committee_epoch" ∶ number
    ⨾ "receipt_id" ∶ text
    ⨾ done)

abbrev pub program_receipts_response : Shape
program_receipts_response = object ("receipts" ∶ array aggregated_receipt ⨾ done)

abbrev pub committee_member : Shape
committee_member = object ("node" ∶ text ⨾ "weight" ∶ number ⨾ "bls_public_key" ∶ text ⨾ done)

abbrev pub program_committee_response : Shape
program_committee_response = object (
    "program_id" ∶ text
    ⨾ "epoch" ∶ number
    ⨾ "aggregate_public_key" ∶ text
    ⨾ "members" ∶ array committee_member
    ⨾ "threshold" ∶ number
    ⨾ done)

abbrev pub program_state_root_response : Shape
program_state_root_response =
    object
      ("program_id" ∶ text ⨾ "root" ∶ text ⨾ "proof" ∶? array text ⨾ "value_hex" ∶? text ⨾ done)

abbrev pub catalog_entry : Shape
catalog_entry = object (
    "program_id" ∶ text
    ⨾ "version" ∶ number
    ⨾ "initial_state_root" ∶ text
    ⨾ "dag_parent" ∶? text
    ⨾ "code_manifest" ∶? text
    ⨾ "timestamp_ms" ∶ number
    ⨾ done)

abbrev pub program_catalog_response : Shape
program_catalog_response = object ("catalog" ∶ array catalog_entry ⨾ done)
