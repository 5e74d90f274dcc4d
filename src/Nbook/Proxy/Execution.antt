-- ===== src/Nbook/Proxy/Execution.antt =====
-- The route of the site that runs a program, against the method of the SDK.
use onvm.Base.{◌≡◌, refl, String, some, []}
use onvm.Sdk.Errors.{message_of}
use onvm.Sdk.Client.{OnvmClient, OnvmClientConfig, Session}
use onvm.Sdk.Client.Methods.{Call, perform}
use onvm.Sdk.Client.Request.{request}
use onvm.Nbook.Proxy.{Reply, Incoming, Server, error_reply, json_reply, get_client, post}
use onvm.Js.Value.{Value, str, obj, end, field}
use onvm.Js.Result.{Result, ok, throw}
use onvm.Js.Io.{handle, pure, resume}
use onvm.Js.Platform.{Platform, Bytes}

-- What the route makes of an execution.
abbrev pub execution_reply : Result Value → Reply
execution_reply (ok result) = json_reply result
execution_reply (throw e) = error_reply 500 (message_of e)

-- The request of a page that runs a program.
abbrev pub execution_request : (program_id input_base64 : String) → Result Bytes → Incoming
execution_request program_id input_base64 raw = record {
  content_type = some "application/json";
  raw = raw;
  body = ok (
      obj (
        field "operation" (str "executeProgram")
          (field "program_id" (str program_id) (field "input_base64" (str input_base64) end))));
}

module _ (encode_uri : String → String) (p : Platform) (config : OnvmClientConfig) where
  abbrev server_after : Session → Server
  server_after after = record { client_instance = some after.client; sent = after.sent }

  handle_execution :
      (r : Result Value) (after : Session)
      → handle
          (resume r (λ v. pure (json_reply v)) (server_after after)).0
          (λ e. pure (error_reply 500 (message_of e)))
          (resume r (λ v. pure (json_reply v)) (server_after after)).1
        ≡ (
          ok (execution_reply (resume r (λ v. pure v) after).0),
          server_after (resume r (λ v. pure v) after).1,
        )
  handle_execution (ok v) after = refl
  handle_execution (throw e) after = refl

  -- With a client at hand, a page's request to run a program is answered by what the method
  -- `executeProgram` of the SDK gives for it, and the client is kept as the method leaves it.
  pub post_executes :
      (program_id input_base64 : String) (raw : Result Bytes) (s : Server) (c : OnvmClient)
      → s.client_instance ≡ some c
      → post p config (execution_request program_id input_base64 raw) s ≡ (
          let (r, after) =
            perform encode_uri p
              (Call.execute_program
                (record { program_id = program_id; input_base64 = input_base64 }))
              (record { client = c; sent = s.sent }) in
          (
            ok (execution_reply r),
            record { client_instance = some after.client; sent = after.sent },
          ))
  unfolding post get_client perform
  post_executes program_id input_base64 raw s c made = rw made (
      let (r, after) =
        request p "POST" "/execute"
          (obj (field "program_id" (str program_id) (field "input_base64" (str input_base64) end)))
          [] (record { client = c; sent = s.sent }) in
      handle_execution r after)
