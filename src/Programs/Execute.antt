-- ===== src/Programs/Execute.antt =====
-- `executeProgram` of the school and identity clients: run the program by the SDK, and decode its
-- reply (wasm_programs/school_management/ui/lib/onvm-client.ts and
-- wasm_programs/identity_card/ui/lib/onvm-client.ts).
pub mod Replies
use onvm.Base.{String, Bool}
use onvm.Sdk.Errors.{builtin}
use onvm.Sdk.Client.{Session}
use onvm.Sdk.Client.Methods.{Call, perform}
use onvm.Js.Value.{Value, str, or_value, is_text, show_value}
use onvm.Js.Result.{member}
use onvm.Js.Io.{Io, pure, lift, fail_if, ◌>>=◌, ◌>>◌}
use onvm.Js.Platform.{Platform}

module _ (encode_uri : String → String) (p : Platform) (program_id : String) where
  open p use {utf8_encode, utf8_decode, base64_encode, base64_decode, json_parse, json_stringify}

  -- The reply of the program: the base64 text of JSON in UTF-8.
  unfoldable pub run_program : Value → Io Session Value
  run_program request = do
    result ← perform encode_uri p (
        Call.execute_program (record {
          program_id = program_id;
          input_base64 = base64_encode (utf8_encode (json_stringify request));
        }))
    encoded ← lift (member result "return_base64")
    lift (json_parse (utf8_decode (base64_decode (show_value encoded))))

  -- A reply whose status is `failed` throws the message that stands under `key`.
  unfoldable pub execute_program : (failed key : String) → Value → Io Session Value
  unfolding run_program
  execute_program failed key request = do
    parsed ← run_program request
    status ← lift (member parsed "status")
    message ← lift (member parsed key)
    fail_if (is_text status failed)
        (builtin "Error" (show_value (or_value message (str "Unknown error occurred"))))
    pure parsed
