-- ===== src/Programs/Execute/Replies.antt =====
-- The reply of a program, read by the clients of the school and of the identity card.
use onvm.Base.{◌≡◌, String, if◌then◌else◌, arith}
use onvm.Sdk.Client.{Session}
use onvm.Sdk.Client.Methods.{Call, perform}
use onvm.Sdk.Errors.{builtin}
use onvm.Programs.Execute.{run_program, execute_program}
use onvm.Js.Value.{Value, str, or_value, is_text, show_value}
use onvm.Js.Result.{ok, throw, member}
use onvm.Js.Platform.{Platform, Bytes}

module _ (encode_uri : String → String) (p : Platform) (program_id : String) (request : Value) where
  open p use {utf8_encode, utf8_decode, base64_encode, base64_decode, json_parse, json_stringify}

  -- The method of the SDK that runs the program on the request.
  abbrev execution : Call
  execution = Call.execute_program (record {
    program_id = program_id;
    input_base64 = base64_encode (utf8_encode (json_stringify request));
  })

  module _ (s : Session) (reply result v status message : Value) (text failed key : String) where
    -- A reply that the SDK hands over is the JSON that the program has written in base64, for every
    -- text that base64 and UTF-8 carry: it is returned, or its message is thrown if its status says that the program failed.
    pub execute_program_replies :
        ((b : Bytes) → base64_decode (base64_encode b) ≡ b)
        → utf8_decode (utf8_encode text) ≡ text
        → (perform encode_uri p execution s).0 ≡ ok result
        → member result "return_base64" ≡ ok (str (base64_encode (utf8_encode text)))
        → json_parse text ≡ ok v
        → member v "status" ≡ ok status
        → member v key ≡ ok message
        → (execute_program encode_uri p program_id failed key request s).0 ≡ (
            if is_text status failed
            then throw
                (builtin "Error" (show_value (or_value message (str "Unknown error occurred"))))
            else ok v)
    unfolding execute_program run_program show_value
    execute_program_replies base64_round utf8_round ran encoded parsed has_status has_message =
        rw (ran, encoded, base64_round, utf8_round, parsed, has_status, has_message) (ground arith)
