-- ===== src/Nbook/Client/Refusals.antt =====
-- The errors that the program replies with, thrown by the methods of the site's client
-- (wasm_programs/nbook/ui/lib/onvm-client.ts).
use onvm.Base.{◌≡◌, refl, String, some}
use onvm.Base.Texts.{or_text}
use onvm.Sdk.Errors.{builtin}
use onvm.Nbook.Ops.{Op, op_value, fallback}
use onvm.Nbook.Types.{error_response}
use onvm.Nbook.Client.{Browser, execute_program, call, perform}
use onvm.Js.Shape.{Has}
use onvm.Js.Value.{Value, str, show_value-or_value}
use onvm.Js.Result.{ok, throw, member}
use onvm.Js.Platform.{Platform}

module _ (p : Platform) (program_id : String) where
  -- A reply that tells of an error is thrown with its message, or with a message of the method's own if that is
  -- empty.
  pub perform_refused :
      (op : Op) (r : Value) (s s' : Browser)
      → execute_program p program_id (op_value op) s ≡ (ok r, s')
      → Has error_response r
      → (t : String) × (member r "message" ≡ ok (str t))
        × (perform p program_id op s
            ≡ (throw (builtin "Error" (or_text (some t) (fallback op))), s'))
  unfolding Has perform call
  perform_refused op r s s' e (fs, is_object, (status, ((t, message), _))) = (
    t,
    rw (is_object, message) refl,
    rw (e, is_object, status, message, show_value-or_value t (fallback op)) refl,
  )
