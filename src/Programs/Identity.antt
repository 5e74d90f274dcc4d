-- ===== src/Programs/Identity.antt =====
-- `ONVMClient` of the identity card (wasm_programs/identity_card/ui/lib/onvm-client.ts) and its
-- requests (wasm_programs/identity_card/ui/lib/types.ts).
pub mod Types
pub mod Typing
pub mod Program
pub mod Settling
use onvm.Base.{String, Option}
use onvm.Sdk.Client.{Session}
use onvm.Sdk.Client.Methods.{optional_text}
use onvm.Programs.Execute.{execute_program}
use onvm.Js.Value.{Value, str, obj, end, field}
use onvm.Js.Io.{Io}
use onvm.Js.Platform.{Platform}

pub record RegisterRequest : Type 0 where
  pub name : String
  pub email : String
  pub bio : Option String
  pub avatar_url : Option String
  pub theme : Option String

pub record UpdateProfileRequest : Type 0 where
  pub id : String
  pub name : Option String
  pub email : Option String
  pub bio : Option String
  pub avatar_url : Option String
  pub theme : Option String

pub data IdentityOp : Type 0 where
  register_identity : RegisterRequest → IdentityOp
  get_identity : (id : String) → IdentityOp
  update_identity : UpdateProfileRequest → IdentityOp
  get_identity_card : (id : String) → (format : Option String) → IdentityOp
  list_all_identities get_stats : IdentityOp

unfoldable pub op_value : IdentityOp → Value
op_value (IdentityOp.register_identity r) = obj (
    field "op" (str "register") (
      field "name" (str r.name) (
        field "email" (str r.email) (
          field "bio" (optional_text r.bio) (
            field "avatar_url" (optional_text r.avatar_url)
              (field "theme" (optional_text r.theme) end))))))
op_value (IdentityOp.get_identity id) =
    obj (field "op" (str "getprofile") (field "id" (str id) end))
op_value (IdentityOp.update_identity r) = obj (
    field "op" (str "updateprofile") (
      field "id" (str r.id) (
        field "name" (optional_text r.name) (
          field "email" (optional_text r.email) (
            field "bio" (optional_text r.bio) (
              field "avatar_url" (optional_text r.avatar_url)
                (field "theme" (optional_text r.theme) end)))))))
op_value (IdentityOp.get_identity_card id format) =
    obj
      (field "op" (str "getcard") (field "id" (str id) (field "format" (optional_text format) end)))
op_value IdentityOp.list_all_identities = obj (field "op" (str "listall") end)
op_value IdentityOp.get_stats = obj (field "op" (str "stats") end)

module _ (encode_uri : String → String) (p : Platform) (program_id : String) where
  -- A method of the client.
  unfoldable pub perform : IdentityOp → Io Session Value
  unfolding op_value
  perform op = execute_program encode_uri p program_id "err" "message" (op_value op)
