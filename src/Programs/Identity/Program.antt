-- ===== src/Programs/Identity/Program.antt =====
-- What the identity program answers (wasm_programs/identity_card/src/lib.rs): its structures, the JSON
-- that is made of them, and the replies of `handle_request`.
use onvm.Base.{ℕ, ◌⊎◌, inl, inr, String, Option, none, some, List, length}
use onvm.Programs.Identity.{IdentityOp}
use onvm.Js.Serde.{option_value, items, IsPresent}
use onvm.Js.Value.{Value, num, str, arr, obj, field, end}

pub record Identity : Type 0 where
  pub id : String
  pub name : String
  pub email : String
  pub bio : Option String
  pub avatar_url : Option String
  pub theme : String
  pub created_at : ℕ
  pub updated_at : ℕ
  pub checksum : String

pub record IdentitySummary : Type 0 where
  pub id : String
  pub name : String
  pub email : String
  pub theme : String
  pub created_at : ℕ

pub data Response : Type 0 where
  ok_register : (id : String) → (identity : Identity) → (card_svg : String) → Response
  ok_profile : (identity : Identity) → Response
  ok_update : (id : String) → (identity : Identity) → Response
  ok_card : (id format card_svg : String) → Response
  ok_list : (identities : List IdentitySummary) → (total : ℕ) → Response
  ok_stats : (total_identities total_storage_bytes : ℕ) → (merkle_root : String) → Response
  err : (message : String) → Response

abbrev pub identity_value : Identity → Value
identity_value i = obj (
    field "id" (str i.id) (
      field "name" (str i.name) (
        field "email" (str i.email) (
          field "bio" (option_value i.bio) (
            field "avatar_url" (option_value i.avatar_url) (
              field "theme" (str i.theme) (
                field "created_at" (num i.created_at) (
                  field "updated_at" (num i.updated_at)
                    (field "checksum" (str i.checksum) end)))))))))

abbrev pub summary_value : IdentitySummary → Value
summary_value i = obj (
    field "id" (str i.id) (
      field "name" (str i.name) (
        field "email" (str i.email)
          (field "theme" (str i.theme) (field "created_at" (num i.created_at) end)))))

-- `Response` as JSON, tagged by `status`.
abbrev pub response_value : Response → Value
response_value (Response.ok_register id identity card_svg) = obj (
    field "status" (str "okregister") (
      field "id" (str id)
        (field "identity" (identity_value identity) (field "card_svg" (str card_svg) end))))
response_value (Response.ok_profile identity) =
    obj (field "status" (str "okprofile") (field "identity" (identity_value identity) end))
response_value (Response.ok_update id identity) = obj (
    field "status" (str "okupdate")
      (field "id" (str id) (field "identity" (identity_value identity) end)))
response_value (Response.ok_card id format card_svg) = obj (
    field "status" (str "okcard")
      (field "id" (str id) (field "format" (str format) (field "card_svg" (str card_svg) end))))
response_value (Response.ok_list identities total) = obj (
    field "status" (str "oklist")
      (field "identities" (arr (items summary_value identities)) (field "total" (num total) end)))
response_value (Response.ok_stats total_identities total_storage_bytes merkle_root) = obj (
    field "status" (str "okstats") (
      field "total_identities" (num total_identities) (
        field "total_storage_bytes" (num total_storage_bytes)
          (field "merkle_root" (str merkle_root) end))))
response_value (Response.err message) =
    obj (field "status" (str "err") (field "message" (str message) end))

-- What an arm of `handle_request` has computed when it succeeds.
abbrev pub Output : IdentityOp → Type 0
Output (IdentityOp.register_identity r) = Identity × String
Output (IdentityOp.get_identity id) = Identity
Output (IdentityOp.update_identity r) = Identity
Output (IdentityOp.get_identity_card id format) = String
Output IdentityOp.list_all_identities = List IdentitySummary
Output IdentityOp.get_stats = ℕ × ℕ × String

-- `format.unwrap_or_else(|| "svg".to_string())`
abbrev format_of : Option String → String
format_of none = "svg"
format_of (some format) = format

abbrev pub success : (op : IdentityOp) → Output op → Response
success (IdentityOp.register_identity r) (i, card_svg) = Response.ok_register i.id i card_svg
success (IdentityOp.get_identity id) i = Response.ok_profile i
success (IdentityOp.update_identity r) i = Response.ok_update r.id i
success (IdentityOp.get_identity_card id format) card_svg =
    Response.ok_card id (format_of format) card_svg
success IdentityOp.list_all_identities is = Response.ok_list is (length is)
success IdentityOp.get_stats (total_identities, total_storage_bytes, merkle_root) =
    Response.ok_stats total_identities total_storage_bytes merkle_root

abbrev pub respond : (op : IdentityOp) → Output op ⊎ String → Response
respond op (inl o) = success op o
respond op (inr e) = Response.err e

-- The identity has what is optional of it.
abbrev pub HasDetails : Identity → Type 0
HasDetails i = IsPresent i.bio × IsPresent i.avatar_url

-- The identity that the program answers with, if it answers with one, has its details.
abbrev pub IsDetailed : (op : IdentityOp) → Output op → Type 0
IsDetailed (IdentityOp.register_identity r) o = HasDetails o.0
IsDetailed (IdentityOp.get_identity id) i = HasDetails i
IsDetailed (IdentityOp.update_identity r) i = HasDetails i
IsDetailed (IdentityOp.get_identity_card id format) o = Unit
IsDetailed IdentityOp.list_all_identities o = Unit
IsDetailed IdentityOp.get_stats o = Unit
