-- ===== src/Nbook/Ops.antt =====
-- The operations of the social program, and the JSON that the client sends for them
-- (wasm_programs/nbook/ui/lib/onvm-client.ts).
pub mod Accepted
use onvm.Base.{ℕ, String, Bool, Option, List}
use onvm.Sdk.Client.Methods.{texts, optional_text}
use onvm.Js.Value.{Value, num, bool, str, arr, obj, Fields, end, field}

-- The requests of the program.
pub data Op : Type 0 where
  register login : (username password : String) → Op
  logout : (session : Value) → Op
  create_post : (session : Value) → (text : String) → (attachments : List String) → Op
  delete_post like : (session : Value) → (post_id : String) → Op
  get_post : (post_id : String) → Op
  comment : (session : Value) → (post_id text : String) → Op
  feed : (session : Value) → (limit : ℕ) → (discover : Bool) → Op
  follow unfollow : (session : Value) → (target : String) → Op
  profile : (username : String) → Op
  update_profile :
      (session : Value) → (display_name bio avatar_blob_id banner_blob_id : Option String) → Op
  search_users : (session : Value) → (query : String) → (limit : ℕ) → Op
  suggestions : (session : Value) → (limit : ℕ) → Op
  followers following : (session : Value) → (username : String) → (limit : ℕ) → Op

abbrev op_fields : String → Fields → Value
op_fields op fields = obj (field "op" (str op) fields)

abbrev pub text_field : String → String → Fields → Fields
text_field name t fields = field name (str t) fields

-- The object that is sent as JSON.
unfoldable pub op_value : Op → Value
op_value (Op.register u p) =
    op_fields "register" (text_field "username" u (text_field "password" p end))
op_value (Op.login u p) = op_fields "login" (text_field "username" u (text_field "password" p end))
op_value (Op.logout s) = op_fields "logout" (field "session" s end)
op_value (Op.create_post s t attachments) =
    op_fields "create_post"
      (field "session" s (text_field "text" t (field "attachments" (arr (texts attachments)) end)))
op_value (Op.delete_post s id) =
    op_fields "delete_post" (field "session" s (text_field "post_id" id end))
op_value (Op.like s id) = op_fields "like" (field "session" s (text_field "post_id" id end))
op_value (Op.get_post id) = op_fields "get_post" (text_field "post_id" id end)
op_value (Op.comment s id t) =
    op_fields "comment" (field "session" s (text_field "post_id" id (text_field "text" t end)))
op_value (Op.feed s limit discover) =
    op_fields "feed"
      (field "session" s (field "limit" (num limit) (field "discover" (bool discover) end)))
op_value (Op.follow s target) =
    op_fields "follow" (field "session" s (text_field "target" target end))
op_value (Op.unfollow s target) =
    op_fields "unfollow" (field "session" s (text_field "target" target end))
op_value (Op.profile u) = op_fields "profile" (text_field "username" u end)
op_value (Op.update_profile s name bio avatar banner) = op_fields "update_profile" (
    field "session" s (
      field "display_name" (optional_text name) (
        field "bio" (optional_text bio) (
          field "avatar_blob_id" (optional_text avatar)
            (field "banner_blob_id" (optional_text banner) end)))))
op_value (Op.search_users s query limit) =
    op_fields "search_users"
      (field "session" s (text_field "query" query (field "limit" (num limit) end)))
op_value (Op.suggestions s limit) =
    op_fields "suggestions" (field "session" s (field "limit" (num limit) end))
op_value (Op.followers s u limit) =
    op_fields "followers"
      (field "session" s (text_field "username" u (field "limit" (num limit) end)))
op_value (Op.following s u limit) =
    op_fields "following"
      (field "session" s (text_field "username" u (field "limit" (num limit) end)))

-- The message of the error that a method throws where the program gives none.
pub fallback : Op → String
fallback (Op.register u p) = "register failed"
fallback (Op.login u p) = "login failed"
fallback (Op.logout s) = "logout failed"
fallback (Op.create_post s t a) = "create post failed"
fallback (Op.delete_post s id) = "delete failed"
fallback (Op.like s id) = "like failed"
fallback (Op.get_post id) = "get post failed"
fallback (Op.comment s id t) = "comment failed"
fallback (Op.feed s limit discover) = "feed failed"
fallback (Op.follow s target) = "follow failed"
fallback (Op.unfollow s target) = "unfollow failed"
fallback (Op.profile u) = "profile failed"
fallback (Op.update_profile s n b a c) = "profile update failed"
fallback (Op.search_users s q limit) = "search failed"
fallback (Op.suggestions s limit) = "suggestions failed"
fallback (Op.followers s u limit) = "followers failed"
fallback (Op.following s u limit) = "following failed"
