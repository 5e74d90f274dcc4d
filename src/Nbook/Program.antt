-- ===== src/Nbook/Program.antt =====
-- What the program of the site answers (wasm_programs/nbook/src/lib.rs): its structures, the JSON that
-- is made of them, and the arms of `handle_request`, over what its functions return.
use onvm.Base.{ℕ, ◌⊎◌, inl, inr, String, Option, List}
use onvm.Sdk.Client.Methods.{texts}
use onvm.Nbook.Ops.{Op, text_field}
use onvm.Js.Serde.{option_value, items}
use onvm.Js.Value.{Value, num, arr, obj, field, end}

pub record Attachment : Type 0 where
  pub blob_id : String
  pub size : ℕ
  pub content_hash : String

pub record CommentView : Type 0 where
  pub id : String
  pub author : String
  pub text : String
  pub created_at : ℕ

pub record PostView : Type 0 where
  pub id : String
  pub author : String
  pub text : String
  pub attachments : List Attachment
  pub created_at : ℕ
  pub likes : ℕ
  pub comments : List CommentView

pub record UserSummary : Type 0 where
  pub username : String
  pub display_name : Option String
  pub bio : Option String
  pub avatar_blob_id : Option String
  pub banner_blob_id : Option String
  pub followers : ℕ

pub record ProfileView : Type 0 where
  pub username : String
  pub display_name : Option String
  pub bio : Option String
  pub avatar_blob_id : Option String
  pub banner_blob_id : Option String
  pub followers : ℕ
  pub following : ℕ
  pub follower_list : List String
  pub following_list : List String
  pub posts : List String
  pub created_at : ℕ

pub record Session : Type 0 where
  pub token : String
  pub username : String
  pub expires_ms : ℕ

pub data Response : Type 0 where
  done : (message : String) → Response
  login_ok : (session : String) → (expires_ms : ℕ) → Response
  post : (post : PostView) → Response
  feed : (posts : List PostView) → Response
  profile : (profile : ProfileView) → Response
  users : (users : List UserSummary) → Response
  error : (message : String) → Response

abbrev pub attachment_value : Attachment → Value
attachment_value a = obj (
    text_field "blob_id_hex" a.blob_id
      (field "size" (num a.size) (text_field "hash_hex" a.content_hash end)))

abbrev pub comment_value : CommentView → Value
comment_value c = obj (
    text_field "id" c.id (
      text_field "author" c.author
        (text_field "text" c.text (field "created_at" (num c.created_at) end))))

abbrev pub post_value : PostView → Value
post_value p = obj (
    text_field "id" p.id (
      text_field "author" p.author (
        text_field "text" p.text (
          field "attachments" (arr (items attachment_value p.attachments)) (
            field "created_at" (num p.created_at) (
              field "likes" (num p.likes)
                (field "comments" (arr (items comment_value p.comments)) end)))))))

abbrev pub user_value : UserSummary → Value
user_value u = obj (
    text_field "username" u.username (
      field "display_name" (option_value u.display_name) (
        field "bio" (option_value u.bio) (
          field "avatar_blob_id" (option_value u.avatar_blob_id) (
            field "banner_blob_id" (option_value u.banner_blob_id)
              (field "followers" (num u.followers) end))))))

abbrev pub profile_value : ProfileView → Value
profile_value p = obj (
    text_field "username" p.username (
      field "display_name" (option_value p.display_name) (
        field "bio" (option_value p.bio) (
          field "avatar_blob_id" (option_value p.avatar_blob_id) (
            field "banner_blob_id" (option_value p.banner_blob_id) (
              field "followers" (num p.followers) (
                field "following" (num p.following) (
                  field "follower_list" (arr (texts p.follower_list)) (
                    field "following_list" (arr (texts p.following_list)) (
                      field "posts" (arr (texts p.posts))
                        (field "created_at" (num p.created_at) end)))))))))))

-- `Response` as JSON, tagged by `status`.
abbrev pub response_value : Response → Value
response_value (Response.done message) =
    obj (text_field "status" "ok" (text_field "message" message end))
response_value (Response.login_ok session expires_ms) = obj (
    text_field "status" "login_ok"
      (text_field "session" session (field "expires_ms" (num expires_ms) end)))
response_value (Response.post p) =
    obj (text_field "status" "post" (field "post" (post_value p) end))
response_value (Response.feed ps) =
    obj (text_field "status" "feed" (field "posts" (arr (items post_value ps)) end))
response_value (Response.profile p) =
    obj (text_field "status" "profile" (field "profile" (profile_value p) end))
response_value (Response.users us) =
    obj (text_field "status" "users" (field "users" (arr (items user_value us)) end))
response_value (Response.error message) =
    obj (text_field "status" "error" (text_field "message" message end))

-- What the function that an arm of `handle_request` calls returns if it succeeds.
abbrev pub Output : Op → Type 0
Output (Op.register u q) = Unit
Output (Op.login u q) = Session
Output (Op.logout s) = Unit
Output (Op.create_post s t a) = PostView
Output (Op.delete_post s id) = Unit
Output (Op.like s id) = PostView
Output (Op.get_post id) = PostView
Output (Op.comment s id t) = PostView
Output (Op.feed s limit discover) = List PostView
Output (Op.follow s target) = Unit
Output (Op.unfollow s target) = Unit
Output (Op.profile u) = ProfileView
Output (Op.update_profile s n b a c) = Unit
Output (Op.search_users s q limit) = List UserSummary
Output (Op.suggestions s limit) = List UserSummary
Output (Op.followers s u limit) = List UserSummary
Output (Op.following s u limit) = List UserSummary

abbrev pub success : (op : Op) → Output op → Response
success (Op.register u q) o = Response.done "registered"
success (Op.login u q) o = Response.login_ok o.token o.expires_ms
success (Op.logout s) o = Response.done "logged_out"
success (Op.create_post s t a) o = Response.post o
success (Op.delete_post s id) o = Response.done "deleted"
success (Op.like s id) o = Response.post o
success (Op.get_post id) o = Response.post o
success (Op.comment s id t) o = Response.post o
success (Op.feed s limit discover) o = Response.feed o
success (Op.follow s target) o = Response.done "following"
success (Op.unfollow s target) o = Response.done "unfollowed"
success (Op.profile u) o = Response.profile o
success (Op.update_profile s n b a c) o = Response.done "profile_updated"
success (Op.search_users s q limit) o = Response.users o
success (Op.suggestions s limit) o = Response.users o
success (Op.followers s u limit) o = Response.users o
success (Op.following s u limit) o = Response.users o

-- `match ... { Ok(o) => ..., Err(e) => Response::Error { message: e } }`
abbrev pub respond : (op : Op) → Output op ⊎ String → Response
respond op (inl o) = success op o
respond op (inr e) = Response.error e
