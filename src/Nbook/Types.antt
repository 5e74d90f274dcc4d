-- ===== src/Nbook/Types.antt =====
-- The types that the site's client declares (wasm_programs/nbook/ui/lib/onvm-client.ts): the replies
-- of the program, what the methods return, and the requests.
use onvm.Js.Shape.{
  Shape, text, number, boolean, literal, nullable, array, object, done, ◌⨾◌, ◌∶◌, ◌∶?◌,
}

-- `string | null`
abbrev text_or_null : Shape
text_or_null = nullable text

abbrev pub api_comment_view : Shape
api_comment_view =
    object ("id" ∶ text ⨾ "author" ∶ text ⨾ "text" ∶ text ⨾ "created_at" ∶ number ⨾ done)

abbrev pub attachment : Shape
attachment = object ("blob_id_hex" ∶ text ⨾ "size" ∶ number ⨾ "hash_hex" ∶ text ⨾ done)

abbrev pub api_post : Shape
api_post = object (
    "id" ∶ text
    ⨾ "author" ∶ text
    ⨾ "author_avatar_blob_id" ∶? text_or_null
    ⨾ "author_display_name" ∶? text_or_null
    ⨾ "text" ∶ text
    ⨾ "attachments" ∶ array attachment
    ⨾ "created_at" ∶ number
    ⨾ "likes" ∶ number
    ⨾ "comments" ∶ array api_comment_view
    ⨾ done)

abbrev pub comment_view : Shape
comment_view = object ("id" ∶ text ⨾ "author" ∶ text ⨾ "text" ∶ text ⨾ "createdAt" ∶ number ⨾ done)

abbrev pub post : Shape
post = object (
    "id" ∶ text
    ⨾ "author" ∶ text
    ⨾ "displayName" ∶? text_or_null
    ⨾ "avatarBlobId" ∶? text_or_null
    ⨾ "text" ∶ text
    ⨾ "attachments" ∶ array attachment
    ⨾ "createdAt" ∶ number
    ⨾ "likes" ∶ number
    ⨾ "comments" ∶ array comment_view
    ⨾ done)

abbrev pub profile_view : Shape
profile_view = object (
    "username" ∶ text
    ⨾ "displayName" ∶? text_or_null
    ⨾ "bio" ∶? text_or_null
    ⨾ "avatarBlobId" ∶? text_or_null
    ⨾ "bannerBlobId" ∶? text_or_null
    ⨾ "followers" ∶ number
    ⨾ "following" ∶ number
    ⨾ "followerList" ∶ array text
    ⨾ "followingList" ∶ array text
    ⨾ "posts" ∶ array text
    ⨾ "createdAt" ∶ number
    ⨾ done)

abbrev pub user_summary : Shape
user_summary = object (
    "username" ∶ text
    ⨾ "displayName" ∶? text_or_null
    ⨾ "bio" ∶? text_or_null
    ⨾ "avatarBlobId" ∶? text_or_null
    ⨾ "bannerBlobId" ∶? text_or_null
    ⨾ "followers" ∶ number
    ⨾ done)

abbrev pub register_request : Shape
register_request = object ("op" ∶ literal "register" ⨾ "username" ∶ text ⨾ "password" ∶ text ⨾ done)

abbrev pub login_request : Shape
login_request = object ("op" ∶ literal "login" ⨾ "username" ∶ text ⨾ "password" ∶ text ⨾ done)

abbrev pub logout_request : Shape
logout_request = object ("op" ∶ literal "logout" ⨾ "session" ∶ text ⨾ done)

abbrev pub create_post_request : Shape
create_post_request = object (
    "op" ∶ literal "create_post"
    ⨾ "session" ∶ text
    ⨾ "text" ∶ text
    ⨾ "attachments" ∶ array text
    ⨾ done)

abbrev pub follow_request : Shape
follow_request = object ("op" ∶ literal "follow" ⨾ "session" ∶ text ⨾ "target" ∶ text ⨾ done)

abbrev pub unfollow_request : Shape
unfollow_request = object ("op" ∶ literal "unfollow" ⨾ "session" ∶ text ⨾ "target" ∶ text ⨾ done)

abbrev pub like_request : Shape
like_request = object ("op" ∶ literal "like" ⨾ "session" ∶ text ⨾ "post_id" ∶ text ⨾ done)

abbrev pub comment_request : Shape
comment_request =
    object ("op" ∶ literal "comment" ⨾ "session" ∶ text ⨾ "post_id" ∶ text ⨾ "text" ∶ text ⨾ done)

abbrev pub feed_request : Shape
feed_request =
    object
      ("op" ∶ literal "feed" ⨾ "session" ∶ text ⨾ "limit" ∶? number ⨾ "discover" ∶? boolean ⨾ done)

abbrev pub get_post_request : Shape
get_post_request = object ("op" ∶ literal "get_post" ⨾ "post_id" ∶ text ⨾ done)

abbrev pub profile_request : Shape
profile_request = object ("op" ∶ literal "profile" ⨾ "username" ∶ text ⨾ done)

abbrev pub update_profile_request : Shape
update_profile_request = object (
    "op" ∶ literal "update_profile"
    ⨾ "session" ∶ text
    ⨾ "display_name" ∶? text
    ⨾ "bio" ∶? text
    ⨾ "avatar_blob_id" ∶? text
    ⨾ "banner_blob_id" ∶? text
    ⨾ done)

abbrev pub search_users_request : Shape
search_users_request =
    object
      ("op" ∶ literal "search_users" ⨾ "session" ∶ text ⨾ "query" ∶ text ⨾ "limit" ∶? number ⨾ done)

abbrev pub suggestions_request : Shape
suggestions_request =
    object ("op" ∶ literal "suggestions" ⨾ "session" ∶ text ⨾ "limit" ∶? number ⨾ done)

abbrev pub followers_request : Shape
followers_request =
    object
      ("op" ∶ literal "followers" ⨾ "session" ∶ text ⨾ "username" ∶ text ⨾ "limit" ∶? number ⨾ done)

abbrev pub following_request : Shape
following_request =
    object
      ("op" ∶ literal "following" ⨾ "session" ∶ text ⨾ "username" ∶ text ⨾ "limit" ∶? number ⨾ done)

abbrev pub ok_response : Shape
ok_response = object ("status" ∶ literal "ok" ⨾ "message" ∶ text ⨾ done)

abbrev pub login_ok_response : Shape
login_ok_response =
    object ("status" ∶ literal "login_ok" ⨾ "session" ∶ text ⨾ "expires_ms" ∶ number ⨾ done)

abbrev pub post_response : Shape
post_response = object ("status" ∶ literal "post" ⨾ "post" ∶ api_post ⨾ done)

abbrev pub feed_response : Shape
feed_response = object ("status" ∶ literal "feed" ⨾ "posts" ∶ array api_post ⨾ done)

-- `ProfileResponse["profile"]`
abbrev pub profile_of_response : Shape
profile_of_response = object (
    "username" ∶ text
    ⨾ "display_name" ∶? text_or_null
    ⨾ "bio" ∶? text_or_null
    ⨾ "avatar_blob_id" ∶? text_or_null
    ⨾ "banner_blob_id" ∶? text_or_null
    ⨾ "followers" ∶ number
    ⨾ "following" ∶ number
    ⨾ "follower_list" ∶ array text
    ⨾ "following_list" ∶ array text
    ⨾ "posts" ∶ array text
    ⨾ "created_at" ∶ number
    ⨾ done)

abbrev pub profile_response : Shape
profile_response = object ("status" ∶ literal "profile" ⨾ "profile" ∶ profile_of_response ⨾ done)

-- `UsersResponse["users"][number]`
abbrev pub user_of_response : Shape
user_of_response = object (
    "username" ∶ text
    ⨾ "display_name" ∶? text_or_null
    ⨾ "bio" ∶? text_or_null
    ⨾ "avatar_blob_id" ∶? text_or_null
    ⨾ "banner_blob_id" ∶? text_or_null
    ⨾ "followers" ∶ number
    ⨾ done)

abbrev pub users_response : Shape
users_response = object ("status" ∶ literal "users" ⨾ "users" ∶ array user_of_response ⨾ done)

abbrev pub error_response : Shape
error_response = object ("status" ∶ literal "error" ⨾ "message" ∶ text ⨾ done)
