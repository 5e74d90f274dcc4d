-- ===== src/Nbook/Normalize.antt =====
-- From the program's snake_case replies to the client's camelCase shapes
-- (wasm_programs/nbook/ui/lib/onvm-client.ts).
pub mod Renaming
pub mod Typing
use onvm.Base.{ℕ, String, List, [], ◌∷◌, Option, none, some}
use onvm.Sdk.Errors.{builtin}
use onvm.Js.Value.{
  Value, undefined, null, bool, num, str, arr, obj, Items, nil, cons, Fields, end, field, or_value,
}
use onvm.Js.Result.{Result, ok, throw, ◌>>=◌, member}

-- `v.map(f)`: a TypeError where `v` is no array.
abbrev pub map_items : (Value → Result Value) → Items → Result Items
map_items f nil = ok nil
map_items f (cons v vs) = f v >>= λ w. map_items f vs >>= λ ws. ok (cons w ws)

abbrev pub map_value : (Value → Result Value) → Value → Result Value
map_value f (arr vs) = map_items f vs >>= λ ws. ok (arr ws)
map_value f _ = throw (builtin "TypeError" "map is not a function")

pub normalize_comment : Value → Result Value
normalize_comment c = do
  id ← member c "id"
  author ← member c "author"
  text ← member c "text"
  created_at ← member c "created_at"
  ok (
      obj (
        field "id" id
          (field "author" author (field "text" text (field "createdAt" created_at end)))))

unfoldable pub normalize_post : Value → Result Value
unfolding normalize_comment
normalize_post api = do
  id ← member api "id"
  author ← member api "author"
  display_name ← member api "author_display_name"
  avatar ← member api "author_avatar_blob_id"
  text ← member api "text"
  attachments ← member api "attachments"
  created_at ← member api "created_at"
  likes ← member api "likes"
  api_comments ← member api "comments"
  comments ← map_value normalize_comment api_comments
  ok (
      obj (
        field "id" id (
          field "author" author (
            field "displayName" display_name (
              field "avatarBlobId" avatar (
                field "text" text (
                  field "attachments" attachments (
                    field "createdAt" created_at
                      (field "likes" likes (field "comments" comments end))))))))))

pub normalize_profile : Value → Result Value
normalize_profile api = do
  username ← member api "username"
  display_name ← member api "display_name"
  bio ← member api "bio"
  avatar ← member api "avatar_blob_id"
  banner ← member api "banner_blob_id"
  followers ← member api "followers"
  following ← member api "following"
  follower_list ← member api "follower_list"
  following_list ← member api "following_list"
  posts ← member api "posts"
  created_at ← member api "created_at"
  ok (
      obj (
        field "username" username (
          field "displayName" display_name (
            field "bio" bio (
              field "avatarBlobId" avatar (
                field "bannerBlobId" banner (
                  field "followers" followers (
                    field "following" following (
                      field "followerList" (or_value follower_list (arr nil)) (
                        field "followingList" (or_value following_list (arr nil))
                          (field "posts" posts (field "createdAt" created_at end))))))))))))

unfoldable normalize_user : Value → Result Value
normalize_user u = do
  username ← member u "username"
  display_name ← member u "display_name"
  bio ← member u "bio"
  avatar ← member u "avatar_blob_id"
  banner ← member u "banner_blob_id"
  followers ← member u "followers"
  ok (
      obj (
        field "username" username (
          field "displayName" display_name (
            field "bio" bio (
              field "avatarBlobId" avatar
                (field "bannerBlobId" banner (field "followers" followers end)))))))

pub normalize_users : Value → Result Value
unfolding normalize_user
normalize_users users = map_value normalize_user users
