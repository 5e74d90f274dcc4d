-- ===== src/Nbook/Normalize/Typing.antt =====
-- Normalization makes values of the client's types of values of the program's types
-- (wasm_programs/nbook/ui/lib/onvm-client.ts).
use onvm.Base.{◌≡◌, refl}
use onvm.Nbook.Types.{
  api_comment_view, api_post, comment_view, post, profile_view, user_summary, profile_of_response,
  user_of_response,
}
use onvm.Nbook.Normalize.{
  map_items, map_value, normalize_comment, normalize_post, normalize_profile, normalize_user,
  normalize_users,
}
use onvm.Js.Shape.{Shape, object, array, Members, done, Has, HasMembers, AllItems}
use onvm.Js.Value.{Value, arr, obj, Items, nil, cons, Fields, field, end, field_of}
use onvm.Js.Result.{Result, ok}

-- A value of the type `s` is made into one of the type `t`; nothing is thrown.
abbrev pub Converts : (s t : Shape) → (Value → Result Value) → Type 0
Converts s t f = (v : Value) → Has s v → (w : Value) × (f v ≡ ok w) × Has t w

map_items-AllItems :
    (s t : Shape) (f : Value → Result Value)
    → Converts s t f
    → (vs : Items) → AllItems (Has s) vs
    → (ws : Items) × (map_items f vs ≡ ok ws) × AllItems (Has t) ws
map_items-AllItems s t f c nil h = (nil, refl, tt)
map_items-AllItems s t f c (cons v vs) (h, hs) =
    let (w, e, k) = c v h in
    let (ws, es, ks) = map_items-AllItems s t f c vs hs in (cons w ws, rw (e, es) refl, (k, ks))

pub map_value-Converts :
    (s t : Shape) (f : Value → Result Value)
    → Converts s t f
    → Converts (array s) (array t) (map_value f)
unfolding Has
map_value-Converts s t f c v (vs, e, h) =
    let (ws, es, ks) = map_items-AllItems s t f c vs h in (arr ws, rw (e, es) refl, (ws, refl, ks))

abbrev members_of : Shape → Members
members_of (object ms) = ms
members_of s = done

object-Converts :
    (ms : Members) (t : Shape) (f : Value → Result Value)
    → ((fs : Fields) → HasMembers ms fs → (w : Value) × (f (obj fs) ≡ ok w) × Has t w)
    → Converts (object ms) t f
unfolding Has
object-Converts ms t f c v (fs, e, h) = let (w, q, k) = c fs h in (w, rw e q, k)

normalize_comment-Converts : Converts api_comment_view comment_view normalize_comment
unfolding Has normalize_comment
normalize_comment-Converts =
    object-Converts (members_of api_comment_view) comment_view normalize_comment
      (λ fs h. (_, refl, (_, refl, (h.0, (h.1.0, (h.1.1.0, (h.1.1.1.0, tt)))))))

-- A post with these comments, and the other fields of the program's post.
abbrev with_comments : Fields → Value → Value
with_comments fs comments = obj (
    field "id" (field_of fs "id") (
      field "author" (field_of fs "author") (
        field "displayName" (field_of fs "author_display_name") (
          field "avatarBlobId" (field_of fs "author_avatar_blob_id") (
            field "text" (field_of fs "text") (
              field "attachments" (field_of fs "attachments") (
                field "createdAt" (field_of fs "created_at")
                  (field "likes" (field_of fs "likes") (field "comments" comments end)))))))))

pub normalize_post-Converts : Converts api_post post normalize_post
unfolding Has normalize_post
normalize_post-Converts =
    object-Converts (members_of api_post) post normalize_post
      (λ fs (id, (author, (avatar, (name, (t, (atts, (created, (likes, (comments, _))))))))).
        let (w, e, (ws, q, ks)) =
          map_value-Converts api_comment_view comment_view normalize_comment
            normalize_comment-Converts (field_of fs "comments") comments in
        (
          with_comments fs w,
          rw e refl,
          (
            _,
            refl,
            (id, (author, (name, (avatar, (t, (atts, (created, (likes, ((ws, q, ks), tt))))))))),
          ),
        ))

pub normalize_profile-Converts : Converts profile_of_response profile_view normalize_profile
unfolding Has normalize_profile
normalize_profile-Converts =
    object-Converts (members_of profile_of_response) profile_view normalize_profile
      (λ fs
          (
            username,
            (
              name,
              (
                bio,
                (
                  avatar,
                  (
                    banner,
                    (followers, (following, ((xs, ex, hx), ((ys, ey, hy), (posts, (created, _)))))),
                  ),
                ),
              ),
            ),
          ).
        (
          _,
          refl,
          (
            _,
            refl,
            (
              username,
              (
                name,
                (
                  bio,
                  (
                    avatar,
                    (
                      banner,
                      (
                        followers,
                        (
                          following,
                          ((xs, rw ex refl, hx), ((ys, rw ey refl, hy), (posts, (created, tt)))),
                        ),
                      ),
                    ),
                  ),
                ),
              ),
            ),
          ),
        ))

normalize_user-Converts : Converts user_of_response user_summary normalize_user
unfolding Has normalize_user
normalize_user-Converts =
    object-Converts (members_of user_of_response) user_summary normalize_user
      (λ fs h. (_, refl, (_, refl, h)))

pub normalize_users-Converts :
    Converts (array user_of_response) (array user_summary) normalize_users
unfolding normalize_users
normalize_users-Converts =
    map_value-Converts user_of_response user_summary normalize_user normalize_user-Converts
