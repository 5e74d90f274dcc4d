-- ===== src/Nbook/Ops/Accepted.antt =====
-- The requests of the client (wasm_programs/nbook/ui/lib/onvm-client.ts) are requests of the program
-- (wasm_programs/nbook/src/lib.rs).
use onvm.Base.{◌<◌, ◌^◌, refl, String, Option, none, some, List, [], ◌∷◌, inr}
use onvm.Sdk.Client.Methods.Shapes.{texts-AllItems, optional_text-Has, optional_text-nullable}
use onvm.Nbook.Ops.{Op, op_value}
use onvm.Nbook.Types.{
  register_request, login_request, logout_request, create_post_request, follow_request,
  unfollow_request, like_request, comment_request, feed_request, get_post_request, profile_request,
  update_profile_request, search_users_request, suggestions_request, followers_request,
  following_request,
}
use onvm.Js.Shape.{
  Shape, text, below, boolean, nullable, array, Members, done, ◌⨾◌, ◌∶◌, ◌∶?◌, Has, IsVariant,
}
use onvm.Js.Value.{Value}

-- `enum Request` of the program, whose tag is `op`: an `Option` may be missing or null.
abbrev pub program_requests : List (String × Members)
program_requests =
    ("register", "username" ∶ text ⨾ "password" ∶ text ⨾ done)
    ∷ (
      "update_profile",
      "session" ∶ text
          ⨾ "display_name" ∶? nullable text
          ⨾ "bio" ∶? nullable text
          ⨾ "avatar_blob_id" ∶? nullable text
          ⨾ "banner_blob_id" ∶? nullable text
          ⨾ done,
    )
    ∷ ("login", "username" ∶ text ⨾ "password" ∶ text ⨾ done)
    ∷ ("logout", "session" ∶ text ⨾ done)
    ∷ ("create_post", "session" ∶ text ⨾ "text" ∶ text ⨾ "attachments" ∶ array text ⨾ done)
    ∷ ("follow", "session" ∶ text ⨾ "target" ∶ text ⨾ done)
    ∷ ("unfollow", "session" ∶ text ⨾ "target" ∶ text ⨾ done)
    ∷ ("delete_post", "session" ∶ text ⨾ "post_id" ∶ text ⨾ done)
    ∷ ("like", "session" ∶ text ⨾ "post_id" ∶ text ⨾ done)
    ∷ ("comment", "session" ∶ text ⨾ "post_id" ∶ text ⨾ "text" ∶ text ⨾ done)
    ∷ (
      "feed",
      "session" ∶ text
          ⨾ "limit" ∶? nullable (below (2 ^ 32))
          ⨾ "discover" ∶? nullable boolean
          ⨾ done,
    )
    ∷ ("get_post", "post_id" ∶ text ⨾ done)
    ∷ ("profile", "username" ∶ text ⨾ done)
    ∷ (
      "search_users",
      "session" ∶ text ⨾ "query" ∶ text ⨾ "limit" ∶? nullable (below (2 ^ 32)) ⨾ done,
    )
    ∷ ("suggestions", "session" ∶ text ⨾ "limit" ∶? nullable (below (2 ^ 32)) ⨾ done)
    ∷ (
      "followers",
      "session" ∶ text ⨾ "username" ∶ text ⨾ "limit" ∶? nullable (below (2 ^ 32)) ⨾ done,
    )
    ∷ (
      "following",
      "session" ∶ text ⨾ "username" ∶ text ⨾ "limit" ∶? nullable (below (2 ^ 32)) ⨾ done,
    )
    ∷ []

-- The interface that the client declares for an operation; there is none for `delete_post`.
abbrev pub request_type : Op → Option Shape
request_type (Op.register u p) = some register_request
request_type (Op.login u p) = some login_request
request_type (Op.logout s) = some logout_request
request_type (Op.create_post s t a) = some create_post_request
request_type (Op.delete_post s id) = none
request_type (Op.like s id) = some like_request
request_type (Op.get_post id) = some get_post_request
request_type (Op.comment s id t) = some comment_request
request_type (Op.feed s limit discover) = some feed_request
request_type (Op.follow s target) = some follow_request
request_type (Op.unfollow s target) = some unfollow_request
request_type (Op.profile u) = some profile_request
request_type (Op.update_profile s n b a c) = some update_profile_request
request_type (Op.search_users s q limit) = some search_users_request
request_type (Op.suggestions s limit) = some suggestions_request
request_type (Op.followers s u limit) = some followers_request
request_type (Op.following s u limit) = some following_request

abbrev HasIfDeclared : Option Shape → Value → Type 0
HasIfDeclared none v = Unit
HasIfDeclared (some s) v = Has s v

-- The session of an operation that has one is a text, and its limit fits in the 32 bits of the program.
abbrev pub IsSendable : Op → Type 0
IsSendable (Op.register u p) = Unit
IsSendable (Op.login u p) = Unit
IsSendable (Op.get_post id) = Unit
IsSendable (Op.profile u) = Unit
IsSendable (Op.logout s) = Has text s
IsSendable (Op.create_post s t a) = Has text s
IsSendable (Op.delete_post s id) = Has text s
IsSendable (Op.like s id) = Has text s
IsSendable (Op.comment s id t) = Has text s
IsSendable (Op.feed s limit discover) = Has text s × (limit < 2 ^ 32)
IsSendable (Op.follow s target) = Has text s
IsSendable (Op.unfollow s target) = Has text s
IsSendable (Op.update_profile s n b a c) = Has text s
IsSendable (Op.search_users s q limit) = Has text s × (limit < 2 ^ 32)
IsSendable (Op.suggestions s limit) = Has text s × (limit < 2 ^ 32)
IsSendable (Op.followers s u limit) = Has text s × (limit < 2 ^ 32)
IsSendable (Op.following s u limit) = Has text s × (limit < 2 ^ 32)

pub op_value-IsAccepted :
    (op : Op)
    → IsSendable op
    → IsVariant "op" program_requests (op_value op) × HasIfDeclared (request_type op) (op_value op)
unfolding Has op_value
op_value-IsAccepted (Op.register u p) h = (
  (_, _, refl, refl, (_, refl, ((u, refl), ((p, refl), tt)))),
  (_, refl, (refl, ((u, refl), ((p, refl), tt)))),
)
op_value-IsAccepted (Op.login u p) h = (
  (_, _, refl, refl, (_, refl, ((u, refl), ((p, refl), tt)))),
  (_, refl, (refl, ((u, refl), ((p, refl), tt)))),
)
op_value-IsAccepted (Op.logout s) h =
    ((_, _, refl, refl, (_, refl, (h, tt))), (_, refl, (refl, (h, tt))))
op_value-IsAccepted (Op.create_post s t a) h = (
  (_, _, refl, refl, (_, refl, (h, ((t, refl), ((_, refl, texts-AllItems a), tt))))),
  (_, refl, (refl, (h, ((t, refl), ((_, refl, texts-AllItems a), tt))))),
)
op_value-IsAccepted (Op.delete_post s id) h =
    ((_, _, refl, refl, (_, refl, (h, ((id, refl), tt)))), tt)
op_value-IsAccepted (Op.like s id) h =
    ((_, _, refl, refl, (_, refl, (h, ((id, refl), tt)))), (_, refl, (refl, (h, ((id, refl), tt)))))
op_value-IsAccepted (Op.get_post id) h =
    ((_, _, refl, refl, (_, refl, ((id, refl), tt))), (_, refl, (refl, ((id, refl), tt))))
op_value-IsAccepted (Op.comment s id t) h = (
  (_, _, refl, refl, (_, refl, (h, ((id, refl), ((t, refl), tt))))),
  (_, refl, (refl, (h, ((id, refl), ((t, refl), tt))))),
)
op_value-IsAccepted (Op.feed s limit discover) h = (
  (
    _,
    _,
    refl,
    refl,
    (_, refl, (h.0, (inr (inr (limit, refl, h.1)), (inr (inr (discover, refl)), tt)))),
  ),
  (_, refl, (refl, (h.0, (inr (limit, refl), (inr (discover, refl), tt))))),
)
op_value-IsAccepted (Op.follow s target) h = (
  (_, _, refl, refl, (_, refl, (h, ((target, refl), tt)))),
  (_, refl, (refl, (h, ((target, refl), tt)))),
)
op_value-IsAccepted (Op.unfollow s target) h = (
  (_, _, refl, refl, (_, refl, (h, ((target, refl), tt)))),
  (_, refl, (refl, (h, ((target, refl), tt)))),
)
op_value-IsAccepted (Op.profile u) h =
    ((_, _, refl, refl, (_, refl, ((u, refl), tt))), (_, refl, (refl, ((u, refl), tt))))
op_value-IsAccepted (Op.update_profile s n b a c) h = (
  (
    _,
    _,
    refl,
    refl,
    (
      _,
      refl,
      (
        h,
        (
          optional_text-nullable n,
          (optional_text-nullable b, (optional_text-nullable a, (optional_text-nullable c, tt))),
        ),
      ),
    ),
  ),
  (
    _,
    refl,
    (
      refl,
      (
        h,
        (
          optional_text-Has n,
          (optional_text-Has b, (optional_text-Has a, (optional_text-Has c, tt))),
        ),
      ),
    ),
  ),
)
op_value-IsAccepted (Op.search_users s q limit) h = (
  (_, _, refl, refl, (_, refl, (h.0, ((q, refl), (inr (inr (limit, refl, h.1)), tt))))),
  (_, refl, (refl, (h.0, ((q, refl), (inr (limit, refl), tt))))),
)
op_value-IsAccepted (Op.suggestions s limit) h = (
  (_, _, refl, refl, (_, refl, (h.0, (inr (inr (limit, refl, h.1)), tt)))),
  (_, refl, (refl, (h.0, (inr (limit, refl), tt)))),
)
op_value-IsAccepted (Op.followers s u limit) h = (
  (_, _, refl, refl, (_, refl, (h.0, ((u, refl), (inr (inr (limit, refl, h.1)), tt))))),
  (_, refl, (refl, (h.0, ((u, refl), (inr (limit, refl), tt))))),
)
op_value-IsAccepted (Op.following s u limit) h = (
  (_, _, refl, refl, (_, refl, (h.0, ((u, refl), (inr (inr (limit, refl, h.1)), tt))))),
  (_, refl, (refl, (h.0, ((u, refl), (inr (limit, refl), tt))))),
)
