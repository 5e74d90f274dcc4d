-- ===== src/Nbook/Client/Settling.antt =====
-- The client of the site (wasm_programs/nbook/ui/lib/onvm-client.ts) with the answers of its program
-- (wasm_programs/nbook/src/lib.rs).
use onvm.Base.{◌≡◌, ◌⊎◌, inl, inr, refl, String, some, List}
use onvm.Base.Texts.{or_text}
use onvm.Sdk.Errors.{builtin}
use onvm.Sdk.Client.Methods.Shapes.{texts-AllItems}
use onvm.Nbook.Ops.{Op, op_value, fallback}
use onvm.Nbook.Types.{
  attachment, api_comment_view, api_post, user_of_response, profile_of_response, ok_response,
  post_response, users_response,
}
use onvm.Nbook.Program.{
  Attachment, CommentView, PostView, UserSummary, ProfileView, Response, attachment_value,
  comment_value, post_value, user_value, profile_value, response_value, Output, success, respond,
}
use onvm.Nbook.Client.{Browser, execute_program, perform}
use onvm.Nbook.Client.Answers.{reply_type, result_type, perform-Has}
use onvm.Nbook.Client.Refusals.{perform_refused}
use onvm.Js.Serde.{items-AllItems, option_value-Has}
use onvm.Js.Shape.{Has}
use onvm.Js.Value.{Value}
use onvm.Js.Result.{Result, ok, throw}
use onvm.Js.Platform.{Platform}

attachment_value-Has : (a : Attachment) → Has attachment (attachment_value a)
unfolding Has
attachment_value-Has a = (_, refl, ((_, refl), ((_, refl), ((_, refl), tt))))

comment_value-Has : (c : CommentView) → Has api_comment_view (comment_value c)
unfolding Has
comment_value-Has c = (_, refl, ((_, refl), ((_, refl), ((_, refl), ((_, refl), tt)))))

-- The program sends no name and no avatar of the author.
post_value-Has : (p : PostView) → Has api_post (post_value p)
unfolding Has
post_value-Has p = (
  _,
  refl,
  (
    (_, refl),
    (
      (_, refl),
      (
        inl refl,
        (
          inl refl,
          (
            (_, refl),
            (
              (
                _,
                refl,
                items-AllItems (Has attachment) attachment_value attachment_value-Has p.attachments,
              ),
              (
                (_, refl),
                (
                  (_, refl),
                  (
                    (
                      _,
                      refl,
                      items-AllItems (Has api_comment_view) comment_value comment_value-Has
                          p.comments,
                    ),
                    tt,
                  ),
                ),
              ),
            ),
          ),
        ),
      ),
    ),
  ),
)

user_value-Has : (u : UserSummary) → Has user_of_response (user_value u)
unfolding Has
user_value-Has u = (
  _,
  refl,
  (
    (_, refl),
    (
      inr (option_value-Has u.display_name),
      (
        inr (option_value-Has u.bio),
        (
          inr (option_value-Has u.avatar_blob_id),
          (inr (option_value-Has u.banner_blob_id), ((_, refl), tt)),
        ),
      ),
    ),
  ),
)

profile_value-Has : (p : ProfileView) → Has profile_of_response (profile_value p)
unfolding Has
profile_value-Has p = (
  _,
  refl,
  (
    (_, refl),
    (
      inr (option_value-Has p.display_name),
      (
        inr (option_value-Has p.bio),
        (
          inr (option_value-Has p.avatar_blob_id),
          (
            inr (option_value-Has p.banner_blob_id),
            (
              (_, refl),
              (
                (_, refl),
                (
                  (_, refl, texts-AllItems p.follower_list),
                  (
                    (_, refl, texts-AllItems p.following_list),
                    ((_, refl, texts-AllItems p.posts), ((_, refl), tt)),
                  ),
                ),
              ),
            ),
          ),
        ),
      ),
    ),
  ),
)

users-Has : (us : List UserSummary) → Has users_response (response_value (Response.users us))
unfolding Has
users-Has us = (
  _,
  refl,
  (refl, ((_, refl, items-AllItems (Has user_of_response) user_value user_value-Has us), tt)),
)

message-Has : (message : String) → Has ok_response (response_value (Response.done message))
unfolding Has
message-Has message = (_, refl, (refl, ((_, refl), tt)))

post-Has : (p : PostView) → Has post_response (response_value (Response.post p))
unfolding Has
post-Has p = (_, refl, (refl, (post_value-Has p, tt)))

-- What the program answers if it succeeds has the type that the client declares for the reply.
success-Has : (op : Op) (o : Output op) → Has (reply_type op) (response_value (success op o))
unfolding Has
success-Has (Op.register u q) o = message-Has _
success-Has (Op.login u q) o = (_, refl, (refl, ((_, refl), ((_, refl), tt))))
success-Has (Op.logout s) o = message-Has _
success-Has (Op.create_post s t a) o = post-Has o
success-Has (Op.delete_post s id) o = message-Has _
success-Has (Op.like s id) o = post-Has o
success-Has (Op.get_post id) o = post-Has o
success-Has (Op.comment s id t) o = post-Has o
success-Has (Op.feed s limit discover) o =
    (_, refl, (refl, ((_, refl, items-AllItems (Has api_post) post_value post_value-Has o), tt)))
success-Has (Op.follow s target) o = message-Has _
success-Has (Op.unfollow s target) o = message-Has _
success-Has (Op.profile u) o = (_, refl, (refl, (profile_value-Has o, tt)))
success-Has (Op.update_profile s n b a c) o = message-Has _
success-Has (Op.search_users s q limit) o = users-Has o
success-Has (Op.suggestions s limit) o = users-Has o
success-Has (Op.followers s u limit) o = users-Has o
success-Has (Op.following s u limit) o = users-Has o

-- How a method of the client ends, by what the program's function returned.
abbrev pub Settles : (op : Op) → Output op ⊎ String → Browser → Result Value × Browser → Type 0
Settles op (inl o) s' r = (v : Value) × (r ≡ (ok v, s')) × Has (result_type op) v
Settles op (inr e) s' r = r ≡ (throw (builtin "Error" (or_text (some e) (fallback op))), s')

module _ (p : Platform) (program_id : String) where
  -- If the reply is what the program answers to the operation, the method returns a value of its own
  -- type if the program succeeds, and throws the program's error, or an error of its own where that is
  -- empty, if it fails.
  pub perform-Settles :
      (op : Op) (o : Output op ⊎ String) (s s' : Browser)
      → execute_program p program_id (op_value op) s ≡ (ok (response_value (respond op o)), s')
      → Settles op o s' (perform p program_id op s)
  unfolding Has
  perform-Settles op (inl o) s s' e =
      perform-Has p program_id op (response_value (success op o)) s s' e (success-Has op o)
  perform-Settles op (inr m) s s' e =
      let (t, read, thrown) =
        perform_refused p program_id op (response_value (Response.error m)) s s' e
          (_, refl, (refl, ((m, refl), tt))) in
      let same : m ≡ t = cc in rw same thrown
