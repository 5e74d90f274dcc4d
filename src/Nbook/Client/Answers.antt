-- ===== src/Nbook/Client/Answers.antt =====
-- The methods of the site's client return what their types say
-- (wasm_programs/nbook/ui/lib/onvm-client.ts).
use package.text.Mathlib.Text.{◌==◌}
use onvm.Base.{◌≡◌, refl, String, false}
use onvm.Nbook.Ops.{Op, op_value}
use onvm.Nbook.Client.{Browser, execute_program, call, perform, result_of}
use onvm.Nbook.Normalize.{normalize_post, normalize_profile, normalize_users, map_value}
use onvm.Nbook.Normalize.Typing.{
  Converts, map_value-Converts, normalize_post-Converts, normalize_profile-Converts,
  normalize_users-Converts,
}
use onvm.Nbook.Types.{
  api_post, post, profile_view, user_summary, profile_of_response, user_of_response, ok_response,
  login_ok_response, post_response, feed_response, profile_response, users_response,
}
use onvm.Js.Shape.{
  Shape, Members, absent, array, object, literal, text, number, done, ◌⨾◌, ◌∶◌, Has, Succeeds,
}
use onvm.Js.Value.{Value, num, str, obj, Fields, field, end, field_of}
use onvm.Js.Result.{Result, ok, member}
use onvm.Js.Result
use onvm.Js.Platform.{Platform}

-- The type of reply that a method expects, the argument of `executeProgram`.
abbrev pub reply_type : Op → Shape
reply_type (Op.register u q) = ok_response
reply_type (Op.login u q) = login_ok_response
reply_type (Op.logout s) = ok_response
reply_type (Op.create_post s t a) = post_response
reply_type (Op.delete_post s id) = ok_response
reply_type (Op.like s id) = post_response
reply_type (Op.get_post id) = post_response
reply_type (Op.comment s id t) = post_response
reply_type (Op.feed s limit discover) = feed_response
reply_type (Op.follow s target) = ok_response
reply_type (Op.unfollow s target) = ok_response
reply_type (Op.profile u) = profile_response
reply_type (Op.update_profile s n b a c) = ok_response
reply_type (Op.search_users s q limit) = users_response
reply_type (Op.suggestions s limit) = users_response
reply_type (Op.followers s u limit) = users_response
reply_type (Op.following s u limit) = users_response

-- `{ session: string; expiresMs: number }`
abbrev login_result : Shape
login_result = object ("session" ∶ text ⨾ "expiresMs" ∶ number ⨾ done)

-- The type that a method returns.
abbrev pub result_type : Op → Shape
result_type (Op.register u q) = ok_response
result_type (Op.login u q) = login_result
result_type (Op.logout s) = absent
result_type (Op.create_post s t a) = post
result_type (Op.delete_post s id) = absent
result_type (Op.like s id) = post
result_type (Op.get_post id) = post
result_type (Op.comment s id t) = post
result_type (Op.feed s limit discover) = array post
result_type (Op.follow s target) = absent
result_type (Op.unfollow s target) = absent
result_type (Op.profile u) = profile_view
result_type (Op.update_profile s n b a c) = absent
result_type (Op.search_users s q limit) = array user_summary
result_type (Op.suggestions s limit) = array user_summary
result_type (Op.followers s u limit) = array user_summary
result_type (Op.following s u limit) = array user_summary

-- A part of the reply that is converted.
member-Converts :
    (name : String) (s t : Shape) (f : Value → Result Value)
    → Converts s t f
    → (r : Value) (fs : Fields) → r ≡ obj fs
    → Has s (field_of fs name)
    → (w : Value) × (Result.◌>>=◌ (member r name) f ≡ ok w) × Has t w
member-Converts name s t f c r fs e h = let (w, q, k) = c (field_of fs name) h in (w, rw e q, k)

member-post :
    (r : Value) (fs : Fields)
    → r ≡ obj fs
    → Has api_post (field_of fs "post")
    → (w : Value) × (Result.◌>>=◌ (member r "post") normalize_post ≡ ok w) × Has post w
member-post = member-Converts "post" api_post post normalize_post normalize_post-Converts

member-users :
    (r : Value) (fs : Fields)
    → r ≡ obj fs
    → Has (array user_of_response) (field_of fs "users")
    → (w : Value) × (Result.◌>>=◌ (member r "users") normalize_users ≡ ok w)
      × Has (array user_summary) w
member-users =
    member-Converts "users" (array user_of_response) (array user_summary) normalize_users
      normalize_users-Converts

module _ (p : Platform) (program_id : String) where
  -- Whatever the operation: of a reply that has the type which the method expects, a value is made of the
  -- type that the method returns, and nothing is thrown.
  result_of-Has :
      (op : Op) (r : Value)
      → Has (reply_type op) r
      → (v : Value) × (result_of p program_id op r ≡ ok v) × Has (result_type op) v
  unfolding Has result_of
  result_of-Has (Op.register u q) r h = (r, refl, h)
  result_of-Has (Op.login u q) r (fs, e, (status, ((t, session), ((n, expires), _)))) = (
    obj (field "session" (str t) (field "expiresMs" (num n) end)),
    rw (e, status, session, expires) refl,
    (_, refl, ((t, refl), ((n, refl), tt))),
  )
  result_of-Has (Op.logout s) r h = (_, refl, refl)
  result_of-Has (Op.create_post s t a) r (fs, e, h) = member-post r fs e h.1.0
  result_of-Has (Op.delete_post s id) r h = (_, refl, refl)
  result_of-Has (Op.like s id) r (fs, e, h) = member-post r fs e h.1.0
  result_of-Has (Op.get_post id) r (fs, e, h) = member-post r fs e h.1.0
  result_of-Has (Op.comment s id t) r (fs, e, h) = member-post r fs e h.1.0
  result_of-Has (Op.feed s limit discover) r (fs, e, h) =
      member-Converts "posts" (array api_post) (array post) (map_value normalize_post)
        (map_value-Converts api_post post normalize_post normalize_post-Converts) r fs e h.1.0
  result_of-Has (Op.follow s target) r h = (_, refl, refl)
  result_of-Has (Op.unfollow s target) r h = (_, refl, refl)
  result_of-Has (Op.profile u) r (fs, e, h) =
      member-Converts "profile" profile_of_response profile_view normalize_profile
        normalize_profile-Converts r fs e h.1.0
  result_of-Has (Op.update_profile s n b a c) r h = (_, refl, refl)
  result_of-Has (Op.search_users s q limit) r (fs, e, h) = member-users r fs e h.1.0
  result_of-Has (Op.suggestions s limit) r (fs, e, h) = member-users r fs e h.1.0
  result_of-Has (Op.followers s u limit) r (fs, e, h) = member-users r fs e h.1.0
  result_of-Has (Op.following s u limit) r (fs, e, h) = member-users r fs e h.1.0

-- A reply of this type has a status other than "error".
Has-status-Succeeds :
    (t : String) (ms : Members) (r : Value)
    → (t == "error") ≡ false
    → Has (object ("status" ∶ literal t ⨾ ms)) r
    → Succeeds "error" r
unfolding Has
Has-status-Succeeds t ms r good (fs, e, (has_status, _)) = record {
  fs = fs;
  status = t;
  is_object = e;
  has_status = has_status;
  no_error = good;
}

reply_type-Succeeds : (op : Op) (r : Value) → Has (reply_type op) r → Succeeds "error" r
reply_type-Succeeds (Op.register u q) r h = Has-status-Succeeds _ _ r refl h
reply_type-Succeeds (Op.login u q) r h = Has-status-Succeeds _ _ r refl h
reply_type-Succeeds (Op.logout s) r h = Has-status-Succeeds _ _ r refl h
reply_type-Succeeds (Op.create_post s t a) r h = Has-status-Succeeds _ _ r refl h
reply_type-Succeeds (Op.delete_post s id) r h = Has-status-Succeeds _ _ r refl h
reply_type-Succeeds (Op.like s id) r h = Has-status-Succeeds _ _ r refl h
reply_type-Succeeds (Op.get_post id) r h = Has-status-Succeeds _ _ r refl h
reply_type-Succeeds (Op.comment s id t) r h = Has-status-Succeeds _ _ r refl h
reply_type-Succeeds (Op.feed s limit discover) r h = Has-status-Succeeds _ _ r refl h
reply_type-Succeeds (Op.follow s target) r h = Has-status-Succeeds _ _ r refl h
reply_type-Succeeds (Op.unfollow s target) r h = Has-status-Succeeds _ _ r refl h
reply_type-Succeeds (Op.profile u) r h = Has-status-Succeeds _ _ r refl h
reply_type-Succeeds (Op.update_profile s n b a c) r h = Has-status-Succeeds _ _ r refl h
reply_type-Succeeds (Op.search_users s q limit) r h = Has-status-Succeeds _ _ r refl h
reply_type-Succeeds (Op.suggestions s limit) r h = Has-status-Succeeds _ _ r refl h
reply_type-Succeeds (Op.followers s u limit) r h = Has-status-Succeeds _ _ r refl h
reply_type-Succeeds (Op.following s u limit) r h = Has-status-Succeeds _ _ r refl h

module _ (p : Platform) (program_id : String) where
  call-ok :
      (op : Op) (r : Value) (s s' : Browser)
      → Succeeds "error" r
      → execute_program p program_id (op_value op) s ≡ (ok r, s')
      → call p program_id op s ≡ (ok r, s')
  unfolding call
  call-ok op r s s' h e = rw (e, h.is_object, h.has_status, h.no_error) refl

  -- If the program's reply to an operation has the type that the method expects, the method returns a
  -- value of its own type, and does not throw.
  pub perform-Has :
      (op : Op) (r : Value) (s s' : Browser)
      → execute_program p program_id (op_value op) s ≡ (ok r, s')
      → Has (reply_type op) r
      → (v : Value) × (perform p program_id op s ≡ (ok v, s')) × Has (result_type op) v
  unfolding perform
  perform-Has op r s s' e h =
      let (v, q, k) = result_of-Has p program_id op r h in
      (v, rw (call-ok op r s s' (reply_type-Succeeds op r h) e, q) refl, k)
