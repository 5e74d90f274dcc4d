-- ===== src/Nbook/Api.antt =====
-- The functions that the pages call (wasm_programs/nbook/ui/lib/api.ts): most need a live session.
pub mod Guard
use onvm.Base.{ℕ, String, Bool, Option, List, if◌then◌else◌}
use onvm.Sdk.Errors.{builtin}
use onvm.Nbook.Client
use onvm.Nbook.Ops.{Op}
use onvm.Nbook.Client.{Browser, perform}
use onvm.Nbook.Session.{get_session, optional_member}
use onvm.Js.Value.{Value, truthy}
use onvm.Js.Io.{Io, fail, lift, ◌>>=◌}
use onvm.Js.Platform.{Platform, Bytes}

module _ (p : Platform) (program_id : String) where
  pub get_session_token : Io Browser Value
  unfolding get_session
  get_session_token =
      get_session p program_id >>= λ user. lift (optional_member p program_id user "session")

  -- `if (!sessionToken) throw new Error("Not authenticated")`, then the call with the session.
  pub with_session : (Value → Op) → Io Browser Value
  unfolding get_session_token
  with_session op = do
    token ← get_session_token
    if truthy token
        then perform p program_id (op token)
        else fail (builtin "Error" "Not authenticated")

  abbrev pub create_post : (text : String) (attachments : List String) → Io Browser Value
  create_post text attachments = with_session (λ s. Op.create_post s text attachments)

  abbrev pub like_post : (post_id : String) → Io Browser Value
  like_post post_id = with_session (λ s. Op.like s post_id)

  abbrev pub comment_on_post : (post_id text : String) → Io Browser Value
  comment_on_post post_id text = with_session (λ s. Op.comment s post_id text)

  abbrev pub get_post : (post_id : String) → Io Browser Value
  get_post post_id = perform p program_id (Op.get_post post_id)

  abbrev pub follow_user : (username : String) → Io Browser Value
  follow_user username = with_session (λ s. Op.follow s username)

  abbrev pub unfollow_user : (username : String) → Io Browser Value
  unfollow_user username = with_session (λ s. Op.unfollow s username)

  abbrev pub get_feed : (limit : ℕ) (discover : Bool) → Io Browser Value
  get_feed limit discover = with_session (λ s. Op.feed s limit discover)

  abbrev pub get_profile : (username : String) → Io Browser Value
  get_profile username = perform p program_id (Op.profile username)

  abbrev pub update_profile :
      (display_name bio avatar_blob_id banner_blob_id : Option String) → Io Browser Value
  update_profile display_name bio avatar banner =
      with_session (λ s. Op.update_profile s display_name bio avatar banner)

  abbrev pub delete_post : (post_id : String) → Io Browser Value
  delete_post post_id = with_session (λ s. Op.delete_post s post_id)

  abbrev pub search_users : (query : String) (limit : ℕ) → Io Browser Value
  search_users query limit = with_session (λ s. Op.search_users s query limit)

  abbrev pub get_suggestions : (limit : ℕ) → Io Browser Value
  get_suggestions limit = with_session (λ s. Op.suggestions s limit)

  abbrev pub list_followers : (username : String) (limit : ℕ) → Io Browser Value
  list_followers username limit = with_session (λ s. Op.followers s username limit)

  abbrev pub list_following : (username : String) (limit : ℕ) → Io Browser Value
  list_following username limit = with_session (λ s. Op.following s username limit)
