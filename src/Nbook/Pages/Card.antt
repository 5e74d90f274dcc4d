-- ===== src/Nbook/Pages/Card.antt =====
-- The card of a post (wasm_programs/nbook/ui/components/feed/post-card.tsx). The set of followed
-- users that the cards share is part of the state; within one action no request for it is pending.
pub mod State
pub mod Attachments
pub mod Text
pub mod Keeping
pub mod Handlers
pub mod Follow
pub mod Races
pub mod Cancellation
pub mod Sharing
use onvm.Base.{
  ◌≡◌, refl, String, Bool, true, false, not, ◌||◌, Option, none, some, List, [], ◌∷◌, if◌then◌else◌,
}
use onvm.Base.Texts.{trim, concat}
use mathlib.Core.Option
use onvm.Sdk.Errors.{Fault, builtin}
use onvm.Nbook.Api.{
  like_post, comment_on_post, delete_post, follow_user, unfollow_user, list_following, get_profile,
}
use onvm.Nbook.Pages.{Page, Toast, Variant, call, set, toast, notice, failure, attempt}
use onvm.Nbook.Pages.Card.State.{
  Card, begin_like, stop_like, start_comment, stop_comment, start_follow, stop_follow,
  please_log_in, has, delete, add, following_set, cannot_follow,
}
use onvm.Js.Value.{
  Value, undefined, null, arr, Items, nil, cons, obj, field, str, truthy, same, show_value, peek,
}
use onvm.Js.Result.{Result, ok, throw, member}
use onvm.Js.Result
use onvm.Js.Io.{Io, pure, lift, gets, modify, catch, ◌>>=◌, ◌>>◌}
use onvm.Js.Platform.{Platform}

-- What follows the request of the button: the set that is changed is the one that the cards share.
abbrev pub unfollowed : (author : Value) → Io (Page Card) (Unit {0})
unfollowed author =
    set (λ c. record c {
      cached_following = Option.map (λ names. delete names author) c.cached_following;
      is_following_author = some false;
    })
    >> toast (notice (concat ("Unfollowed " ∷ show_value author ∷ [])))

abbrev pub followed : (author : Value) → Io (Page Card) (Unit {0})
followed author =
    set (λ c. record c {
      cached_following = Option.map (λ names. add names author) c.cached_following;
      is_following_author = some true;
    })
    >> toast (notice (concat ("Following " ∷ show_value author ∷ [])))

module _ (p : Platform) (program_id : String) where
  abbrev pub fetch_following : (username : Value) → Io (Page Card) (List Value)
  fetch_following username = do
    users ← call (list_following p program_id (show_value username) 500)
    names ← lift (following_set users)
    set (λ c. record c { cached_following = some names })
    pure names

  abbrev pub following_from : Option (List Value) → (username : Value) → Io (Page Card) (List Value)
  following_from (some names) username = pure names
  following_from none username = fetch_following username

  -- `getFollowingSet`
  abbrev pub get_following_set : (username : Value) → Io (Page Card) (List Value)
  get_following_set username s = following_from s.view.cached_following username s

  -- The `try` block of `handleLike`.
  abbrev pub like_request : Io (Page Card) (Unit {0})
  like_request = do
    post ← gets (λ s. s.view.local_post)
    id ← lift (member post "id")
    updated ← call (like_post p program_id (show_value id))
    set (λ c. record c { local_post = updated })

  abbrev send_like : Io (Page Card) (Unit {0})
  send_like = attempt "Failed to like" stop_like like_request

  pub handle_like : Io (Page Card) (Unit {0})
  handle_like s = elim (begin_like s.view) [
    | none ↦ pure tt s
    | some c ↦ (set (λ v. c) >> send_like) s
  ]

  -- The `try` block of `handleComment`.
  abbrev pub comment_request : (text : String) → Io (Page Card) (Unit {0})
  comment_request text = do
    post ← gets (λ s. s.view.local_post)
    id ← lift (member post "id")
    updated ← call (comment_on_post p program_id (show_value id) text)
    set (λ c. record c { local_post = updated; comment_text = ""; show_comment_box = false })

  abbrev comment_with : (trimmed : String) → Io (Page Card) (Unit {0})
  comment_with String.[] = pure tt
  comment_with (String.◌∷◌ c t) =
      set start_comment
      >> attempt "Failed to comment" stop_comment (comment_request (String.◌∷◌ c t))

  pub handle_comment : Io (Page Card) (Unit {0})
  handle_comment s = comment_with (trim s.view.comment_text) s

  abbrev pub change_follow : (following : Bool) → (author : Value) → Io (Page Card) (Unit {0})
  change_follow true author =
      call (unfollow_user p program_id (show_value author)) >> unfollowed author
  change_follow false author =
      call (follow_user p program_id (show_value author)) >> followed author

  -- The `try` block of `handleFollowToggle`.
  abbrev pub toggle_request : (current_user author : Value) → Bool → Io (Page Card) (Unit {0})
  toggle_request current_user author following =
      get_following_set current_user >> change_follow following author

  abbrev pub toggle_known : (current_user author : Value) → Option Bool → Io (Page Card) (Unit {0})
  toggle_known current_user author none = pure tt
  toggle_known current_user author (some following) =
      set start_follow
      >> attempt "Follow action failed" stop_follow (toggle_request current_user author following)

  pub handle_follow_toggle : (current_user : Value) → Io (Page Card) (Unit {0})
  handle_follow_toggle current_user s =
      if cannot_follow current_user s.view.local_post
      then toast please_log_in s
      else toggle_known current_user (peek s.view.local_post "author") s.view.is_following_author s

  -- The effect that finds out whether the author is followed, `loadFollowState`.
  pub load_follow_state : (current_user : Value) → Io (Page Card) (Unit {0})
  load_follow_state current_user s =
      if cannot_follow current_user s.view.local_post
      then set (λ c. record c { is_following_author = some false }) s
      else catch
          (get_following_set current_user >>= λ names. set (λ c. record c {
            is_following_author = some (has names (peek s.view.local_post "author"));
          }))
          (λ e. set (λ c. record c { is_following_author = some false })) s

  -- `{ ...prev, avatarBlobId: v }`
  abbrev with_avatar : Value → Value → Value
  with_avatar avatar (obj fs) = obj (field "avatarBlobId" avatar fs)
  with_avatar avatar v = v

  -- The effect that looks for the avatar of the author, `loadAuthorProfile`.
  unfoldable load_author_profile : Io (Page Card) (Unit {0})
  load_author_profile s =
      if not (truthy (peek s.view.local_post "author"))
        || truthy (peek s.view.local_post "avatarBlobId")
      then pure tt s
      else catch
          (do
            profile ← call (get_profile p program_id (show_value (peek s.view.local_post "author")))
            avatar ← lift (member profile "avatarBlobId")
            if truthy avatar
                then set (λ c. record c { local_post = with_avatar avatar c.local_post })
                else pure tt)
          (λ e. pure tt) s

  -- The button "Delete"; `on_update` is the callback of the list that shows the card.
  unfoldable handle_delete : (on_update : Page Card → Page Card) → Io (Page Card) (Unit {0})
  handle_delete on_update =
      catch
        (do
          post ← gets (λ s. s.view.local_post)
          id ← lift (member post "id")
          call (delete_post p program_id (show_value id))
          toast (notice "Post deleted")
          modify on_update)
        (λ e. toast (failure "Delete failed" e))
