-- ===== src/Nbook/Pages/Card/State.antt =====
-- The state of a card (wasm_programs/nbook/ui/components/feed/post-card.tsx), and the operations on it
-- that send nothing.
use onvm.Base.{
  String, Bool, true, false, not, ◌||◌, Option, none, some, List, [], ◌∷◌, if◌then◌else◌,
}
use text.Mathlib.Text.{◌==◌}
use onvm.Base.Texts.{trim}
use onvm.Sdk.Errors.{builtin}
use onvm.Nbook.Pages.{Toast, Variant}
use onvm.Js.Value.{Value, arr, Items, nil, cons, truthy, same, peek}
use onvm.Js.Result.{Result, ok, throw, member}
use onvm.Js.Result

pub record Card : Type 0 where
  pub local_post : Value
  pub is_liking : Bool
  pub bookmarked : Bool
  pub attachments : List (String × String)
  pub attachment_errors : List (String × String)
  pub show_comment_box : Bool
  pub comment_text : String
  pub is_commenting : Bool
  pub sharing : Bool
  pub share_open : Bool
  pub is_following_author : Option Bool
  pub follow_busy : Bool
  pub detail_open : Bool
  pub cached_following : Option (List Value)

-- The state in which a card of `post` is first shown.
abbrev pub new_card : (post : Value) → (cached_following : Option (List Value)) → Card
new_card post cached_following = record {
  local_post = post;
  is_liking = false;
  bookmarked = false;
  attachments = [];
  attachment_errors = [];
  show_comment_box = false;
  comment_text = "";
  is_commenting = false;
  sharing = false;
  share_open = false;
  is_following_author = none;
  follow_busy = false;
  detail_open = false;
  cached_following = cached_following;
}

-- The flags of the actions that are on their way.
abbrev pub start_like : Card → Card
start_like c = record c { is_liking = true }

-- `if (isLiking) return; setIsLiking(true)`
abbrev pub begin_like : Card → Option Card
begin_like c = if c.is_liking then none else some (start_like c)

abbrev pub stop_like : Card → Card
stop_like c = record c { is_liking = false }

abbrev pub start_comment : Card → Card
start_comment c = record c { is_commenting = true }

-- The button that sends the comment is not `disabled`.
abbrev pub can_comment : Card → Bool
can_comment c = not (c.is_commenting || trim c.comment_text == "")

abbrev pub stop_comment : Card → Card
stop_comment c = record c { is_commenting = false }

abbrev pub start_follow : Card → Card
start_follow c = record c { follow_busy = true }

abbrev pub stop_follow : Card → Card
stop_follow c = record c { follow_busy = false }

abbrev pub please_log_in : Toast
please_log_in = record {
  title = "Please log in";
  description = some "Sign in to follow users.";
  variant = Variant.standard;
}

-- `Set.has`, `Set.delete` and `Set.add`
abbrev pub has : List Value → Value → Bool
has [] v = false
has (w ∷ ws) v = if same w v then true else has ws v

abbrev pub delete : List Value → Value → List Value
delete [] v = []
delete (w ∷ ws) v = let rest = delete ws v in if same w v then rest else w ∷ rest

abbrev pub add : List Value → Value → List Value
add ws v = if has ws v then ws else v ∷ ws

-- `new Set(users.map((u) => u.username))`
abbrev usernames : Items → Result (List Value)
usernames nil = ok []
usernames (cons u us) =
    Result.◌>>=◌ (member u "username")
      (λ name. Result.◌>>=◌ (usernames us) (λ names. ok (add names name)))

abbrev pub following_set : Value → Result (List Value)
following_set (arr us) = usernames us
following_set _ = throw (builtin "TypeError" "users.map is not a function")

-- The user who is logged in is the author, or there is no user or no author.
abbrev pub cannot_follow : (current_user post : Value) → Bool
cannot_follow current_user post =
    not (truthy current_user)
    || not (truthy (peek post "author"))
    || same current_user (peek post "author")

-- The buttons that only change the state.
unfoldable toggle_comment_box : Card → Card
toggle_comment_box c = record c { show_comment_box = not c.show_comment_box }

unfoldable toggle_bookmark : Card → Card
toggle_bookmark c = record c { bookmarked = not c.bookmarked }

unfoldable cancel_comment : Card → Card
cancel_comment c = record c { comment_text = ""; show_comment_box = false }

unfoldable clear_comment : Card → Card
clear_comment c = record c { comment_text = "" }
