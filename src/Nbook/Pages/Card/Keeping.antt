-- ===== src/Nbook/Pages/Card/Keeping.antt =====
-- The parts of a card that its requests leave alone
-- (wasm_programs/nbook/ui/components/feed/post-card.tsx).
use onvm.Base.{◌≡◌, refl, String, Bool, true, false, Option, none, some, List}
use onvm.Nbook.Api.{like_post, comment_on_post, list_following, follow_user, unfollow_user}
use onvm.Nbook.Client.{Browser}
use onvm.Nbook.Pages.{Page, call, set}
use onvm.Nbook.Pages.Keeps.{Keeps, >>=-Keeps}
use onvm.Nbook.Pages.Card.{
  like_request, comment_request, toggle_request, change_follow, followed, unfollowed,
  following_from, get_following_set,
}
use onvm.Nbook.Pages.Card.State.{Card, following_set}
use onvm.Js.Value.{Value, show_value}
use onvm.Js.Result.{member}
use onvm.Js.Io.{Io, lift, gets, ◌>>=◌}
use onvm.Js.Platform.{Platform}

-- The changes that the replies to a like and to a comment make.
abbrev pub put_liked : Value → Card → Card
put_liked post c = record c { local_post = post }

abbrev pub put_commented : Value → Card → Card
put_commented post c = record c { local_post = post; comment_text = ""; show_comment_box = false }

-- The flags of the requests that are on their way.
abbrev pub flags : Card → Bool × Bool × Bool
flags c = (c.is_liking, c.is_commenting, c.follow_busy)

-- The request about the post that is shown: what it returns changes the card by `put`.
abbrev request :
    (q : Value → Io Browser Value) (put : Value → Card → Card) → Io (Page Card) (Unit {0})
request q put = gets (λ s. s.view.local_post) >>= λ post.
    lift (member post "id") >>= λ id. call (q id) >>= λ updated. set (put updated)

request-Keeps :
    (q : Value → Io Browser Value) (put : Value → Card → Card)
    → ((updated : Value) (c : Card) → flags (put updated c) ≡ flags c)
    → Keeps flags (request q put)
request-Keeps q put h =
    >>=-Keeps flags (gets (λ s. s.view.local_post))
      (λ post. lift (member post "id") >>= λ id. call (q id) >>= λ u. set (put u)) (λ s. refl)
      (λ post.
        >>=-Keeps flags (lift (member post "id")) (λ id. call (q id) >>= λ u. set (put u))
          (λ s. refl)
          (λ id. >>=-Keeps flags (call (q id)) (λ u. set (put u)) (λ s. refl) (λ u s. h u s.view)))

module _ (p : Platform) (program_id : String) where
  pub like_request-Keeps : Keeps flags (like_request p program_id)
  like_request-Keeps =
      request-Keeps (λ id. like_post p program_id (show_value id)) put_liked (λ u c. refl)

  pub comment_request-Keeps : (text : String) → Keeps flags (comment_request p program_id text)
  comment_request-Keeps text =
      request-Keeps (λ id. comment_on_post p program_id (show_value id) text) put_commented
        (λ u c. refl)

  following_from-Keeps :
      (known : Option (List Value)) (username : Value)
      → Keeps flags (following_from p program_id known username)
  following_from-Keeps (some names) username = λ s. refl
  following_from-Keeps none username =
      >>=-Keeps flags (call (list_following p program_id (show_value username) 500)) _ (λ s. refl)
        (λ users. >>=-Keeps flags (lift (following_set users)) _ (λ s. refl) (λ names s. refl))

  change_follow-Keeps :
      (following : Bool) (author : Value)
      → Keeps flags (change_follow p program_id following author)
  change_follow-Keeps true author =
      >>=-Keeps flags (call (unfollow_user p program_id (show_value author)))
        (λ v. unfollowed author) (λ s. refl) (λ v s. refl)
  change_follow-Keeps false author =
      >>=-Keeps flags (call (follow_user p program_id (show_value author))) (λ v. followed author)
        (λ s. refl) (λ v s. refl)

  pub toggle_request-Keeps :
      (current_user author : Value) (following : Bool)
      → Keeps flags (toggle_request p program_id current_user author following)
  toggle_request-Keeps u author following =
      >>=-Keeps flags (get_following_set p program_id u)
        (λ names. change_follow p program_id following author)
        (λ s. following_from-Keeps s.view.cached_following u s)
        (λ names. change_follow-Keeps following author)
