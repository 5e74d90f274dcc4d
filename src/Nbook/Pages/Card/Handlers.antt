-- ===== src/Nbook/Pages/Card/Handlers.antt =====
-- The handlers of the card of a post: what they leave, and that each one ends.
use Prim.Native.Char.{Char}
use onvm.Base.{
  Option, inl, inr, Bool-cases, ◌≡◌, refl, ap, ◌∙◌, String, false, true, Bool, none, some,
}
use onvm.Base.Texts.{trim, String-cases}
use onvm.Nbook.Api.{like_post, comment_on_post}
use onvm.Nbook.Pages.{Page, set, attempt}
use onvm.Nbook.Pages.Keeps.{Keeps, attempt-Keeps}
use onvm.Nbook.Pages.Card.Keeping.{
  flags, put_liked, put_commented, like_request-Keeps, comment_request-Keeps, toggle_request-Keeps,
}
use onvm.Js.Io.{Io, ◌>>◌}
use onvm.Nbook.Pages.Attempt.{attempt_ok, attempt-call, settled}
use onvm.Nbook.Pages.Card.{
  handle_like, handle_comment, like_request, comment_request, toggle_request, toggle_known,
  handle_follow_toggle,
}
use onvm.Nbook.Pages.Card.State.{
  Card, start_like, stop_like, start_comment, stop_comment, start_follow, stop_follow,
  cannot_follow,
}
use onvm.Js.Value.{Value, show_value, peek}
use onvm.Js.Result.{ok, member}
use onvm.Js.Platform.{Platform}

abbrev pub IsIdle : Card → Type 0
IsIdle c = flags c ≡ (false, false, false)

module _ (p : Platform) (program_id : String) (s : Page Card) where
  pub handle_like_lem :
      (id : Value)
      → s.view.is_liking ≡ false
      → member s.view.local_post "id" ≡ ok id
      → handle_like p program_id s ≡ (
        ok tt,
        settled "Failed to like" stop_like put_liked s
            (like_post p program_id (show_value id) s.browser),
      )
  unfolding handle_like
  handle_like_lem id idle read =
      rw (idle, read)
        (attempt-call "Failed to like" start_like stop_like put_liked
          (like_post p program_id (show_value id)) s (λ c. refl) (λ a c. refl))

  -- A click while a like is on its way does nothing.
  handle_like_busy : s.view.is_liking ≡ true → handle_like p program_id s ≡ (ok tt, s)
  unfolding handle_like
  handle_like_busy busy = rw busy refl

  handle_comment_lem :
      (id : Value) (c : Char) (t : String)
      → trim s.view.comment_text ≡ String.◌∷◌ c t
      → member s.view.local_post "id" ≡ ok id
      → handle_comment p program_id s ≡ (
        ok tt,
        settled "Failed to comment" stop_comment put_commented s
            (comment_on_post p program_id (show_value id) (String.◌∷◌ c t) s.browser),
      )
  unfolding handle_comment
  handle_comment_lem id c t full read =
      rw (full, read)
        (attempt-call "Failed to comment" start_comment stop_comment put_commented
          (comment_on_post p program_id (show_value id) (String.◌∷◌ c t)) s (λ c. refl)
          (λ a c. refl))

  -- Text of white space alone is not sent.
  handle_comment_blank : trim s.view.comment_text ≡ "" → handle_comment p program_id s ≡ (ok tt, s)
  unfolding handle_comment
  handle_comment_blank blank = rw blank refl

  -- A handler returns, and leaves an idle card.
  abbrev pub Settles : Io (Page Card) (Unit {0}) → Type 0
  Settles m = ((m s).0 ≡ ok tt) × IsIdle (m s).1.view

  attempt-Settles :
      (title : String) (start done : Card → Card) (m : Io (Page Card) (Unit {0}))
      → ((c : Card) → flags c ≡ flags (start s.view) → IsIdle (done c))
      → Keeps flags m
      → Settles (set start >> attempt title done m)
  attempt-Settles title start done m lowers keeps =
      let started : Page Card = record s { view = start s.view } in
      (
        attempt_ok title done m started,
        lowers (attempt title (λ v. v) m started).1.view
            (attempt-Keeps flags title (λ v. v) m (λ v. refl) keeps started),
      )

  handle_like-Settles : IsIdle s.view → Settles (handle_like p program_id)
  unfolding handle_like
  handle_like-Settles idle = rw (ap (λ f. f.0) idle) (
      attempt-Settles "Failed to like" start_like stop_like (like_request p program_id)
        (λ c e. ap (λ f. (false, f.1, f.2)) e ∙ ap (λ f. (false, f.1, f.2)) idle)
        (like_request-Keeps p program_id))

  handle_comment-Settles : IsIdle s.view → Settles (handle_comment p program_id)
  unfolding handle_comment
  handle_comment-Settles idle = elim (String-cases (trim s.view.comment_text)) [
    | inl blank ↦ rw blank (refl, idle)
    | inr (c, t, full) ↦ rw full (
        attempt-Settles "Failed to comment" start_comment stop_comment
          (comment_request p program_id (String.◌∷◌ c t))
          (λ c e. ap (λ f. (f.0, false, f.2)) e ∙ ap (λ f. (f.0, false, f.2)) idle)
          (comment_request-Keeps p program_id (String.◌∷◌ c t)))
  ]

  toggle_known-Settles :
      (current_user author : Value) (known : Option Bool)
      → IsIdle s.view
      → Settles (toggle_known p program_id current_user author known)
  toggle_known-Settles u author none idle = (refl, idle)
  toggle_known-Settles u author (some b) idle =
      attempt-Settles "Follow action failed" start_follow stop_follow
        (toggle_request p program_id u author b)
        (λ c e. ap (λ f. (f.0, f.1, false)) e ∙ ap (λ f. (f.0, f.1, false)) idle)
        (toggle_request-Keeps p program_id u author b)

  handle_follow_toggle-Settles :
      (current_user : Value)
      → IsIdle s.view
      → Settles (handle_follow_toggle p program_id current_user)
  unfolding handle_follow_toggle
  handle_follow_toggle-Settles u idle = elim (Bool-cases (cannot_follow u s.view.local_post)) [
    | inl outside ↦ rw outside (refl, idle)
    | inr may ↦
        rw may
          (toggle_known-Settles u (peek s.view.local_post "author") s.view.is_following_author idle)
  ]

  -- Whatever the network answers, the handlers of likes, comments and follows of an idle card return,
  -- and leave it idle: none of its three flags is raised.
  pub handlers_settle :
      (current_user : Value)
      → IsIdle s.view
      → Settles (handle_like p program_id)
        × Settles (handle_comment p program_id)
        × Settles (handle_follow_toggle p program_id current_user)
  handlers_settle u idle =
      (handle_like-Settles idle, handle_comment-Settles idle, handle_follow_toggle-Settles u idle)
