-- ===== src/Tests/Pages.antt =====
-- The theorems on the pages of the site, at concrete inputs.
use onvm.Base.{◌≡◌, refl, ap, ◌⊎◌, inr, true, false, none, some, [], ◌∷◌}
use onvm.Nbook.Session.{get_session}
use onvm.Nbook.Pages.{Page}
use onvm.Nbook.Pages.Card.{handle_like, handle_comment, handle_follow_toggle}
use onvm.Nbook.Pages.Card.State.{Card, new_card, start_like}
use onvm.Nbook.Pages.Card.Handlers.{Settles, handlers_settle}
use onvm.Nbook.Pages.Card.Follow.{showing, follow_reply, after_toggle, handle_follow_toggle_lem}
use onvm.Nbook.Pages.Effects.{Mounted, Removes, rendered}
use onvm.Nbook.Pages.Effects
use onvm.Nbook.Pages.Card.Cancellation.{
  Shown, follow_deps, begin_follow, finish_follow, answered, finish_follow-answered,
}
use onvm.Nbook.Pages.Card.Races.{Live, Reach, Step, IsCounted, Reach-IsCounted}
use onvm.Nbook.Pages.Card.Attachments.{AreCovered, load_attachments, load_attachments-AreCovered}
use onvm.Nbook.Pages.Profile.{Profile, Modal}
use onvm.Nbook.Pages.Profile.Follows.{IsConsistent}
use onvm.Nbook.Pages.Feed.{Feed, Tab, load_feed, IsEnded, asks_login, load_feed-IsEnded}
use onvm.Nbook.Pages.Uploads.{File, upload_files}
use onvm.Nbook.Pages.CreatePost.{Draft, start_posting, handle_post, handle_file_select}
use onvm.Nbook.Pages.CreatePost.Publishing.{
  posted, create_reply, handle_post_lem, Attaches, handle_file_select-Attaches,
}
use onvm.Nbook.Pages.Account.{Form, password_requirements, submit_registration}
use onvm.Nbook.Pages.Account.Registration.{submit_registration_refused}
use onvm.Base.Texts.{present, trim}
use onvm.Js.Value.{Value, null, str, num, same, arr, obj, nil, cons, field, end}
use onvm.Js.Result.{ok}
use onvm.Tests.Site.{web, page}

abbrev visitor : {V : Type 0} → V → Page V
visitor v = record { browser = page; view = v; toasts = []; pushed = [] }

-- A post by bob, with one attachment.
abbrev attachment : Value
attachment = obj (field "blob_id_hex" (str "b1") end)

abbrev bobs_post : Value
bobs_post = obj (
    field "id" (str "p1")
      (field "author" (str "bob") (field "attachments" (arr (cons attachment nil)) end)))

abbrev card_page : Page Card
card_page = visitor (new_card bobs_post none)

abbrev live : Live
live = record { page = card_page; likes = 0; comments = 0 }

abbrev clicked : Live
clicked = record { page = visitor (start_like (new_card bobs_post none)); likes = 1; comments = 0 }

Reach-IsCounted_example : IsCounted clicked
Reach-IsCounted_example =
    Reach-IsCounted {l = live} {m = clicked} (refl, refl)
      (Reach.later Reach.here (Step.click_like (start_like (new_card bobs_post none)) refl))

-- A card of bob's post that ada reads, whose request is on its way.
abbrev asking : Mounted (Value × Value) Shown
asking = record {
  view = (str "ada", new_card bobs_post none);
  deps = (str "ada", str "bob");
  runs = record { cancelled = false; deps = (str "ada", str "bob") } ∷ [];
}

-- The same place with a post by eve.
abbrev eves_card : Shown
eves_card =
    (str "ada", new_card (obj (field "id" (str "p2") (field "author" (str "eve") end))) none)

abbrev asking_again : Mounted (Value × Value) Shown
asking_again = rendered follow_deps begin_follow finish_follow (record asking { view = eves_card })

-- The reply for bob comes last.
finish_follow-answered_example :
    (finish_follow true (str "ada", str "bob") (ok (str "bob" ∷ [])) asking_again.view
      ≡ asking_again.view)
    ⊎ (finish_follow true (str "ada", str "bob") (ok (str "bob" ∷ [])) asking_again.view
        ≡ answered (ok (str "bob" ∷ [])) asking_again.view)
finish_follow-answered_example =
    finish_follow-answered {m = asking} {n = asking_again} (inr refl, tt)
      (Effects.Reach.later (Effects.Reach.later Effects.Reach.here (Effects.Step.update eves_card))
        (Effects.Step.render (λ q. cc (ap (λ d. same d.1 (str "bob")) q))))
      (Removes.next Removes.first) refl (ok (str "bob" ∷ []))

handlers_settle_example :
    Settles web "prog" card_page (handle_like web "prog")
    × Settles web "prog" card_page (handle_comment web "prog")
    × Settles web "prog" card_page (handle_follow_toggle web "prog" (str "ada"))
handlers_settle_example = handlers_settle web "prog" card_page (str "ada") refl

handle_follow_toggle_lem_example :
    handle_follow_toggle web "prog" (str "ada") (showing false [] card_page) ≡ (
      ok tt,
      after_toggle web "prog" card_page false [] "bob"
          (follow_reply web "prog" card_page false "bob"),
    )
handle_follow_toggle_lem_example =
    handle_follow_toggle_lem web "prog" card_page (str "ada") false [] "bob" refl refl

load_attachments-AreCovered_example :
    ((load_attachments web "prog" (λ sent bytes. "u") (λ sent. false) card_page).0 ≡ ok tt)
    × AreCovered
        (
          (load_attachments web "prog"
              (λ sent bytes. "u")
              (λ sent. false)
              card_page).1.view.attachments,
          (load_attachments web "prog"
              (λ sent bytes. "u")
              (λ sent. false)
              card_page).1.view.attachment_errors,
        )
        ("b1" ∷ [])
load_attachments-AreCovered_example =
    load_attachments-AreCovered web "prog" (λ sent bytes. "u") (λ sent. false) (λ sent. refl)
      card_page attachment nil ("b1" ∷ []) refl (refl, refl)

-- The profile of bob, shown to ada, who follows him.
abbrev profile_page : Page Profile
profile_page = visitor (record {
  profile = obj (
      field "username" (str "bob")
        (field "followers" (num 1) (field "followerList" (arr (cons (str "ada") nil)) end)));
  posts = [];
  loading = false;
  editing = false;
  display_name = str "";
  bio = str "";
  avatar_blob_id = null;
  banner_blob_id = null;
  session_user = str "ada";
  hydrated = true;
  follower_modal_open = Modal.closed;
  follower_list = arr nil;
  following_list = arr nil;
  list_loading = false;
  is_following = true;
  follow_busy = false;
})

profile-IsConsistent : IsConsistent "ada" profile_page.view
profile-IsConsistent = record {
  user = refl;
  fields = _;
  shown = refl;
  names = cons (str "ada") nil;
  listed = refl;
  agrees = refl;
}

abbrev feed_page : Page Feed
feed_page = visitor (record {
  active_tab = Tab.following;
  posts = arr nil;
  is_loading = true;
  unauthenticated = false;
})

no_session : (get_session web "prog" page).0 ≡ ok null
unfolding get_session
no_session = refl

load_feed-IsEnded_example :
    IsEnded web "prog"
      (asks_login web "prog" (present none) null)
      (load_feed web "prog" none feed_page)
load_feed-IsEnded_example = load_feed-IsEnded web "prog" none null feed_page no_session

abbrev draft_page : Page Draft
draft_page =
    visitor (record { content = " a "; is_focused = true; is_posting = false; attachments = [] })

trimmed : trim " a " ≡ "a"
unfolding trim
trimmed = refl

handle_post_lem_example :
    handle_post web "prog" (λ s. s) draft_page
    ≡ (ok tt, posted web "prog" draft_page (λ s. s) (create_reply web "prog" draft_page "a"))
handle_post_lem_example = handle_post_lem web "prog" draft_page (λ s. s) "a" "" trimmed

abbrev file : File
file = record { name = "notes"; size = 1; content = 7 ∷ [] }

handle_file_select-Attaches_example :
    Attaches web "prog" page
      (file ∷ [])
      (upload_files web "prog"
        (file ∷ [])
        (record draft_page { view = start_posting draft_page.view })).0
      []
      (handle_file_select web "prog" (some (file ∷ [])) draft_page).1.view.attachments
handle_file_select-Attaches_example = handle_file_select-Attaches web "prog" file [] draft_page

abbrev form_page : Page Form
form_page = visitor (record {
  username = "ada";
  password = "secret";
  confirm_password = "secret!";
  is_loading = false;
})

submit_registration_refused_example :
    ((submit_registration web "prog" form_page).0 ≡ ok tt)
    × ((submit_registration web "prog" form_page).1.browser ≡ page)
    × ((submit_registration web "prog" form_page).1.view ≡ form_page.view)
    × ((submit_registration web "prog" form_page).1.pushed ≡ [])
unfolding password_requirements
submit_registration_refused_example = submit_registration_refused web "prog" form_page refl
