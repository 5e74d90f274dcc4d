-- ===== src/Tests/Site.antt =====
-- The theorems on the site's client and its session, at concrete inputs.
use text.Mathlib.Text.{◌==◌}
use onvm.Base.{ℕ, ◌≡◌, refl, String, true, none, List, [], ◌∷◌, if◌then◌else◌, ltb, arith}
use onvm.Sdk.Errors.{builtin}
use onvm.Nbook.Ops.{Op}
use onvm.Nbook.Client.{perform, Browser}
use onvm.Nbook.Session.{user_value}
use onvm.Nbook.Session.Expiry.{IsReadBack, stored_browser}
use onvm.Nbook.Session.Keeping.{Login, Action, spec, run, run-eq-spec}
use onvm.Nbook.Api.{with_session}
use onvm.Nbook.Api.Guard.{with_session-set_session}
use onvm.Nbook.Pages.{Page}
use onvm.Nbook.Pages.Menu.{Menu, log_out, end_logout}
use onvm.Nbook.Pages.Menu.Leaving.{signed_in}
use onvm.Nbook.Sniff.{sniff_content_type, sniff_blob}
use onvm.Nbook.Sniff.Agreement.{sniff_agree}
use onvm.Nbook.Normalize.{normalize_post}
use onvm.Nbook.Normalize.Renaming.{IsRenaming, post_names, HasComments, normalize_post-renames}
use onvm.Js.Value.{Value, undefined, num, str, arr, obj, nil, field, end}
use onvm.Js.Result.{Result, ok, throw}
use onvm.Js.Platform.{Platform}
use onvm.Tests.Toy.{toy, letters}
use onvm.Tests.Requests.{plain_response}

abbrev pub page : Browser
page = record { has_window = true; stored = none; sent = [] }

abbrev stored_user : Value
stored_user = user_value "ada" (str "token") (num 9)

abbrev post_value : Value
post_value = obj (field "id" (str "p1") (field "comments" (arr nil) end))

abbrev normalized : Value
normalized = obj (
    field "id" (str "p1") (
      field "author" undefined (
        field "displayName" undefined (
          field "avatarBlobId" undefined (
            field "text" undefined (
              field "attachments" undefined (
                field "createdAt" undefined
                  (field "likes" undefined (field "comments" (arr nil) end)))))))))

-- The reply of the route, and of the program.
abbrev answer : Value
answer =
    obj (field "status" (str "ok") (field "return_base64" (str "a") (field "post" post_value end)))

-- The texts of this platform: "u" is the stored user, all other texts are the answer.
abbrev parse : String → Result Value
parse t = if t == "u" then ok stored_user else ok answer

abbrev pub web : Platform
web = toy (λ sent req. ok plain_response) parse (λ v. "u")

user-IsReadBack : IsReadBack web "prog" stored_user
user-IsReadBack = record { full = refl; parsed = refl }

abbrev ada_menu : Page Menu
ada_menu = record {
  browser = page;
  view = record { username = str "ada"; has_session = true; avatar_id = str "b7" };
  toasts = [];
  pushed = [];
}

abbrev ada_in : Page Menu
ada_in = signed_in web "prog" (str "token") "ada" 9 page ada_menu

abbrev ada_clicked : Page Menu
ada_clicked = record ada_in { view = log_out ada_in.view }

abbrev ada_left : Page Menu
ada_left = (end_logout web "prog" ada_clicked).1

with_session-set_session_example :
    with_session web "prog"
      (λ s. Op.like s "p1")
      (stored_browser web "prog" (str "token") "ada" 9 page)
    ≡ (if ltb 5 9
        then perform web "prog"
            (Op.like (str "token") "p1")
            (stored_browser web "prog" (str "token") "ada" 9 page)
        else (throw (builtin "Error" "Not authenticated"), page))
with_session-set_session_example =
    with_session-set_session web "prog" (λ s. Op.like s "p1") (str "token") "ada" 9 page refl
      user-IsReadBack refl

abbrev gif : List ℕ
gif = 0x47 ∷ 0x49 ∷ 0x46 ∷ 0x38 ∷ 0x39 ∷ 0x61 ∷ 0 ∷ 0 ∷ 0 ∷ 0 ∷ 0 ∷ 0 ∷ []

sniff_agree_example : sniff_content_type gif "text/html" ≡ sniff_blob letters gif
sniff_agree_example = sniff_agree letters gif "text/html" (omega arith) refl

normalize_post-renames_example :
    IsRenaming post_names post_value normalized × HasComments post_value normalized
unfolding normalize_post
normalize_post-renames_example = normalize_post-renames post_value normalized refl

abbrev ada : Login
ada = record { session = str "token"; username = "ada"; expiry = 9 }

abbrev actions : List Action
actions = Action.store ada ∷ Action.look ∷ Action.discard ∷ Action.look ∷ []

run-eq-spec_example :
    run web "prog" actions page ≡ spec web "prog" actions (record { content = none; sent = [] })
run-eq-spec_example = run-eq-spec web "prog" actions [] (user-IsReadBack, tt)
