-- ===== src/Nbook/Pages/Menu.antt =====
-- The menu beside the pages (wasm_programs/nbook/ui/components/feed/sidebar.tsx).
pub mod Leaving
use onvm.Base.{
  ◌≡◌, refl, ◌∙◌, ap, ℕ, String, Bool, true, false, Option, none, some, List, [], ◌∷◌,
  if◌then◌else◌, Bool-cases, inl, inr,
}
use text.Mathlib.Text.{◌==◌}
use onvm.Base.Texts.{front, concat}
use onvm.Nbook.Client.{Browser}
use onvm.Nbook.Session.{get_session, logout}
use onvm.Nbook.Session.Expiry
use onvm.Nbook.Session.Expiry.{IsReadBack, stored_browser, user}
use onvm.Nbook.Api.{get_profile}
use onvm.Nbook.Pages.{Page, call, set}
use onvm.Js.Value.{Value, null, str, peek, or_else, or_value, truthy, show_value}
use onvm.Js.Result.{Result, ok, member}
use onvm.Js.Io.{Io, pure, lift, catch, ◌>>=◌, ◌>>◌}
use onvm.Js.Platform.{Platform}

pub record Menu : Type 0 where
  pub username : Value
  pub has_session : Bool
  pub avatar_id : Value

unfoldable new_menu : Menu
new_menu = record { username = null; has_session = false; avatar_id = null }

record Item : Type 0 where
  label : String
  href : String
  active : Bool

abbrev item : (pathname label href : String) → Item
item pathname label href = record { label = label; href = href; active = pathname == href }

-- `navItems`
unfoldable nav_items : (pathname : String) → List Item
nav_items pathname =
    item pathname "Home" "/feed"
    ∷ item pathname "Discover" "/discover"
    ∷ item pathname "Create" "/create"
    ∷ item pathname "Profile" "/profile"
    ∷ item pathname "Settings" "/settings"
    ∷ []

-- What stands below the menu.
record Footer : Type 0 where
  href : String
  image : Option String
  initials : String
  name : String
  hint : String
  has_logout : Bool

-- `upper` is `toUpperCase`; a text is cut by characters.
unfoldable footer : (upper : String → String) → Menu → Footer
unfolding show_value
footer upper m = record {
  href = if m.has_session then "/profile" else "/login";
  image =
      if truthy m.avatar_id
      then some (concat ("/api/onvm/blob/" ∷ show_value m.avatar_id ∷ []))
      else none;
  initials = upper (front 2 (show_value (or_value m.username (str "NB"))));
  name = show_value (or_value m.username (str "Guest"));
  hint = if m.has_session then "View profile" else "Log in";
  has_logout = m.has_session;
}

module _ (p : Platform) (program_id : String) where
  abbrev show_avatar : (username : Value) → Io (Page Menu) (Unit {0})
  show_avatar username =
      catch
        (do
          profile ← call (get_profile p program_id (show_value username))
          avatar ← lift (member profile "avatarBlobId")
          set (λ m. record m { avatar_id = or_value avatar null }))
        (λ e. set (λ m. record m { avatar_id = null }))

  abbrev show_session : (session : Value) → Io (Page Menu) (Unit {0})
  show_session session =
      set (λ m. record m {
        username = or_else (peek session "username") null;
        has_session = truthy session;
      })
      >> (if truthy (peek session "username")
          then show_avatar (peek session "username")
          else pure tt)

  -- The effect.
  pub load_menu : Io (Page Menu) (Unit {0})
  load_menu = call (get_session p program_id) >>= show_session

  -- The end of the logout that the button "Logout" starts; nothing waits for its result.
  unfoldable pub end_logout : Io (Page Menu) (Unit {0})
  end_logout s = (ok tt, record s { browser = (logout p program_id s.browser).1 })

-- The button "Logout" does not wait for the logout that it starts.
abbrev pub log_out : Menu → Menu
log_out m = record m { username = null; has_session = false }
