-- ===== src/Nbook/Pages/Menu/Leaving.antt =====
-- The button of the menu (wasm_programs/nbook/ui/components/feed/sidebar.tsx) that logs out.
use onvm.Base.{◌≡◌, ℕ, String, false}
use onvm.Nbook.Client.{Browser}
use onvm.Nbook.Session.Expiry.{stored_browser}
use onvm.Nbook.Pages.{Page}
use onvm.Nbook.Pages.Menu.{Menu, log_out, end_logout}
use onvm.Js.Value.{Value, null}
use onvm.Js.Platform.{Platform}

-- A guest is shown.
abbrev pub IsGuest : Menu → Type 0
IsGuest m = (m.username ≡ null) × (m.has_session ≡ false)

module _ (p : Platform) (program_id : String) where
  module _ (session : Value) (username : String) (t : ℕ) (b : Browser) (s : Page Menu) where
    abbrev pub signed_in : Page Menu
    signed_in = record s { browser = stored_browser p program_id session username t b }

    -- The page after the click, and after the end of the logout.
    abbrev pub clicked : Page Menu
    clicked = record signed_in { view = log_out signed_in.view }

    abbrev pub left_page : Page Menu
    left_page = (end_logout p program_id clicked).1
