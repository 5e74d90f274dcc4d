-- ===== src/Nbook/Pages/Account.antt =====
-- The pages on which a user logs in and registers (wasm_programs/nbook/ui/app/login/page.tsx and
-- app/register/page.tsx).
pub mod Registration
use text.Mathlib.Text.{◌==◌}
use onvm.Base.{
  ℕ, String, Bool, true, false, not, ◌&&◌, some, List, [], ◌∷◌, leb, ltb, if◌then◌else◌,
}
use onvm.Base.Texts.{utf16_size}
use onvm.Nbook.Session.{login, register}
use onvm.Nbook.Pages.{Page, Toast, Variant, call, set, toast, push, attempt}
use onvm.Js.Io.{Io, ◌>>=◌, ◌>>◌}
use onvm.Js.Platform.{Platform}

pub record Form : Type 0 where
  pub username : String
  pub password : String
  pub confirm_password : String
  pub is_loading : Bool

abbrev pub start_loading : Form → Form
start_loading v = record v { is_loading = true }

abbrev pub stop_loading : Form → Form
stop_loading v = record v { is_loading = false }

abbrev pub message : (title description : String) → Variant → Toast
message title description variant = record {
  title = title;
  description = some description;
  variant = variant;
}

-- `passwordRequirements`: what the page shows as met.
unfoldable pub password_requirements : Form → List (String × Bool)
password_requirements v =
    ("At least 6 characters", leb 6 (utf16_size v.password))
    ∷ ("Matches confirmation", v.password == v.confirm_password && ltb 0 (utf16_size v.password))
    ∷ []

module _ (p : Platform) (program_id : String) where
  -- `handleSubmit` of the login page.
  pub submit_login : Io (Page Form) (Unit {0})
  submit_login s =
      (set start_loading
          >> attempt "Login failed" stop_loading (
              call (login p program_id s.view.username s.view.password) >>= λ user.
              toast
                (message "Welcome back!" "You've successfully logged in to nbook." Variant.standard)
              >> push "/feed"))
        s

  -- The account is made and its user logged in.
  abbrev register_and_login : (username password : String) → Io (Page Form) (Unit {0})
  register_and_login username password = call (register p program_id username password) >>= λ reply.
      call (login p program_id username password) >>= λ user.
      toast (message "Account created!" "Welcome to nbook. Let's get started!" Variant.standard)
      >> push "/feed"

  -- `handleSubmit` of the page for new accounts.
  pub submit_registration : Io (Page Form) (Unit {0})
  submit_registration s =
      if not (s.view.password == s.view.confirm_password)
      then toast
          (message "Passwords don't match" "Please make sure your passwords match."
            Variant.destructive)
          s
      else if ltb (utf16_size s.view.password) 6
      then toast
          (message "Password too short" "Password must be at least 6 characters."
            Variant.destructive)
          s
      else (set start_loading
            >> attempt "Registration failed" stop_loading
                (register_and_login s.view.username s.view.password))
          s
