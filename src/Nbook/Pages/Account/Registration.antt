-- ===== src/Nbook/Pages/Account/Registration.antt =====
-- The submission of the two forms: what is refused, and what the page does with the replies.
use text.Mathlib.Text.{◌==◌}
use onvm.Base.{
  ℕ, ◌≡◌, refl, String, Bool, true, false, ◌&&◌, List, [], ◌∷◌, leb, ltb, Bool-cases, inl, inr,
  arith,
}
use onvm.Base.Texts.{utf16_size}
use onvm.Nbook.Client.{Browser}
use onvm.Nbook.Session.{login, register}
use onvm.Nbook.Pages.{Page, Variant, failure, attempt, call, toast, push}
use onvm.Nbook.Pages.Account.{
  Form, message, start_loading, stop_loading, password_requirements, submit_login,
  submit_registration,
}
use onvm.Js.Value.{Value}
use onvm.Js.Result.{Result, ok, throw}
use onvm.Js.Io.{◌>>=◌, ◌>>◌}
use onvm.Js.Platform.{Platform}

-- Every requirement that the page shows is met.
abbrev all_met : List (String × Bool) → Bool
all_met [] = true
all_met ((label, met) ∷ more) = met && all_met more

-- The two guards of the handler are those of the requirements that are shown.
met_guards :
    (matches : Bool) (n : ℕ)
    → (leb 6 n && ((matches && ltb 0 n) && true)) ≡ true
    → (matches ≡ true) × (ltb n 6 ≡ false)
met_guards true n h = (refl, ground arith)
met_guards false n h = absurd (ground arith)

unmet_guards :
    (matches : Bool) (n : ℕ)
    → (leb 6 n && ((matches && ltb 0 n) && true)) ≡ false
    → matches ≡ true
    → ltb n 6 ≡ true
unmet_guards true n h e = ground arith
unmet_guards false n h e = cc

module _ (p : Platform) (program_id : String) (s : Page Form) where
  abbrev started : Page Form
  started = record s { view = start_loading s.view }

  -- The page after the last request, by its reply: on the feed, or with a message.
  abbrev entered : (failed title welcome : String) → Result Value × Browser → Page Form
  entered failed title welcome (ok user, b) = record s {
    browser = b;
    view = stop_loading s.view;
    toasts = message title welcome Variant.standard ∷ s.toasts;
    pushed = "/feed" ∷ s.pushed;
  }
  entered failed title welcome (throw e, b) = record s {
    browser = b;
    view = stop_loading s.view;
    toasts = failure failed e ∷ s.toasts;
  }

  entered_reply :
      (failed title welcome : String) (r : Result Value × Browser)
      → attempt failed stop_loading
          (call (λ b. r) >>= λ user. toast (message title welcome Variant.standard) >> push "/feed")
          started
        ≡ (ok tt, entered failed title welcome r)
  entered_reply failed title welcome (ok user, b) = refl
  entered_reply failed title welcome (throw e, b) = refl

  -- A login that succeeds moves to the feed; one that fails stays, with the error.
  submit_login_lem : submit_login p program_id s ≡ (
    ok tt,
    entered "Login failed" "Welcome back!" "You've successfully logged in to nbook."
        (login p program_id s.view.username s.view.password s.browser),
  )
  unfolding submit_login
  submit_login_lem =
      entered_reply "Login failed" "Welcome back!" "You've successfully logged in to nbook."
        (login p program_id s.view.username s.view.password s.browser)

  -- The page after both requests; the login is sent if the account was made.
  abbrev registered :
      (login_reply : Browser → Result Value × Browser) → Result (Unit {0}) × Browser → Page Form
  registered login_reply (ok done, b) =
      entered "Registration failed" "Account created!" "Welcome to nbook. Let's get started!"
        (login_reply b)
  registered login_reply (throw e, b) = record s {
    browser = b;
    view = stop_loading s.view;
    toasts = failure "Registration failed" e ∷ s.toasts;
  }

  registered_reply :
      (login_reply : Browser → Result Value × Browser) (r : Result (Unit {0}) × Browser)
      → attempt "Registration failed" stop_loading
          (call (λ b. r) >>= λ reply. call login_reply >>= λ user.
            toast
              (message "Account created!" "Welcome to nbook. Let's get started!" Variant.standard)
            >> push "/feed")
          started
        ≡ (ok tt, registered login_reply r)
  registered_reply login_reply (ok done, b) =
      entered_reply "Registration failed" "Account created!" "Welcome to nbook. Let's get started!"
        (login_reply b)
  registered_reply login_reply (throw e, b) = refl

  -- A form that meets what the page asks for is submitted.
  submit_registration_lem :
      all_met (password_requirements s.view) ≡ true
      → submit_registration p program_id s ≡ (
        ok tt,
        registered
            (login p program_id s.view.username s.view.password)
            (register p program_id s.view.username s.view.password s.browser),
      )
  unfolding submit_registration password_requirements
  submit_registration_lem met =
      let (same, long) =
        met_guards (s.view.password == s.view.confirm_password) (utf16_size s.view.password) met in
      rw (same, long)
        (registered_reply (login p program_id s.view.username s.view.password)
          (register p program_id s.view.username s.view.password s.browser))

  -- A form that does not meet every requirement that the page shows is refused: nothing is sent, and
  -- the form and the address stay.
  pub submit_registration_refused :
      all_met (password_requirements s.view) ≡ false
      → ((submit_registration p program_id s).0 ≡ ok tt)
        × ((submit_registration p program_id s).1.browser ≡ s.browser)
        × ((submit_registration p program_id s).1.view ≡ s.view)
        × ((submit_registration p program_id s).1.pushed ≡ s.pushed)
  unfolding submit_registration password_requirements
  submit_registration_refused unmet =
      elim (Bool-cases (s.view.password == s.view.confirm_password)) [
        | inl same ↦
            rw
              (
                same,
                unmet_guards (s.view.password == s.view.confirm_password)
                    (utf16_size s.view.password) unmet same,
              )
              (refl, refl, refl, refl)
        | inr other ↦ rw other (refl, refl, refl, refl)
      ]
